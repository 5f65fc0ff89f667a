-- ===== src/EnvConfig/Legal.antt =====
-- A configuration of a legal port and keep-alive stays one under every override.
use netix_republisher.Prelude.{
  All, Bool, Bool-cases, List, Option, Option-cases, Result, String, [], ap, arith, err, inl, inr,
  none, ok, refl, some, ◌&◌, ◌-◌, ◌<◌, ◌^◌, ◌≡◌, ◌≤◌,
}
use netix_republisher.EnvConfig.{
  Draft, Imports, Override, env_bool, env_parse, env_value, insert_all, note, payload_format_word,
}
use netix_republisher.EnvConfig.Overrides.{
  apply_env_overrides, autostart_override, bool_override, connection_override, discover_override,
  keep_alive_override, merge_connection, merge_points, overrides, password_env_override,
  payload_format_override, payload_format_result, points_override, port_override, protocol_override,
  text_override,
}
use netix_republisher.Config.{Addressing, AppConfig, MqttConfig, PayloadFormat, PointConfig}
use netix_republisher.Auth.Startup.{Environment}
use netix_republisher.Text.{is_empty_text, to_ascii_lowercase, trim}
use netix_republisher.Json.{Json}
use netix_republisher.EnvConfig.Laws.{Keeps, Keeps-apply_all}
use netix_republisher.EnvConfig.Outcomes.{env_parse-le, when_ok_lem, when_set_lem}

-- The port fits its 16 bits, and the interval of the keep-alive is at least a second.
abbrev pub IsLegal : AppConfig → Type 0
IsLegal config = (config.mqtt.port < 2 ^ 16) × (1 ≤ config.mqtt.keep_alive_secs)

abbrev StaysLegal : Draft → Draft → Type 0
StaysLegal draft after = IsLegal draft.0 → IsLegal after.0

module _ (core : Imports) (env : Environment)
    (resolves : (mqtt : MqttConfig)
      → ((core.resolve_password_env mqtt).1.port ≡ mqtt.port)
        × ((core.resolve_password_env mqtt).1.keep_alive_secs ≡ mqtt.keep_alive_secs))
    (connects : (config : AppConfig) (connection : Addressing)
      → ((core.connection_mut config).1 connection).mqtt ≡ config.mqtt) where
  -- An override that leaves both numbers alone.
  abbrev Untouched : {A : Type 0} → (A → MqttConfig → MqttConfig) → Type 0
  Untouched put =
      (v : _) (m : MqttConfig)
      → ((put v m).port ≡ m.port) × ((put v m).keep_alive_secs ≡ m.keep_alive_secs)

  -- An override that keeps a legal configuration legal.
  abbrev KeepsLegal : Override → Type 0
  KeepsLegal = Keeps StaysLegal

  text_override-IsLegal :
      (key message : String) (put : String → MqttConfig → MqttConfig)
      → Untouched put
      → KeepsLegal (text_override core env key message put)
  unfolding text_override note
  text_override-IsLegal key message put same draft after h =
      when_set_lem StaysLegal _ draft after (env_value env key) (λ _ p. p)
        (λ v _ p. ground (arith, p, same v draft.0.mqtt)) h

  bool_override-IsLegal :
      (key message : String) (put : Bool → MqttConfig → MqttConfig)
      → Untouched put
      → KeepsLegal (bool_override core env key message put)
  unfolding bool_override note
  bool_override-IsLegal key message put same draft after h =
      when_ok_lem StaysLegal _ draft after (env_bool env key) (λ _ p. p)
        (λ v _ p. ground (arith, p, same v draft.0.mqtt)) h

  protocol_override-IsLegal : KeepsLegal (protocol_override core env)
  unfolding protocol_override note
  protocol_override-IsLegal draft after h =
      when_set_lem StaysLegal _ draft after (env_value env "REPUBLISHER_PROTOCOL") (λ _ p. p)
        (λ v _ p. p) h

  port_override-IsLegal : KeepsLegal (port_override core env)
  unfolding port_override note
  port_override-IsLegal draft after h =
      let key : String = "REPUBLISHER_MQTT_PORT" in
      when_ok_lem StaysLegal _ draft after (env_parse core env (2 ^ 16 - 1) key) (λ _ p. p)
        (λ n e p. (omega (arith, env_parse-le core env (2 ^ 16 - 1) key n e), p.1)) h

  keep_alive_override-IsLegal : KeepsLegal (keep_alive_override core env)
  unfolding keep_alive_override note
  keep_alive_override-IsLegal draft after h =
      when_ok_lem StaysLegal _ draft after
        (env_parse core env (2 ^ 64 - 1) "REPUBLISHER_MQTT_KEEP_ALIVE_SECS") (λ _ p. p)
        (λ n _ p. (p.0, omega arith)) h

  password_env_override-IsLegal : KeepsLegal (password_env_override core env)
  unfolding password_env_override note
  password_env_override-IsLegal draft after h =
      when_set_lem StaysLegal _ draft after (env_value env "REPUBLISHER_MQTT_PASSWORD_ENV")
        (λ _ p. p)
        (λ v _ p. ground (arith, p, resolves (record draft.0.mqtt { password_env = some v }))) h

  payload_format_result-IsLegal :
      (word : String) (format : Option PayloadFormat)
      → KeepsLegal (payload_format_result core env word format)
  unfolding payload_format_result note
  payload_format_result-IsLegal word none draft after h p = ground (arith, h)
  payload_format_result-IsLegal word (some format) draft after h p = ground (arith, p, h)

  payload_format_override-IsLegal : KeepsLegal (payload_format_override core env)
  unfolding payload_format_override
  payload_format_override-IsLegal draft after h p =
      elim (Option-cases (env_value env "REPUBLISHER_MQTT_PAYLOAD_FORMAT")) [
        | inl unset ↦ ground (arith, h, unset, p)
        | inr (raw, e) ↦
            let word = to_ascii_lowercase (trim raw) in
            payload_format_result-IsLegal word (payload_format_word word) draft after
              (rw (e, payload_format_override) at h) p
      ]

  autostart_override-IsLegal : KeepsLegal (autostart_override core env)
  unfolding autostart_override note
  autostart_override-IsLegal draft after h =
      when_ok_lem StaysLegal _ draft after (env_bool env "REPUBLISHER_AUTOSTART") (λ _ p. p)
        (λ v _ p. p) h

  discover_override-IsLegal : KeepsLegal (discover_override core env)
  unfolding discover_override note
  discover_override-IsLegal draft after h =
      when_ok_lem StaysLegal _ draft after (env_bool env "REPUBLISHER_DISCOVER_ON_START") (λ _ p. p)
        (λ v _ p. p) h

  merge_connection-IsLegal :
      (r : Result (List (String × Json)) String) → KeepsLegal (merge_connection core env r)
  unfolding merge_connection note
  merge_connection-IsLegal (err why) draft after h p = ground (arith, h)
  merge_connection-IsLegal (ok entries) draft after h p =
      let config = draft.0 in
      let same = connects config (insert_all entries (core.connection_mut config).0) in
      elim (Bool-cases (is_empty_text config.protocol)) [
        | inl blank ↦ ground (arith, h, blank)
        | inr chosen ↦ ground (
          arith,
          h,
          chosen,
          ap (λ (m : MqttConfig). m.port) same,
          ap (λ (m : MqttConfig). m.keep_alive_secs) same,
          p,
        )
      ]

  connection_override-IsLegal : KeepsLegal (connection_override core env)
  unfolding connection_override
  connection_override-IsLegal draft after h p =
      elim (Option-cases (env_value env "REPUBLISHER_CONNECTION_JSON")) [
        | inl unset ↦ ground (arith, h, unset, p)
        | inr (raw, e) ↦
            merge_connection-IsLegal (core.map_from_str raw) draft after
              (rw (e, connection_override) at h) p
      ]

  merge_points-IsLegal :
      (r : Result (List PointConfig) String) → KeepsLegal (merge_points core env r)
  unfolding merge_points note
  merge_points-IsLegal (err why) draft after h p = ground (arith, h)
  merge_points-IsLegal (ok imported) draft after h p = ground (arith, p, h)

  points_override-IsLegal : KeepsLegal (points_override core env)
  unfolding points_override
  points_override-IsLegal draft after h p =
      elim (Option-cases (env_value env "REPUBLISHER_POINTS_JSON")) [
        | inl unset ↦ ground (arith, h, unset, p)
        | inr (raw, e) ↦
            merge_points-IsLegal (core.points_from_str raw) draft after
              (rw (e, points_override) at h) p
      ]

  overrides-IsLegal : All KeepsLegal (overrides core env)
  unfolding overrides
  overrides-IsLegal =
      protocol_override-IsLegal
      & text_override-IsLegal _ _ _ (λ v m. (refl, refl))
      & port_override-IsLegal
      & bool_override-IsLegal _ _ _ (λ v m. (refl, refl))
      & text_override-IsLegal _ _ _ (λ v m. (refl, refl))
      & text_override-IsLegal _ _ _ (λ v m. (refl, refl))
      & text_override-IsLegal _ _ _ (λ v m. (refl, refl))
      & text_override-IsLegal _ _ _ (λ v m. (refl, refl))
      & text_override-IsLegal _ _ _ (λ v m. (refl, refl))
      & password_env_override-IsLegal
      & text_override-IsLegal _ _ _ (λ v m. (refl, refl))
      & text_override-IsLegal _ _ _ (λ v m. (refl, refl))
      & text_override-IsLegal _ _ _ (λ v m. (refl, refl))
      & text_override-IsLegal _ _ _ (λ v m. (refl, refl))
      & bool_override-IsLegal _ _ _ (λ v m. (refl, refl))
      & keep_alive_override-IsLegal
      & payload_format_override-IsLegal
      & text_override-IsLegal _ _ _ (λ v m. (refl, refl))
      & autostart_override-IsLegal
      & discover_override-IsLegal
      & connection_override-IsLegal
      & points_override-IsLegal
      & tt

  -- A legal configuration stays legal under every environment that is accepted, where resolving the
  -- password and finding the protocol's connection leave the port and the keep-alive alone.
  pub apply_env_overrides-IsLegal :
      (config config' : AppConfig) (notes : List String)
      → IsLegal config
      → apply_env_overrides core env config ≡ ok (config', notes)
      → IsLegal config'
  unfolding apply_env_overrides
  apply_env_overrides-IsLegal config config' notes p h =
      Keeps-apply_all StaysLegal (λ _ p. p) (λ _ _ _ f g p. g (f p)) (overrides core env)
        (config, []) (config', notes) overrides-IsLegal h p
