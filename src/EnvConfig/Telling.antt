-- ===== src/EnvConfig/Telling.antt =====
-- Which overrides of src/web/envcfg.rs make a note, by whether their variable is set.
use netix_republisher.Prelude.{
  Bool, Bool-cases, List, Option, Option-cases, Result, String, [], ap, arith, err, false,
  if◌then◌else◌, inl, inr, is_some, length, length-concat, none, ok, refl, some, sym, true, ℕ, ◌++◌,
  ◌+◌, ◌-◌, ◌^◌, ◌∙◌, ◌∷◌, ◌≡◌, ◌⊎◌,
}
use netix_republisher.EnvConfig.{
  Draft, Imports, Override, bool_word, env_bool, env_parse, env_value, note, payload_format_word,
  when_ok, when_set,
}
use netix_republisher.EnvConfig.Overrides.{
  autostart_override, bool_override, connection_override, discover_override, keep_alive_override,
  merge_connection, merge_points, password_env_override, payload_format_override,
  payload_format_result, points_override, port_override, protocol_override, text_override,
}
use netix_republisher.EnvConfig.Outcomes.{when_ok_lem, when_set_lem}
use netix_republisher.EnvConfig.Laws.{Keeps}
use netix_republisher.Config.{MqttConfig, PayloadFormat, PointConfig}
use netix_republisher.Json.{Json}
use netix_republisher.Text.{is_empty_text, parse_unsigned, to_ascii_lowercase, trim}
use netix_republisher.Auth.Startup.{Environment}

longer :
    (notes : List String) (message : String) → length (notes ++ message ∷ []) ≡ 1 + length notes
longer notes message = ground (arith, length-concat notes message)

length-either :
    (b : Bool) (this other : String) (draft : Draft)
    → length (if b then note this draft else note other draft).1 ≡ 1 + length draft.1
unfolding note
length-either true this other (config, notes) = longer notes this
length-either false this other (config, notes) = longer notes other

module _ (core : Imports) (env : Environment) where
  abbrev pub is_set : String → Bool
  is_set key = is_some (env_value env key)

  -- Where the variable is not set nothing changes, and else there is a note more.
  abbrev pub Told : String → Draft → Draft → Type 0
  Told key draft after =
      ((is_set key ≡ false) × (after ≡ draft))
      ⊎ ((is_set key ≡ true) × (length after.1 ≡ 1 + length draft.1))

  abbrev pub Tells : String → Override → Type 0
  Tells key = Keeps (Told key)

  is_some-env_bool :
      (key : String) (value : Option Bool)
      → env_bool env key ≡ ok value
      → is_some value ≡ is_set key
  unfolding env_bool
  is_some-env_bool key value h = elim (Option-cases (env_value env key)) [
    | inl unset ↦ ground (arith, h, unset)
    | inr (raw, e) ↦ elim (Option-cases (bool_word (to_ascii_lowercase (trim raw)))) [
      | inl bad ↦ ground (arith, h, e, bad)
      | inr (b, good) ↦ ground (arith, h, e, good)
    ]
  ]

  is_some-env_parse :
      (most : ℕ) (key : String) (value : Option ℕ)
      → env_parse core env most key ≡ ok value
      → is_some value ≡ is_set key
  unfolding env_parse
  is_some-env_parse most key value h = elim (Option-cases (env_value env key)) [
    | inl unset ↦ ground (arith, h, unset)
    | inr (raw, e) ↦ elim (Option-cases (parse_unsigned most (trim raw))) [
      | inl bad ↦ ground (arith, h, e, bad)
      | inr (n, good) ↦ ground (arith, h, e, good)
    ]
  ]

  -- A text that is set makes its note.
  when_set-Tells :
      (key : String) (f : String → Draft → Draft)
      → ((v : String) (draft : Draft) → length (f v draft).1 ≡ 1 + length draft.1)
      → (draft after : Draft) → when_set (env_value env key) f draft ≡ ok after
      → Told key draft after
  when_set-Tells key f tells draft after h =
      when_set_lem (Told key) f draft after (env_value env key) (λ e. inl (ground (arith, e), refl))
        (λ v e. inr (ground (arith, e), tells v draft)) h

  when_ok-Tells :
      {A : Type 0} (key : String) (r : Result (Option A) String) (f : A → Draft → Draft)
      → ((value : Option A) → r ≡ ok value → is_some value ≡ is_set key)
      → ((v : A) (draft : Draft) → length (f v draft).1 ≡ 1 + length draft.1)
      → (draft after : Draft) → when_ok r f draft ≡ ok after
      → Told key draft after
  when_ok-Tells key r f same tells draft after h =
      when_ok_lem (Told key) f draft after r (λ e. inl (sym (same none e), refl))
        (λ v e. inr (sym (same (some v) e), tells v draft)) h

  pub text_override-Tells :
      (key message : String) (put : String → MqttConfig → MqttConfig)
      → Tells key (text_override core env key message put)
  unfolding text_override note
  text_override-Tells key message put = when_set-Tells key _ (λ v draft. longer draft.1 _)

  pub bool_override-Tells :
      (key message : String) (put : Bool → MqttConfig → MqttConfig)
      → Tells key (bool_override core env key message put)
  unfolding bool_override note
  bool_override-Tells key message put =
      when_ok-Tells key _ _ (is_some-env_bool key) (λ v draft. longer draft.1 _)

  pub protocol_override-Tells : Tells "REPUBLISHER_PROTOCOL" (protocol_override core env)
  unfolding protocol_override note
  protocol_override-Tells = when_set-Tells _ _ (λ v draft. longer draft.1 _)

  pub port_override-Tells : Tells "REPUBLISHER_MQTT_PORT" (port_override core env)
  unfolding port_override note
  port_override-Tells =
      when_ok-Tells _ _ _ (is_some-env_parse (2 ^ 16 - 1) _) (λ n draft. longer draft.1 _)

  pub keep_alive_override-Tells :
      Tells "REPUBLISHER_MQTT_KEEP_ALIVE_SECS" (keep_alive_override core env)
  unfolding keep_alive_override note
  keep_alive_override-Tells =
      when_ok-Tells _ _ _ (is_some-env_parse (2 ^ 64 - 1) _) (λ n draft. longer draft.1 _)

  pub password_env_override-Tells :
      Tells "REPUBLISHER_MQTT_PASSWORD_ENV" (password_env_override core env)
  unfolding password_env_override
  password_env_override-Tells = when_set-Tells _ _ (λ v draft. length-either _ _ _ (_, draft.1))

  pub autostart_override-Tells : Tells "REPUBLISHER_AUTOSTART" (autostart_override core env)
  unfolding autostart_override note
  autostart_override-Tells = when_ok-Tells _ _ _ (is_some-env_bool _) (λ v draft. longer draft.1 _)

  pub discover_override-Tells : Tells "REPUBLISHER_DISCOVER_ON_START" (discover_override core env)
  unfolding discover_override note
  discover_override-Tells = when_ok-Tells _ _ _ (is_some-env_bool _) (λ v draft. longer draft.1 _)

  length-payload_format_result :
      (word : String) (format : Option PayloadFormat) (draft after : Draft)
      → payload_format_result core env word format draft ≡ ok after
      → length after.1 ≡ 1 + length draft.1
  unfolding payload_format_result note
  length-payload_format_result word none draft after h = ground (arith, h)
  length-payload_format_result word (some format) draft after h =
      ground (arith, h, longer draft.1 "mqtt.payload_format (env)")

  pub payload_format_override-Tells :
      Tells "REPUBLISHER_MQTT_PAYLOAD_FORMAT" (payload_format_override core env)
  unfolding payload_format_override
  payload_format_override-Tells draft after h =
      elim (Option-cases (env_value env "REPUBLISHER_MQTT_PAYLOAD_FORMAT")) [
        | inl unset ↦ inl (ground (arith, unset), ground (arith, h, unset))
        | inr (raw, e) ↦
            let word = to_ascii_lowercase (trim raw) in
            inr (
              ground (arith, e),
              length-payload_format_result word (payload_format_word word) draft after
                  (rw (e, payload_format_override) at h),
            )
      ]

  length-merge_connection :
      (r : Result (List (String × Json)) String) (draft after : Draft)
      → merge_connection core env r draft ≡ ok after
      → length after.1 ≡ 1 + length draft.1
  unfolding merge_connection note
  length-merge_connection (err why) draft after h = ground (arith, h)
  length-merge_connection (ok entries) draft after h =
      elim (Bool-cases (is_empty_text draft.0.protocol)) [
        | inl blank ↦ ground (arith, h, blank)
        | inr chosen ↦ ground (arith, h, chosen, longer draft.1 "connection (env JSON merge)")
      ]

  pub connection_override-Tells : Tells "REPUBLISHER_CONNECTION_JSON" (connection_override core env)
  unfolding connection_override
  connection_override-Tells draft after h =
      elim (Option-cases (env_value env "REPUBLISHER_CONNECTION_JSON")) [
        | inl unset ↦ inl (ground (arith, unset), ground (arith, h, unset))
        | inr (raw, e) ↦ inr (
          ground (arith, e),
          length-merge_connection (core.map_from_str raw) draft after
              (rw (e, connection_override) at h),
        )
      ]

  length-merge_points :
      (r : Result (List PointConfig) String) (draft after : Draft)
      → merge_points core env r draft ≡ ok after
      → length after.1 ≡ 1 + length draft.1
  unfolding merge_points note
  length-merge_points (err why) draft after h = ground (arith, h)
  length-merge_points (ok imported) draft after h =
      let noted : Result Draft String → ℕ = λ r. elim r [ ok d ↦ length d.1 | err why ↦ 0 ] in
      sym (ap noted h) ∙ longer draft.1 _

  pub points_override-Tells : Tells "REPUBLISHER_POINTS_JSON" (points_override core env)
  unfolding points_override
  points_override-Tells draft after h =
      elim (Option-cases (env_value env "REPUBLISHER_POINTS_JSON")) [
        | inl unset ↦ inl (ground (arith, unset), ground (arith, h, unset))
        | inr (raw, e) ↦ inr (
          ground (arith, e),
          length-merge_points (core.points_from_str raw) draft after (rw (e, points_override) at h),
        )
      ]
