-- ===== src/EnvConfig/Overrides.antt =====
-- src/web/envcfg.rs: one override per variable, and `apply_env_overrides`.
use netix_republisher.Prelude.{
  Bool, List, Option, Result, String, [], err, if◌then◌else◌, max, none, ok, some, ◌-◌, ◌^◌, ◌∷◌,
}
use netix_republisher.EnvConfig.{
  Draft, Imports, Override, assign, bool_text, env_bool, env_parse, env_value, insert_all, note,
  payload_format_word, when_ok, when_set, with_mqtt,
}
use netix_republisher.Config.{AppConfig, MqttConfig, PayloadFormat, PointConfig}
use netix_republisher.Json.{Json}
use netix_republisher.Text.{decimal, is_empty_text, to_ascii_lowercase, trim, ◌<>◌}
use netix_republisher.Auth.Startup.{Environment}

module _ (core : Imports) (env : Environment) where
  -- A variable whose text goes into a field of the broker's settings as it is.
  unfoldable pub text_override :
      (key message : String) → (String → MqttConfig → MqttConfig) → Override
  unfolding note
  text_override key message put =
      when_set (env_value env key) (λ v draft. note message (assign (with_mqtt (put v)) draft))

  unfoldable pub bool_override :
      (key message : String) → (Bool → MqttConfig → MqttConfig) → Override
  unfolding note
  bool_override key message put =
      when_ok (env_bool env key) (λ v draft. note message (assign (with_mqtt (put v)) draft))

  unfoldable pub protocol_override : Override
  unfolding note
  protocol_override = when_set (env_value env "REPUBLISHER_PROTOCOL") (λ v draft.
      let after = assign (λ config. record config { protocol = trim v }) draft in
      note ("protocol = " <> after.0.protocol <> " (env)") after)

  unfoldable pub port_override : Override
  unfolding note
  port_override =
      when_ok (env_parse core env (2 ^ 16 - 1) "REPUBLISHER_MQTT_PORT")
        (λ n draft. note "mqtt.port (env)" (assign (with_mqtt (λ m. record m { port = n })) draft))

  unfoldable pub keep_alive_override : Override
  unfolding note
  keep_alive_override =
      when_ok (env_parse core env (2 ^ 64 - 1) "REPUBLISHER_MQTT_KEEP_ALIVE_SECS") (λ n draft.
        note "mqtt.keep_alive_secs (env)"
          (assign (with_mqtt (λ m. record m { keep_alive_secs = max n 1 })) draft))

  -- The variable names another one that holds the password.
  unfoldable pub password_env_override : Override
  unfolding note
  password_env_override = when_set (env_value env "REPUBLISHER_MQTT_PASSWORD_ENV") (λ var draft.
      let named = assign (with_mqtt (λ m. record m { password_env = some var })) draft in
      let (resolved, mqtt) = core.resolve_password_env named.0.mqtt in
      let after = assign (with_mqtt (λ m. mqtt)) named in
      if resolved
      then note ("mqtt.password (via $" <> var <> ")") after
      else note ("mqtt.password_env = " <> var <> " (env, unresolved)") after)

  unfoldable pub payload_format_result : (word : String) → Option PayloadFormat → Override
  unfolding note
  payload_format_result word (some format) draft = ok (
      note "mqtt.payload_format (env)"
        (assign (with_mqtt (λ m. record m { payload_format = format })) draft))
  payload_format_result word none draft = err (
      "REPUBLISHER_MQTT_PAYLOAD_FORMAT: expected 'scalar' or 'netix_envelope', got '" <> word
      <> "'")

  unfoldable pub payload_format_override : Override
  unfolding payload_format_result payload_format_word
  payload_format_override draft = elim (env_value env "REPUBLISHER_MQTT_PAYLOAD_FORMAT") [
    | none ↦ ok draft
    | some raw ↦
        let word = to_ascii_lowercase (trim raw) in
        payload_format_result word (payload_format_word word) draft
  ]

  unfoldable pub autostart_override : Override
  unfolding bool_text note
  autostart_override = when_ok (env_bool env "REPUBLISHER_AUTOSTART") (λ v draft.
      note ("mqtt.autostart = " <> bool_text v <> " (env)")
        (assign (with_mqtt (λ m. record m { autostart = v })) draft))

  unfoldable pub discover_override : Override
  unfolding bool_text note
  discover_override = when_ok (env_bool env "REPUBLISHER_DISCOVER_ON_START") (λ v draft.
      note ("discover_on_start = " <> bool_text v <> " (env)")
        (assign (λ config. record config { discover_on_start = v }) draft))

  unfoldable pub merge_connection : Result (List (String × Json)) String → Override
  unfolding insert_all note
  merge_connection (err why) draft = err why
  merge_connection (ok entries) draft =
      let (connection, put) = core.connection_mut draft.0 in
      if is_empty_text draft.0.protocol
      then err
          "REPUBLISHER_CONNECTION_JSON requires REPUBLISHER_PROTOCOL (or a configured protocol)"
      else ok (
          note "connection (env JSON merge)"
            (assign (λ config. put (insert_all entries connection)) draft))

  unfoldable pub connection_override : Override
  unfolding merge_connection
  connection_override draft = elim (env_value env "REPUBLISHER_CONNECTION_JSON") [
    | none ↦ ok draft
    | some raw ↦ merge_connection (core.map_from_str raw) draft
  ]

  unfoldable pub merge_points : Result (List PointConfig) String → Override
  unfolding note
  merge_points (err why) draft = err why
  merge_points (ok imported) draft =
      let merged = core.merge_imported_points draft.0.points imported in
      let noted =
        note
          ("points (env JSON merge: "
            <> decimal merged.added
            <> " added, "
            <> decimal merged.updated
            <> " updated)")
          draft in
      ok (assign (λ config. record config { points = merged.points }) noted)

  unfoldable pub points_override : Override
  unfolding merge_points
  points_override draft = elim (env_value env "REPUBLISHER_POINTS_JSON") [
    | none ↦ ok draft
    | some raw ↦ merge_points (core.points_from_str raw) draft
  ]

  -- The overrides in the order of the source.
  unfoldable pub overrides : List Override
  overrides =
      protocol_override
      ∷ text_override "REPUBLISHER_MQTT_HOST" "mqtt.host (env)" (λ v m. record m { host = v })
      ∷ port_override
      ∷ bool_override "REPUBLISHER_MQTT_TLS" "mqtt.use_tls (env)" (λ v m. record m { use_tls = v })
      ∷ text_override "REPUBLISHER_MQTT_CLIENT_ID" "mqtt.client_id (env)"
          (λ v m. record m { client_id = v })
      ∷ text_override "REPUBLISHER_MQTT_TOPIC_PREFIX" "mqtt.topic_prefix (env)"
          (λ v m. record m { topic_prefix = v })
      ∷ text_override "REPUBLISHER_MQTT_HEALTH_TOPIC" "mqtt.health_topic (env)"
          (λ v m. record m { health_topic = v })
      ∷ text_override "REPUBLISHER_MQTT_USERNAME" "mqtt.username (env)"
          (λ v m. record m { username = some v })
      ∷ text_override "REPUBLISHER_MQTT_PASSWORD" "mqtt.password (env)"
          (λ v m. record m { password = some v })
      ∷ password_env_override
      ∷ text_override "REPUBLISHER_MQTT_CA_CERT" "mqtt.ca_cert_path (env)"
          (λ v m. record m { ca_cert_path = some v })
      ∷ text_override "REPUBLISHER_MQTT_CLIENT_CERT" "mqtt.client_cert_path (env)"
          (λ v m. record m { client_cert_path = some v })
      ∷ text_override "REPUBLISHER_MQTT_CLIENT_KEY" "mqtt.client_key_path (env)"
          (λ v m. record m { client_key_path = some v })
      ∷ text_override "REPUBLISHER_MQTT_CLIENT_KEY_PASSPHRASE" "mqtt.client_key_passphrase (env)"
          (λ v m. record m { client_key_passphrase = some v })
      ∷ bool_override "REPUBLISHER_MQTT_RETAIN" "mqtt.retain (env)" (λ v m. record m { retain = v })
      ∷ keep_alive_override
      ∷ payload_format_override
      ∷ text_override "REPUBLISHER_MQTT_DEVICE_TOPIC_PREFIX" "mqtt.device_topic_prefix (env)"
          (λ v m. record m { device_topic_prefix = v })
      ∷ autostart_override
      ∷ discover_override
      ∷ connection_override
      ∷ points_override
      ∷ []

-- The overrides one after the other; an error ends the boot.
unfoldable pub apply_all : List Override → Override
apply_all [] draft = ok draft
apply_all (o ∷ os) draft = elim (o draft) [ err why ↦ err why | ok after ↦ apply_all os after ]

unfoldable pub apply_env_overrides : Imports → Environment → AppConfig → Result Draft String
unfolding overrides apply_all
apply_env_overrides core env config = apply_all (overrides core env) (config, [])
