-- ===== src/EnvConfig/Notes.antt =====
-- What a boot tells of the environment: every variable that is set has its note.
use netix_republisher.Prelude.{
  List, String, [], ap, arith, if◌then◌else◌, inl, inr, length, ok, set, subst, ℕ, ◌&◌, ◌+◌, ◌<◌,
  ◌∷◌, ◌≡◌, ◌≤◌, ◌⊎◌,
}
use netix_republisher.EnvConfig.{Draft, Imports, Override}
use netix_republisher.EnvConfig.Overrides.{apply_all, apply_env_overrides, overrides}
use netix_republisher.EnvConfig.Laws.{apply_all-ok}
use netix_republisher.Config.{AppConfig}
use netix_republisher.Auth.Startup.{Environment}
use netix_republisher.EnvConfig.Telling.{
  Tells, autostart_override-Tells, bool_override-Tells, connection_override-Tells,
  discover_override-Tells, is_set, keep_alive_override-Tells, password_env_override-Tells,
  payload_format_override-Tells, points_override-Tells, port_override-Tells,
  protocol_override-Tells, text_override-Tells,
}

-- The variables of the overrides, in their order.
abbrev pub variables : List String
variables =
    "REPUBLISHER_PROTOCOL" ∷ "REPUBLISHER_MQTT_HOST" ∷ "REPUBLISHER_MQTT_PORT"
    ∷ "REPUBLISHER_MQTT_TLS" ∷ "REPUBLISHER_MQTT_CLIENT_ID" ∷ "REPUBLISHER_MQTT_TOPIC_PREFIX"
    ∷ "REPUBLISHER_MQTT_HEALTH_TOPIC" ∷ "REPUBLISHER_MQTT_USERNAME" ∷ "REPUBLISHER_MQTT_PASSWORD"
    ∷ "REPUBLISHER_MQTT_PASSWORD_ENV" ∷ "REPUBLISHER_MQTT_CA_CERT" ∷ "REPUBLISHER_MQTT_CLIENT_CERT"
    ∷ "REPUBLISHER_MQTT_CLIENT_KEY" ∷ "REPUBLISHER_MQTT_CLIENT_KEY_PASSPHRASE"
    ∷ "REPUBLISHER_MQTT_RETAIN" ∷ "REPUBLISHER_MQTT_KEEP_ALIVE_SECS"
    ∷ "REPUBLISHER_MQTT_PAYLOAD_FORMAT" ∷ "REPUBLISHER_MQTT_DEVICE_TOPIC_PREFIX"
    ∷ "REPUBLISHER_AUTOSTART" ∷ "REPUBLISHER_DISCOVER_ON_START" ∷ "REPUBLISHER_CONNECTION_JSON"
    ∷ "REPUBLISHER_POINTS_JSON" ∷ []

module _ (core : Imports) (env : Environment) where
  -- How many of the variables are set.
  abbrev pub set_count : List String → ℕ
  set_count [] = 0
  set_count (key ∷ keys) =
      let rest = set_count keys in if is_set core env key then 1 + rest else rest

  AllTell : List String → List Override → Type 0
  AllTell [] [] = Unit
  AllTell [] (o ∷ os) = ⊥
  AllTell (key ∷ keys) [] = ⊥
  AllTell (key ∷ keys) (o ∷ os) = Tells core env key o × AllTell keys os

  overrides-AllTell : AllTell variables (overrides core env)
  unfolding overrides AllTell
  overrides-AllTell =
      protocol_override-Tells core env
      & text_override-Tells core env _ _ _
      & port_override-Tells core env
      & bool_override-Tells core env _ _ _
      & text_override-Tells core env _ _ _
      & text_override-Tells core env _ _ _
      & text_override-Tells core env _ _ _
      & text_override-Tells core env _ _ _
      & text_override-Tells core env _ _ _
      & password_env_override-Tells core env
      & text_override-Tells core env _ _ _
      & text_override-Tells core env _ _ _
      & text_override-Tells core env _ _ _
      & text_override-Tells core env _ _ _
      & bool_override-Tells core env _ _ _
      & keep_alive_override-Tells core env
      & payload_format_override-Tells core env
      & text_override-Tells core env _ _ _
      & autostart_override-Tells core env
      & discover_override-Tells core env
      & connection_override-Tells core env
      & points_override-Tells core env
      & tt

  -- The notes are as many as before and one for every variable that is set.
  apply_all-notes :
      (keys : List String) (os : List Override) (draft last : Draft)
      → AllTell keys os
      → apply_all os draft ≡ ok last
      → (length last.1 ≡ length draft.1 + set_count keys)
        × ((last ≡ draft) ⊎ (length draft.1 < length last.1))
  unfolding apply_all AllTell
  apply_all-notes [] [] draft last tt h = (ground (arith, h), inl (ground (arith, h)))
  apply_all-notes [] (o ∷ os) draft last t h = absurd t
  apply_all-notes (key ∷ keys) [] draft last t h = absurd t
  apply_all-notes (key ∷ keys) (o ∷ os) draft last (tells, t) h =
      let (after, first, rest) = apply_all-ok o os draft last h in
      let (many, more) = apply_all-notes keys os after last t rest in
      elim (tells draft after first) [
        | inl (unset, same) ↦
            subst
              (λ (d : Draft).
                (length last.1 ≡ length d.1 + set_count (key ∷ keys))
                × ((last ≡ d) ⊎ (length d.1 < length last.1)))
              same (ground (arith, unset, many), more)
        | inr (set, added) ↦ (ground (arith, set, many, added), inr (ground (arith, many, added)))
      ]

  fresh-notes :
      (keys : List String) (os : List Override) (config config' : AppConfig) (notes : List String)
      → AllTell keys os
      → apply_all os (config, []) ≡ ok (config', notes)
      → (length notes ≡ set_count keys) × ((config' ≡ config) ⊎ (1 ≤ length notes))
  fresh-notes keys os config config' notes t h =
      let (many, more) = apply_all-notes keys os (config, []) (config', notes) t h in
      (
        omega (arith, many),
        elim more [ inl same ↦ inl (ap (λ (d : Draft). d.0) same) | inr some_more ↦ inr some_more ],
      )

  -- Where the environment is accepted, there is one note for every one of the 22 variables that is
  -- set and not blank, and where none is, the configuration is the one that was loaded.
  pub apply_env_overrides-notes :
      (config config' : AppConfig) (notes : List String)
      → apply_env_overrides core env config ≡ ok (config', notes)
      → (length notes ≡ set_count variables) × ((config' ≡ config) ⊎ (1 ≤ length notes))
  unfolding apply_env_overrides
  apply_env_overrides-notes config config' notes h =
      fresh-notes variables (overrides core env) config config' notes overrides-AllTell h
