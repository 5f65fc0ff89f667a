-- ===== src/Dto/Redaction.antt =====
-- src/web/dto.rs: the configuration as the UI sees it.
use netix_republisher.Prelude.{[], is_some, none, ◌∷◌, ◌≡◌}
use netix_republisher.Json.{Json, bool, object}
use netix_republisher.Config.{AppConfig}
use netix_republisher.Engine.{Engine}

abbrev pub without_secrets : AppConfig → AppConfig
without_secrets config = record config {
  mqtt = record config.mqtt { password = none; client_key_passphrase = none };
}

module _ {I : Type 0} (engine : Engine I) where
  unfoldable pub redacted_config : AppConfig → Json
  redacted_config config = object (
      ("config", engine.config_json (without_secrets config))
      ∷ (
        "secrets",
        object (
            ("password_set", bool (is_some config.mqtt.password))
            ∷ ("client_key_passphrase_set", bool (is_some config.mqtt.client_key_passphrase))
            ∷ []),
      )
      ∷ [])

-- The two configurations are the same but for the values of their secrets.
pub record SameButSecrets (a b : AppConfig) : Type 0 where
  pub visible : without_secrets a ≡ without_secrets b
  pub password_set : is_some a.mqtt.password ≡ is_some b.mqtt.password
  pub passphrase_set : is_some a.mqtt.client_key_passphrase ≡ is_some b.mqtt.client_key_passphrase

pub redacted_config-SameButSecrets :
    {I : Type 0} (engine : Engine I) (a b : AppConfig)
    → SameButSecrets a b
    → redacted_config engine a ≡ redacted_config engine b
unfolding redacted_config
redacted_config-SameButSecrets engine a b h = rw (h.visible, h.password_set, h.passphrase_set)
