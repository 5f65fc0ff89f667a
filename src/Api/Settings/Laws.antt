-- ===== src/Api/Settings/Laws.antt =====
-- `PUT /api/settings`: what it stores, again and again.
use netix_republisher.Prelude.{Option, String, arith, nat_eq, string_eq, ◌∙◌, ◌≡◌}
use netix_republisher.State.{App, World, with_config}
use netix_republisher.Config.{AppConfig, MqttConfig}
use netix_republisher.Api.Settings.{MqttSettingsReq, SettingsReq, apply_settings, put_settings}
use netix_republisher.State.Frame.{save_config-SameButTalk}
use netix_republisher.Api.Settings.Form.{
  IsNormal, IsTheme, apply_settings-form_of, edited, form_of, typed,
}

-- The fields of a stored setting that a request determines as they are.
abbrev pub stored_mqtt : MqttSettingsReq → (old stored : MqttConfig) → MqttConfig
stored_mqtt req old stored = record stored {
  host = req.host;
  port = req.port;
  use_tls = req.use_tls;
  client_id = req.client_id;
  topic_prefix = req.topic_prefix;
  health_topic = req.health_topic;
  password = typed req.password old.password;
  password_env = old.password_env;
  client_key_passphrase = typed req.client_key_passphrase old.client_key_passphrase;
  remember_secrets = req.remember_secrets;
  retain = req.retain;
  payload_format = req.payload_format;
  device_topic_prefix = req.device_topic_prefix;
  autostart = req.autostart;
}

module _ {I : Type 0} (app : App I) where
  pub config-put_settings :
      (req : SettingsReq) (w : World I)
      → (put_settings app req w).1.shared.config ≡ apply_settings req w.shared.config
  unfolding put_settings
  config-put_settings req w =
      let after = with_config (apply_settings req) w in
      ground (arith, (save_config-SameButTalk app after).config)

  -- The user edits the form until it shows some normal configuration with a theme that the UI
  -- offers, types in secrets or not, and saves: whether or not the file is written, the settings
  -- are then those that the form showed, a secret that was not typed is kept, an emptied one is
  -- gone, and the rest of the configuration is as before.
  pub put_settings-form_of :
      (typed_password typed_passphrase : Option String) (shown : AppConfig) (w : World I)
      → IsNormal shown.mqtt
      → IsTheme shown.theme
      → (put_settings app (form_of typed_password typed_passphrase shown) w).1.shared.config
        ≡ edited typed_password typed_passphrase shown w.shared.config
  put_settings-form_of typed_password typed_passphrase shown w n t =
      config-put_settings (form_of typed_password typed_passphrase shown) w
      ∙ apply_settings-form_of typed_password typed_passphrase shown w.shared.config n t
