-- ===== src/Api/Settings.antt =====
-- src/web/api.rs: the broker's settings. A secret is write-only.
pub mod Form
pub mod Laws
use netix_republisher.Prelude.{Bool, Option, String, if◌then◌else◌, max, none, some, unwrap_or, ℕ}
use netix_republisher.State.{App, with_config}
use netix_republisher.Config.{AppConfig, MqttConfig, PayloadFormat}
use netix_republisher.Text.{is_empty_text, trim}
use netix_republisher.Api.{Handler, config_event, ok_json, save_or_400}
use netix_republisher.State.Action.{modify, pure, ◌>>=◌, ◌>>◌}

pub record MqttSettingsReq : Type 0 where
  pub host : String
  pub port : ℕ
  pub use_tls : Bool
  pub client_id : String
  pub topic_prefix : String
  pub health_topic : String
  pub username : Option String
  pub password : Option String
  pub ca_cert_path : Option String
  pub client_cert_path : Option String
  pub client_key_path : Option String
  pub client_key_passphrase : Option String
  pub remember_secrets : Bool
  pub retain : Bool
  pub keep_alive_secs : ℕ
  pub payload_format : PayloadFormat
  pub device_topic_prefix : String
  pub autostart : Bool

-- `theme` is `ui.theme`.
pub record SettingsReq : Type 0 where
  pub mqtt : MqttSettingsReq
  pub theme : Option String
  pub discover_on_start : Option Bool

unfoldable pub non_empty : Option String → Option String
non_empty none = none
non_empty (some v) = if is_empty_text (trim v) then none else some (trim v)

-- An absent update keeps the secret, and an empty one clears it.
unfoldable pub apply_secret : Option String → Option String → Option String
apply_secret current none = current
apply_secret current (some value) = if is_empty_text value then none else some value

unfoldable pub apply_mqtt : MqttSettingsReq → MqttConfig → MqttConfig
apply_mqtt req mqtt = record mqtt {
  host = req.host;
  port = req.port;
  use_tls = req.use_tls;
  client_id = req.client_id;
  topic_prefix = req.topic_prefix;
  health_topic = req.health_topic;
  username = non_empty req.username;
  password = apply_secret mqtt.password req.password;
  ca_cert_path = non_empty req.ca_cert_path;
  client_cert_path = non_empty req.client_cert_path;
  client_key_path = non_empty req.client_key_path;
  client_key_passphrase = apply_secret mqtt.client_key_passphrase req.client_key_passphrase;
  remember_secrets = req.remember_secrets;
  retain = req.retain;
  keep_alive_secs = max req.keep_alive_secs 1;
  payload_format = req.payload_format;
  device_topic_prefix = req.device_topic_prefix;
  autostart = req.autostart;
}

unfoldable pub apply_settings : SettingsReq → AppConfig → AppConfig
unfolding apply_mqtt
apply_settings req config = record config {
  mqtt = apply_mqtt req.mqtt config.mqtt;
  discover_on_start = unwrap_or req.discover_on_start config.discover_on_start;
  theme = unwrap_or req.theme config.theme;
}

module _ {I : Type 0} (app : App I) where
  unfoldable pub put_settings : SettingsReq → Handler I
  put_settings req = do
    modify (with_config (apply_settings req))
    save_or_400 app
    modify (config_event app)
    pure ok_json
