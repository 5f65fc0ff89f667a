-- ===== src/Api/Settings/Form.antt =====
-- web/app.js: what the form of the settings sends, and what `apply_settings` makes of it.
use netix_republisher.Prelude.{
  Bool-cases, Option, String, arith, false, if◌then◌else◌, inl, inr, max, nat_eq, none, refl, some,
  string_eq, subst, sym, unwrap_or, ◌==◌, ◌||◌, ◌≡◌, ◌≤◌, ◌⊎◌,
}
use netix_republisher.Config.{AppConfig, MqttConfig}
use netix_republisher.Text.{is_empty_text, trim, trim_end, trim_start}
use netix_republisher.Api.Settings.{
  SettingsReq, apply_mqtt, apply_secret, apply_settings, non_empty,
}
use netix_republisher.Text.Trimming.{trim_idem}

-- A text that may be absent is absent, or has no blanks around it and is not empty.
abbrev IsTidy : Option String → Type 0
IsTidy none = Unit
IsTidy (some v) = (trim v ≡ v) × (is_empty_text v ≡ false)

pub record IsNormal (mqtt : MqttConfig) : Type 0 where
  pub username : IsTidy mqtt.username
  pub ca_cert_path : IsTidy mqtt.ca_cert_path
  pub client_cert_path : IsTidy mqtt.client_cert_path
  pub client_key_path : IsTidy mqtt.client_key_path
  pub keep_alive_secs : 1 ≤ mqtt.keep_alive_secs

-- The themes that the UI offers.
abbrev pub IsTheme : String → Type 0
IsTheme theme = (theme ≡ "auto") ⊎ ((theme ≡ "light") ⊎ (theme ≡ "dark"))

-- web/app.js: what `saveSettings` sends while the form of `renderSettings` shows a configuration.
-- An input that shows no text sends the empty one. The fields of the secrets show none, and send
-- only what was typed into them. A theme that is not offered is shown as the first one. It is meant
-- for numbers that JavaScript holds exactly and texts without line breaks, as inputs hold them.
unfoldable pub form_of : (typed_password typed_passphrase : Option String) → AppConfig → SettingsReq
form_of typed_password typed_passphrase config =
    let mqtt = config.mqtt in
    record {
      mqtt = record {
        host = mqtt.host;
        port = mqtt.port;
        use_tls = mqtt.use_tls;
        client_id = mqtt.client_id;
        topic_prefix = mqtt.topic_prefix;
        health_topic = mqtt.health_topic;
        username = some (unwrap_or mqtt.username "");
        password = typed_password;
        ca_cert_path = some (unwrap_or mqtt.ca_cert_path "");
        client_cert_path = some (unwrap_or mqtt.client_cert_path "");
        client_key_path = some (unwrap_or mqtt.client_key_path "");
        client_key_passphrase = typed_passphrase;
        remember_secrets = mqtt.remember_secrets;
        retain = mqtt.retain;
        keep_alive_secs = max 1 (if mqtt.keep_alive_secs == 0 then 30 else mqtt.keep_alive_secs);
        payload_format = mqtt.payload_format;
        device_topic_prefix = mqtt.device_topic_prefix;
        autostart = mqtt.autostart;
      };
      theme =
          some (if config.theme == "light" || config.theme == "dark" then config.theme else "auto");
      discover_on_start = some config.discover_on_start;
    }

-- What becomes of a secret: it stays where nothing was typed, and the empty text removes it.
abbrev pub typed : (change old : Option String) → Option String
typed none old = old
typed (some String.[]) old = none
typed (some (String.◌∷◌ c s)) old = some (String.◌∷◌ c s)

pub apply_secret-typed : (old change : Option String) → apply_secret old change ≡ typed change old
unfolding apply_secret is_empty_text
apply_secret-typed old none = refl
apply_secret-typed old (some String.[]) = refl
apply_secret-typed old (some (String.◌∷◌ c s)) = refl

pub non_empty-IsTidy : (o : Option String) → IsTidy (non_empty o)
unfolding non_empty
non_empty-IsTidy none = tt
non_empty-IsTidy (some v) = elim (Bool-cases (is_empty_text (trim v))) [
  | inl blank ↦ rw blank tt
  | inr full ↦ rw full (trim_idem v, full)
]

-- A text that may be absent comes back from its input as it was.
non_empty-shown : (o : Option String) → IsTidy o → non_empty (some (unwrap_or o "")) ≡ o
unfolding non_empty trim trim_start trim_end
non_empty-shown none h = refl
non_empty-shown (some v) (trimmed, full) = rw trimmed (rw full refl)

shown_theme :
    (theme : String)
    → IsTheme theme
    → (if theme == "light" || theme == "dark" then theme else "auto") ≡ theme
shown_theme theme (inl e) =
    subst (λ t. (if t == "light" || t == "dark" then t else "auto") ≡ t) (sym e) refl
shown_theme theme (inr (inl e)) =
    subst (λ t. (if t == "light" || t == "dark" then t else "auto") ≡ t) (sym e) refl
shown_theme theme (inr (inr e)) =
    subst (λ t. (if t == "light" || t == "dark" then t else "auto") ≡ t) (sym e) refl

-- The configuration after what the form showed was stored over an older one.
abbrev pub edited :
    (typed_password typed_passphrase : Option String) (shown old : AppConfig) → AppConfig
edited typed_password typed_passphrase shown old = record old {
  mqtt = record shown.mqtt {
    password = typed typed_password old.mqtt.password;
    password_env = old.mqtt.password_env;
    client_key_passphrase = typed typed_passphrase old.mqtt.client_key_passphrase;
  };
  theme = shown.theme;
  discover_on_start = shown.discover_on_start;
}

pub apply_settings-form_of :
    (typed_password typed_passphrase : Option String) (shown old : AppConfig)
    → IsNormal shown.mqtt
    → IsTheme shown.theme
    → apply_settings (form_of typed_password typed_passphrase shown) old
      ≡ edited typed_password typed_passphrase shown old
unfolding apply_settings apply_mqtt form_of
apply_settings-form_of typed_password typed_passphrase shown old n t = ground (
  arith,
  apply_secret-typed old.mqtt.password typed_password,
  apply_secret-typed old.mqtt.client_key_passphrase typed_passphrase,
  non_empty-shown shown.mqtt.username n.username,
  non_empty-shown shown.mqtt.ca_cert_path n.ca_cert_path,
  non_empty-shown shown.mqtt.client_cert_path n.client_cert_path,
  non_empty-shown shown.mqtt.client_key_path n.client_key_path,
  shown_theme shown.theme t,
  n.keep_alive_secs,
)
