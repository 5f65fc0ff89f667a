-- ===== src/EnvConfig.antt =====
-- src/web/envcfg.rs: the environment overrides the saved configuration at every boot. What the
-- override calls of other crates is in `Imports`.
pub mod Overrides
pub mod Laws
pub mod Outcomes
pub mod Legal
pub mod Telling
pub mod Notes
use netix_republisher.Prelude.{
  Bool, List, Option, Result, String, [], err, false, if◌then◌else◌, max, nat_eq, none, ok, some,
  string_eq, true, ℕ, ◌++◌, ◌-◌, ◌==◌, ◌^◌, ◌||◌, ◌∷◌,
}
use netix_republisher.Auth.Startup.{Environment}
use netix_republisher.Config.{
  Addressing, AppConfig, MqttConfig, PayloadFormat, PointConfig, netix_envelope, scalar,
}
use netix_republisher.Engine.{MergedPoints}
use netix_republisher.Json.{Json}
use netix_republisher.Dict.{insert}
use netix_republisher.Text.{decimal, is_empty_text, parse_unsigned, to_ascii_lowercase, trim, ◌<>◌}

-- `parse_error` is the text of a failed `parse` at an unsigned type; `map_from_str` and
-- `points_from_str` are `serde_json::from_str`, whose errors come with their context.
pub record Imports : Type 0 where
  pub parse_error : (most : ℕ) (raw : String) → String
  pub resolve_password_env : MqttConfig → Bool × MqttConfig
  pub map_from_str : String → Result (List (String × Json)) String
  pub points_from_str : String → Result (List PointConfig) String
  pub merge_imported_points : List PointConfig → List PointConfig → MergedPoints
  pub connection_mut : AppConfig → Addressing × (Addressing → AppConfig)

-- `env`: a blank value counts as none.
unfoldable pub env_value : Environment → String → Option String
env_value env key = elim (env key) [
  | none ↦ none
  | some v ↦ if is_empty_text (trim v) then none else some v
]

is_one_of : String → List String → Bool
is_one_of s [] = false
is_one_of s (t ∷ ts) = s == t || is_one_of s ts

unfoldable pub bool_word : String → Option Bool
unfolding is_one_of
bool_word word =
    if is_one_of word ("1" ∷ "true" ∷ "yes" ∷ "on" ∷ [])
    then some true
    else if is_one_of word ("0" ∷ "false" ∷ "no" ∷ "off" ∷ [])
    then some false
    else none

bool_result : (key word : String) → Option Bool → Result (Option Bool) String
bool_result key word (some b) = ok (some b)
bool_result key word none = err (key <> ": expected a boolean, got '" <> word <> "'")

unfoldable pub env_bool : Environment → String → Result (Option Bool) String
unfolding bool_result bool_word
env_bool env key = elim (env_value env key) [
  | none ↦ ok none
  | some raw ↦ let word = to_ascii_lowercase (trim raw) in bool_result key word (bool_word word)
]

parse_result : (key why : String) → Option ℕ → Result (Option ℕ) String
parse_result key why (some n) = ok (some n)
parse_result key why none = err (key <> ": " <> why)

unfoldable pub env_parse : Imports → Environment → (most : ℕ) → String → Result (Option ℕ) String
unfolding parse_result
env_parse core env most key = elim (env_value env key) [
  | none ↦ ok none
  | some raw ↦ parse_result key (core.parse_error most (trim raw)) (parse_unsigned most (trim raw))
]

-- The configuration so far, and the notes made so far.
abbrev pub Draft : Type 0
Draft = AppConfig × List String

-- What one variable does, or the error that ends the boot.
abbrev pub Override : Type 0
Override = Draft → Result Draft String

-- An assignment to fields of the configuration.
abbrev pub assign : (AppConfig → AppConfig) → Draft → Draft
assign f (config, notes) = (f config, notes)

-- The closure `note`.
unfoldable pub note : String → Draft → Draft
note message (config, notes) = (config, notes ++ message ∷ [])

abbrev pub with_mqtt : (MqttConfig → MqttConfig) → AppConfig → AppConfig
with_mqtt f config = record config { mqtt = f config.mqtt }

-- `if let Some(value) = … { … }`
abbrev pub when_set : {A : Type 0} → Option A → (A → Draft → Draft) → Override
when_set none f draft = ok draft
when_set (some a) f draft = ok (f a draft)

-- The same behind a `?`.
abbrev pub when_ok : {A : Type 0} → Result (Option A) String → (A → Draft → Draft) → Override
when_ok (ok value) f draft = when_set value f draft
when_ok (err why) f draft = err why

unfoldable pub payload_format_word : String → Option PayloadFormat
unfolding is_one_of
payload_format_word word =
    if word == "scalar"
    then some scalar
    else if is_one_of word ("netix_envelope" ∷ "envelope" ∷ [])
    then some netix_envelope
    else none

unfoldable pub insert_all : List (String × Json) → Addressing → Addressing
insert_all [] connection = connection
insert_all ((key, value) ∷ rest) connection = insert_all rest (insert key value connection)

bool_text : Bool → String
bool_text b = if b then "true" else "false"
