-- ===== src/Examples/Worker.antt =====
-- Events of the worker, the log and the saves of src/web/state.rs, at the small instance.
use netix_republisher.Prelude.{
  Option, String, [], ap, arith, nat_eq, none, ok, pos, refl, some, string_eq, ◌↔◌, ◌∷◌, ◌≡◌,
}
use netix_republisher.Examples.Toy.{
  toy_app, toy_config, toy_engine, toy_mqtt, toy_point, toy_shared, toy_world,
}
use netix_republisher.Engine.{PointSample, ReadFailure, WorkerEvent, info}
use netix_republisher.Dict.{lookup}
use netix_republisher.Json.{num}
use netix_republisher.State.{push_log}
use netix_republisher.State.Events.{
  apply_event, record_publish, status_of, status_value, statuses_event,
}
use netix_republisher.State.Numbering.{IsNumbered, push_log-IsNumbered}
use netix_republisher.State.Samples.{apply_event-samples}
use netix_republisher.State.Statuses.{statuses-point_publish, statuses-samples}
use netix_republisher.State.Secrets.{snapshot_json-SameButSecrets}
use netix_republisher.State.Frame.{SameButTalk, save_config_lem, save_message}
use netix_republisher.Dto.Points.{identity_key, sample_dto}
use netix_republisher.Config.{AppConfig}
use netix_republisher.State.Action.{save_config}
use netix_republisher.State.Views.{snapshot_json}
use netix_republisher.Text.{is_empty_text, ◌<>◌}

abbrev sample : PointSample
sample = record {
  point = toy_point "temp";
  topic = "site/temp";
  value = record { as_json_value = num (pos 21); display = "21" };
  timestamp_ms = pos 1000;
}

abbrev failure : ReadFailure
failure = record { point = toy_point "fan"; error = "timeout" }

push_log-IsNumbered_example : IsNumbered (push_log toy_engine info "hello" toy_shared).1
push_log-IsNumbered_example =
    push_log-IsNumbered toy_engine info "hello" toy_shared (omega arith)
      (record { enough = omega arith; in_order = tt })

apply_event-samples_example :
    (apply_event toy_app (WorkerEvent.samples (sample ∷ [])) toy_world).shared.recent_samples
    ≡ sample_dto toy_engine sample ∷ []
apply_event-samples_example = apply_event-samples toy_app (sample ∷ []) toy_world

statuses-samples_example :
    lookup "temp"
      (apply_event toy_app (WorkerEvent.samples (sample ∷ [])) toy_world).shared.statuses
    ≡ some (toy_engine.record_sample toy_engine.default_status sample)
unfolding status_of lookup
statuses-samples_example = statuses-samples toy_app "temp" (sample ∷ []) toy_world

statuses-point_publish_example :
    let after = apply_event toy_app (WorkerEvent.point_publish "fan" (some "refused")) toy_world in
    let status = record toy_engine.default_status { last_publish_error = some "refused" } in
    (lookup "fan" after.shared.statuses ≡ some status)
    × (after.events
        ≡ statuses_event ((identity_key toy_engine (toy_point "fan"), status_value status) ∷ [])
          ∷ [])
unfolding status_of record_publish lookup
statuses-point_publish_example =
    statuses-point_publish toy_app (toy_point "fan") (some "refused") "fan" toy_world

-- The same settings with another password.
abbrev other_config : AppConfig
other_config = record toy_config { mqtt = record toy_mqtt { password = some "changed" } }

snapshot_json-SameButSecrets_example :
    snapshot_json toy_app toy_shared
    ≡ snapshot_json toy_app (record toy_shared { config = other_config })
snapshot_json-SameButSecrets_example =
    snapshot_json-SameButSecrets toy_app toy_shared other_config
      (λ a b point h.
        ap (λ (c : AppConfig). c.mqtt.topic_prefix <> "/" <> point.tag_path) h.visible)
      (record { visible = refl; password_set = refl; passphrase_set = refl })

abbrev no_problem : Option String
no_problem = none

save_config_lem_example :
    let w = (save_config toy_app toy_world).1 in
    (((save_config toy_app toy_world).0 ≡ ok tt) ↔ ((no_problem ≡ none) × (no_problem ≡ none)))
    × (w.saves ≡ (toy_config, none) ∷ [])
    × (w.shared.status_line ≡ save_message toy_app (save_config toy_app toy_world).0)
    × SameButTalk (record toy_world { saves = w.saves }) w
unfolding is_empty_text
save_config_lem_example = save_config_lem toy_app toy_world
