-- ===== src/Examples/Handlers.antt =====
-- The handlers of src/web/api.rs, at the small instance.
use netix_republisher.Api.Discovery.{poll_once, scan_all}
use netix_republisher.Api.Discovery.Laws.{
  IsAsked, IsRefused, ask, ask-answered, browsing, is_ready, polling, scanning,
}
use netix_republisher.Prelude.{
  Option, String, [], arith, false, get_elem?, inl, inr, is_some, nat_eq, none, ok, refl, some,
  string_eq, true, ℕ, ◌++◌, ◌↔◌, ◌∷◌, ◌≡◌, ◌⊎◌,
}
use netix_republisher.Examples.Toy.{
  toy_app, toy_caps, toy_config, toy_engine, toy_found, toy_mqtt, toy_point, toy_shared, toy_world,
}
use netix_republisher.Engine.{Job, running, stopped}
use netix_republisher.Dict.{lookup}
use netix_republisher.Api.Points.{
  PointReq, add_browsed_point, browsed_point, delete_point, point_of, points_of, save_point,
}
use netix_republisher.Api.Points.Laws.{
  AreDistinct, add_browsed_point-AreDistinct, add_browsed_point_lem, delete_point_lem, find,
}
use netix_republisher.Api.Points.Saving.{IsSavable, save_point-add, save_point-edit}
use netix_republisher.Text.{is_empty_text}
use netix_republisher.Config.{AppConfig}
use netix_republisher.Api.Settings.{put_settings}
use netix_republisher.Api.Settings.Form.{IsNormal, form_of}
use netix_republisher.Api.Settings.Laws.{put_settings-form_of}
use netix_republisher.Api.Control.{is_active, start_republisher, stop_republisher}
use netix_republisher.Api.Control.Laws.{
  start_republisher-err, start_republisher-ok_iff, start_republisher-twice,
}
use netix_republisher.State.{World, set_status}
use netix_republisher.Api.{conflict, ok_json}
use netix_republisher.State.Frame.{SameButTalk}

abbrev request : Option ℕ → PointReq
request index = record {
  index = index;
  enabled = true;
  device_key = "ahu";
  addressing = [];
  tag_path = "valve";
  poll_interval_secs = 10;
}

delete_point_lem_example :
    get_elem? (points_of (delete_point toy_app 0 toy_world).1) 0 ≡ some (toy_point "fan")
delete_point_lem_example = delete_point_lem toy_app 0 0 toy_world

add_browsed_point_lem_example :
    find toy_engine "damper" (points_of (add_browsed_point toy_app 0 toy_world).1)
    ≡ some (browsed_point toy_found)
unfolding browsed_point
add_browsed_point_lem_example = add_browsed_point_lem toy_app 0 toy_found "damper" toy_world refl

add_browsed_point-AreDistinct_example :
    AreDistinct toy_engine (points_of (add_browsed_point toy_app 0 toy_world).1)
unfolding find
add_browsed_point-AreDistinct_example =
    add_browsed_point-AreDistinct toy_app 0 toy_world (refl, (refl, tt))

save_point-add_example :
    let points = points_of toy_world ++ point_of [] (request none) ∷ [] in
    (points_of (save_point toy_app (request none) toy_world).1 ≡ points)
    × (((save_point toy_app (request none) toy_world).0 ≡ ok ok_json)
        ↔ IsSavable toy_app toy_world (record toy_config { points = points }))
unfolding lookup
save_point-add_example = save_point-add toy_app (request none) toy_caps toy_world refl refl

save_point-edit_example :
    get_elem? (points_of (save_point toy_app (request (some 1)) toy_world).1) 1
    ≡ some (point_of [] (request (some 1)))
unfolding lookup
save_point-edit_example =
    save_point-edit toy_app (request (some 1)) toy_caps toy_world refl 1 1 refl

-- The form after its user edited the topic, emptied the user name and typed a password.
abbrev shown : AppConfig
shown = record toy_config {
  mqtt = record toy_mqtt { topic_prefix = "plant"; username = none };
  theme = "light";
}

shown-IsNormal : IsNormal shown.mqtt
shown-IsNormal = record {
  username = tt;
  ca_cert_path = tt;
  client_cert_path = tt;
  client_key_path = tt;
  keep_alive_secs = omega arith;
}

put_settings-form_of_example :
    (put_settings toy_app (form_of (some "new") none shown) toy_world).1.shared.config
    ≡ record toy_config {
      mqtt = record toy_mqtt { topic_prefix = "plant"; username = none; password = some "new" };
      theme = "light";
    }
put_settings-form_of_example =
    put_settings-form_of toy_app (some "new") none shown toy_world shown-IsNormal (inr (inl refl))

start_republisher-ok_iff_example : ((start_republisher toy_app toy_world).0 ≡ ok ok_json) ↔ (
    (is_active stopped ≡ false)
    × (toy_engine.validate toy_config ≡ none)
    × (is_some (toy_app.registry_get "bacnet") ≡ true))
start_republisher-ok_iff_example = start_republisher-ok_iff toy_app toy_world

-- The daemon while a republisher runs.
abbrev busy : World String
busy = record toy_world {
  shared = record toy_shared { lifecycle = running; stop_flag = some 0 };
  flags = false ∷ [];
}

start_republisher-err_example : SameButTalk busy (start_republisher toy_app busy).1
unfolding start_republisher
start_republisher-err_example =
    start_republisher-err toy_app (conflict "republisher is already running") busy refl

start_republisher-twice_example :
    let job = Job.republisher 7 [] toy_mqtt toy_config.points false in
    let once = (start_republisher toy_app toy_world).1 in
    let (reply, twice) = start_republisher toy_app once in
    let stopped = (stop_republisher toy_app twice).1 in
    (reply ≡ ok ok_json)
    × (stopped.jobs ≡ job 1 ∷ job 0 ∷ [])
    × (get_elem? stopped.flags 0 ≡ some false)
    × (get_elem? stopped.flags 1 ≡ some true)
unfolding lookup is_empty_text
start_republisher-twice_example = start_republisher-twice toy_app 7 toy_world refl refl refl

ask-answered_example :
    ((is_ready toy_app (browsing 0) toy_world ≡ true) × IsAsked toy_app (browsing 0) toy_world)
    ⊎ ((is_ready toy_app (browsing 0) toy_world ≡ false) × IsRefused toy_app (browsing 0) toy_world)
ask-answered_example = ask-answered toy_app (browsing 0) toy_world

-- With no device a scan is refused, and a poll is handed out.
asked :
    ((ask toy_app scanning toy_world).1.jobs ≡ [])
    × ((ask toy_app polling toy_world).1.jobs
        ≡ Job.poll_once 7 [] toy_world.shared.config.mqtt toy_world.shared.config.points ∷ [])
unfolding scan_all poll_once lookup set_status
asked = (refl, refl)
