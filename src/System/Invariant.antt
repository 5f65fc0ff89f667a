-- ===== src/System/Invariant.antt =====
-- What holds in every state that a running daemon reaches.
pub mod Steps
use netix_republisher.Prelude.{
  Bool, Eq, List, Option, [], ap, length, length-set, nat_eq, none, some, string_eq, subst, suc,
  sym, zero, ℕ, ◌∙◌, ◌∷◌, ◌≡◌, ◌≤◌,
}
use netix_republisher.Dict.{IsMap}
use netix_republisher.Auth.{Auth, ip_eq}
use netix_republisher.Engine.{PointStatus}
use netix_republisher.State.{App, World, log_capacity, push_log, recent_sample_capacity, set_status}
use netix_republisher.Boot.{shut_down}
use netix_republisher.Api.Control.{start_republisher, start_valid, stop_republisher}
use netix_republisher.Api.Session.{with_auth}
use netix_republisher.System.Calm.{Calm, rings, stop_flags}
use netix_republisher.System.Tables.{HasMaps}

-- The places from n - 1 down to 0.
unfoldable pub places : ℕ → List ℕ
places zero = []
places (suc n) = n ∷ places n

unfoldable pub latest : List ℕ → Option ℕ
latest [] = none
latest (n ∷ ns) = some n

-- The rings are within their capacities. The republishers that were handed out have one flag each,
-- in the order of the store, and the state keeps the flag of the last one. The tables have one
-- entry for each key, and a login is required exactly if it was at the start.
pub record IsSound {I : Type 0} ⦃e : Eq I⦄ (r : Bool) (w : World I) : Type 0 where
  pub few_logs : length w.shared.logs ≤ log_capacity
  pub few_samples : length w.shared.recent_samples ≤ recent_sample_capacity
  pub one_flag_each : stop_flags w.jobs ≡ places (length w.flags)
  pub keeps_latest : w.shared.stop_flag ≡ latest (stop_flags w.jobs)
  pub statuses : IsMap w.shared.statuses
  pub tables : HasMaps r w.auth

module _ {I : Type 0} ⦃e : Eq I⦄ {r : Bool} where
  pub Calm-IsSound : (w w' : World I) → Calm w w' → IsSound r w → IsSound r w'
  Calm-IsSound w w' c s = record {
    few_logs = c.few_logs s.few_logs;
    few_samples = c.few_samples s.few_samples;
    one_flag_each =
        c.started ∙ s.one_flag_each ∙ sym (ap (λ (f : List Bool). places (length f)) c.flags);
    keeps_latest = c.stop_flag ∙ s.keeps_latest ∙ sym (ap latest c.started);
    statuses = c.statuses s.statuses;
    tables = subst (HasMaps r) (sym c.auth) s.tables;
  }

  pub with_auth-IsSound :
      (w : World I) (auth : Auth) → IsSound r w → HasMaps r auth → IsSound r (with_auth w auth)
  with_auth-IsSound w auth s h = record {
    few_logs = s.few_logs;
    few_samples = s.few_samples;
    one_flag_each = s.one_flag_each;
    keeps_latest = s.keeps_latest;
    statuses = s.statuses;
    tables = h;
  }

module _ {I : Type 0} ⦃e : Eq I⦄ {r : Bool} (app : App I) (w : World I) (s : IsSound r w) where
  pub start_republisher-IsSound : IsSound r (start_republisher app w).1
  unfolding start_republisher start_valid set_status push_log stop_flags places latest
  start_republisher-IsSound = grind (rings, s)

  pub stop_republisher-IsSound : IsSound r (stop_republisher app w).1
  unfolding stop_republisher set_status push_log
  stop_republisher-IsSound = grind (rings, length-set, s)

  pub shut_down-IsSound : IsSound r (shut_down app w)
  unfolding shut_down set_status push_log
  shut_down-IsSound = grind (rings, length-set, s)
