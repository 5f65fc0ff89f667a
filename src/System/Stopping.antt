-- ===== src/System/Stopping.antt =====
-- In every state of a running daemon a stop and the shutdown reach the republisher started last.
use netix_republisher.Prelude.{
  Bool, Eq, List, Option, String, ap, arith, get_elem?, if◌then◌else◌, is_some, is_some-get_elem?,
  length, nat_beq, nat_beq_iff, some, suc, sym, true, zero, ℕ, ◌&&◌, ◌∙◌, ◌∷◌, ◌≡◌,
}
use netix_republisher.Auth.{Auth}
use netix_republisher.Boot.{shut_down, start_world}
use netix_republisher.Boot.Laws.{shut_down_lem}
use netix_republisher.Config.{AppConfig}
use netix_republisher.Engine.{Engine}
use netix_republisher.Http.Dispatch.{Server}
use netix_republisher.State.{App, Registry, World}
use netix_republisher.Api.Control.{stop_republisher}
use netix_republisher.Api.Control.Laws.{holds, stop_republisher_lem}
use netix_republisher.System.{Reach}
use netix_republisher.System.Calm.{stop_flags}
use netix_republisher.System.Tables.{HasMaps}
use netix_republisher.System.Invariant.{IsSound, latest, places}
use netix_republisher.System.Invariant.Steps.{Reach-IsSound}

places-head : (n stop : ℕ) (earlier : List ℕ) → places n ≡ stop ∷ earlier → n ≡ suc stop
unfolding places
places-head zero stop earlier h = ground (arith, h)
places-head (suc n) stop earlier h = ground (arith, h)

module _ {I : Type 0} ⦃e : Eq I⦄ {r : Bool} (app : App I) (w : World I) (s : IsSound r w) (stop : ℕ)
    (earlier : List ℕ) (h : stop_flags w.jobs ≡ stop ∷ earlier) where
  latest-kept : w.shared.stop_flag ≡ some stop
  unfolding latest
  latest-kept = s.keeps_latest ∙ ap latest h

  latest-IsPlace : is_some (get_elem? w.flags stop) ≡ true
  latest-IsPlace =
      is_some-get_elem? w.flags stop
        (omega (arith, places-head (length w.flags) stop earlier (sym s.one_flag_each ∙ h)))

  raised :
      (j : ℕ)
      → (if holds w.shared.stop_flag j && is_some (get_elem? w.flags j)
          then some true
          else get_elem? w.flags j)
        ≡ (if nat_beq j stop then some true else get_elem? w.flags j)
  raised j = ground (arith, latest-kept, latest-IsPlace, nat_beq_iff j stop)

module _ {I : Type 0} ⦃e : Eq I⦄ {r : Bool} (engine : Engine I) (registry : Registry)
    (path : String) (config : AppConfig) (auth : Auth) (status : String) where
  -- In every state that a daemon reaches from a start with one entry for each key in the tables of
  -- sessions and failures, and in which a republisher was handed out, a stop and the shutdown alike
  -- raise the stop flag of the republisher that was handed out last, and change no other flag.
  pub Reach-stop :
      (server : Server I) {w : World I}
      → HasMaps r auth
      → Reach server (start_world engine registry path config auth status) w
      → (stop : ℕ) (earlier : List ℕ) → stop_flags w.jobs ≡ stop ∷ earlier
      → (j : ℕ)
      → let wanted : Option Bool = if nat_beq j stop then some true else get_elem? w.flags j in
        (get_elem? (stop_republisher server.app w).1.flags j ≡ wanted)
        × (get_elem? (shut_down server.app w).flags j ≡ wanted)
  Reach-stop server {w} tables r stop earlier h j =
      let sound = Reach-IsSound engine registry path config auth status server tables r in
      let same = raised server.app w sound stop earlier h j in
      ((stop_republisher_lem server.app w j).1 ∙ same, (shut_down_lem server.app w j).0 ∙ same)
