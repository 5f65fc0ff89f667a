-- ===== src/System.antt =====
-- The running daemon of src/web: what is done between two releases of its locks is one step, and
-- requests, the worker and the shutdown signal take their steps in any order.
pub mod Serving
pub mod Guard
pub mod Stopping
pub mod Calm
pub mod Events
pub mod Tables
pub mod Invariant
use netix_republisher.Prelude.{Eq, List, Option, String, ℕ}
use netix_republisher.Auth.{IpAddr, throttled}
use netix_republisher.Boot.{shut_down}
use netix_republisher.Engine.{WorkerEvent}
use netix_republisher.Http.{Request}
use netix_republisher.Http.Dispatch.{Moment, Server, run_endpoint}
use netix_republisher.Http.Routes.{Endpoint}
use netix_republisher.State.{World}
use netix_republisher.State.Events.{apply_event}
use netix_republisher.Api.Session.{check_cookie, with_auth, judge}

module _ {I : Type 0} ⦃e : Eq I⦄ (server : Server I) where
  -- `checks` is the session check in front of the routes, `serves` an endpoint behind its
  -- extractors. A login is an endpoint whose two halves are also steps of their own: it asks the
  -- throttle, and judges the password later.
  pub data Step : World I → World I → Type 0 where
    checks :
        (cookie : Option String) (now : ℕ) (w : World I)
        → Step w (with_auth w (check_cookie cookie now w.auth).1)
    serves :
        (moment : Moment) (params : List String) (request : Request) (endpoint : Endpoint)
        (w : World I)
        → Step w (run_endpoint server moment params request endpoint w).1
    asks : (ip : IpAddr) (now : ℕ) (w : World I) → Step w (with_auth w (throttled ip now w.auth).1)
    judges :
        (ip : IpAddr) (password token : String) (now : ℕ) (w : World I)
        → Step w (judge server.argon server.is_header_value ip password token now w).1
    works : (event : WorkerEvent I) (w : World I) → Step w (apply_event server.app event w)
    stops : (w : World I) → Step w (shut_down server.app w)

  -- The states of a daemon that starts in `w`.
  pub data Reach (w : World I) : World I → Type 0 where
    here : Reach w w
    next : {u v : World I} → Reach w u → Step u v → Reach w v
