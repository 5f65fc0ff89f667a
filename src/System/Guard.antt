-- ===== src/System/Guard.antt =====
-- The daemon from its start on, against requests without a session.
use netix_republisher.Prelude.{
  Eq, Result, String, [], ap, err, false, is_some, nat_eq, ok, refl, string_eq, subst, sym, true,
  ◌≡◌,
}
use netix_republisher.Auth.{Argon2, Auth, ip_eq, is_loopback}
use netix_republisher.Auth.Startup.{Environment, from_env, from_env-fresh}
use netix_republisher.Boot.{Files, ServerOptions, and_try, boot_config, prepare}
use netix_republisher.Dict.{IsMap}
use netix_republisher.Engine.{Engine}
use netix_republisher.EnvConfig.{Imports}
use netix_republisher.Http.{Request}
use netix_republisher.Http.Anonymous.{IsRouter, serve_request-SameButLogins}
use netix_republisher.Http.Dispatch.{Moment, Server, serve_request}
use netix_republisher.Http.Laws.{SameButLogins}
use netix_republisher.State.{Registry, World}
use netix_republisher.Api.Session.{check_cookie}
use netix_republisher.System.{Reach}
use netix_republisher.System.Tables.{HasMaps}
use netix_republisher.System.Invariant.{IsSound}
use netix_republisher.System.Invariant.Steps.{Reach-IsSound}

and_try-ok :
    {A B : Type 0} (r : Result A String) (f : A → Result B String) (b : B)
    → and_try r f ≡ ok b
    → (a : A) × (r ≡ ok a) × (f a ≡ ok b)
and_try-ok (ok a) f b e = (a, refl, e)
and_try-ok (err why) f b e = cc

fresh-HasMaps :
    (auth : Auth)
    → (auth.required ≡ true) × (auth.sessions ≡ []) × (auth.failures ≡ [])
    → HasMaps true auth
fresh-HasMaps auth (required, sessions, failures) = record {
  requires = required;
  sessions = subst IsMap (sym sessions) tt;
  failures = subst IsMap (sym failures) tt;
}

module _ {I : Type 0} ⦃e : Eq I⦄ (files : Files) (core : Imports) (env : Environment)
    (argon : Argon2) (engine : Engine I) (registry : Registry) (generated : String)
    (options : ServerOptions) (remote : is_loopback options.bind.ip ≡ false)
    (server : Server I) where
  Reach-requires :
      (start w : World I)
      → prepare files core env argon engine registry generated options ≡ ok start
      → Reach server start w
      → IsSound true w
  unfolding prepare
  Reach-requires start w prepared r =
      let path = options.config_path in
      let ((config, status), _, rest) =
        and_try-ok (boot_config files core env path) _ start prepared in
      let (auth, given, same) =
        and_try-ok (from_env argon env options.bind (is_some options.tls) generated) _ start rest in
      let fresh =
        fresh-HasMaps auth (
          from_env-fresh argon env options.bind (is_some options.tls) generated auth remote
            given) in
      let started : Result (World I) String → World I =
        λ o. elim o [ ok v ↦ v | err why ↦ start ] in
      Reach-IsSound engine registry path config auth status server fresh
        (subst (λ v. Reach server v w) (sym (ap started same)) r)

  -- A server that starts on another address than a loopback one, where axum routes as it documents:
  -- in every state that it reaches, a request whose cookie names no live session changes nothing of
  -- the world but the sessions and the failed logins, whatever its path and method.
  pub prepare-SameButLogins :
      {start w : World I} (moment : Moment) (request : Request)
      → IsRouter server.axum
      → prepare files core env argon engine registry generated options ≡ ok start
      → Reach server start w
      → (check_cookie request.cookie moment.now w.auth).0 ≡ false
      → SameButLogins w (serve_request server moment request w).1
  prepare-SameButLogins {start} {w} moment request router prepared r dead =
      serve_request-SameButLogins server moment request w router
        (Reach-requires start w prepared r).tables.requires dead
