-- ===== src/Http/Routes/Laws.antt =====
-- The table of routes against the paths that need no session.
use netix_republisher.Dict.{lookup}
use netix_republisher.Prelude.{
  All, Bool, String, arith, eq_iff, false, nat_eq, none, refl, some, string_eq, subst, sym, true,
  ◌==◌, ◌||◌, ◌≡◌,
}
use netix_republisher.Http.{Method, is_public, is_session_method, is_static}
use netix_republisher.Text.{split_once}
use netix_republisher.Http.Routes.{Endpoint, Methods, routes}

-- What the nine paths outside the API run, and the three methods of the session.
unfoldable pub open_endpoint : Endpoint → Bool
open_endpoint Endpoint.health = true
open_endpoint Endpoint.index = true
open_endpoint Endpoint.app_js = true
open_endpoint Endpoint.style_css = true
open_endpoint Endpoint.favicon = true
open_endpoint Endpoint.favicon_png = true
open_endpoint Endpoint.logo_png = true
open_endpoint Endpoint.logo_dark_png = true
open_endpoint Endpoint.glyph_png = true
open_endpoint Endpoint.session_info = true
open_endpoint Endpoint.login = true
open_endpoint Endpoint.logout = true
open_endpoint _ = false

-- All that the methods of a path may run is open.
abbrev pub AreOpen : Methods → Type 0
AreOpen methods = All (λ (m : Method × Endpoint). open_endpoint m.1 ≡ true) methods

-- The path stands in the table, captures nothing, and its methods are open.
abbrev pub IsOpenRoute : String → Type 0
IsOpenRoute path =
    (methods : Methods) × (split_once b'{' path ≡ none)
    × (lookup path routes ≡ some methods)
    × AreOpen methods

or-elim : {R : Type 0} (x y : Bool) → (x || y) ≡ true → (x ≡ true → R) → (y ≡ true → R) → R
or-elim true y h f g = f refl
or-elim false y h f g = g h

-- To prove something of a path that is public, look at each of the ten.
module _ (Q : String → Type 0) (path : String) where
  hit : (known : String) → Q known → (path == known) ≡ true → Q path
  hit known q e = subst Q (sym ((eq_iff path known).0 e)) q

  is_static-cases :
      Q "/"
      → Q "/app.js"
      → Q "/style.css"
      → Q "/favicon.svg"
      → Q "/favicon.png"
      → Q "/logo.png"
      → Q "/logo-dark.png"
      → Q "/glyph.png"
      → Q "/healthz"
      → is_static path ≡ true
      → Q path
  unfolding is_static
  is_static-cases a b c d e f g h i p =
      or-elim _ _ p
        (λ p.
          or-elim _ _ p
            (λ p.
              or-elim _ _ p
                (λ p.
                  or-elim _ _ p
                    (λ p.
                      or-elim _ _ p
                        (λ p.
                          or-elim _ _ p
                            (λ p.
                              or-elim _ _ p (λ p. or-elim _ _ p (hit "/" a) (hit "/app.js" b))
                                (hit "/style.css" c))
                            (hit "/favicon.svg" d))
                        (hit "/favicon.png" e))
                    (hit "/logo.png" f))
                (hit "/logo-dark.png" g))
            (hit "/glyph.png" h))
        (hit "/healthz" i)

is_public-split :
    {R : Type 0} (path : String) (method : Method)
    → (is_static path ≡ true → R)
    → (path ≡ "/api/session" → is_session_method method ≡ true → R)
    → is_public path method ≡ true
    → R
unfolding is_public
is_public-split path method f g p =
    or-elim (is_static path) _ p f
      (λ s. g ((eq_iff path "/api/session").0 (ground (arith, s))) (ground (arith, s)))

pub is_public-IsOpenRoute :
    (path : String) (method : Method) → is_public path method ≡ true → IsOpenRoute path
unfolding routes open_endpoint lookup split_once
is_public-IsOpenRoute path method =
    is_public-split path method
      (is_static-cases IsOpenRoute path (_, refl, refl, (refl, tt)) (_, refl, refl, (refl, tt))
        (_, refl, refl, (refl, tt)) (_, refl, refl, (refl, tt)) (_, refl, refl, (refl, tt))
        (_, refl, refl, (refl, tt)) (_, refl, refl, (refl, tt)) (_, refl, refl, (refl, tt))
        (_, refl, refl, (refl, tt)))
      (λ e _. subst IsOpenRoute (sym e) (_, refl, refl, (refl, (refl, (refl, tt)))))
