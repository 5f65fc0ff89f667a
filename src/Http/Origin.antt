-- ===== src/Http/Origin.antt =====
-- Which Origin headers pass for the page of the server's own host.
use Prim.Native.String.{char_at}
use text.Mathlib.TextLemmas.{cons-append, append_assoc as text_append_assoc}
use netix_republisher.Text.Prefix.{strip_prefix_cancel, strip_prefix_iff}
use netix_republisher.Prelude.{
  Char, Option-cases, String, ap, arith, eq_iff, false, inl, inr, none, refl, some, subst, sym, ◌↔◌,
  ◌∙◌, ◌≡◌, ◌⊎◌,
}
use netix_republisher.Http.{Request, is_cross_origin, origin_host}
use netix_republisher.Text.{strip_prefix, ◌<>◌}

abbrev colon : Char
colon = char_at ":" 0

http-IsInsecure : (host : String) → strip_prefix "https://" ("http://" <> host) ≡ none
http-IsInsecure host =
    ap (strip_prefix "https://") (text_append_assoc "http" "://" host)
    ∙ strip_prefix_cancel "http" "s://" ("://" <> host)
    ∙ (unfold strip_prefix in rw (cons-append colon "//" host) refl)

-- How an Origin may name a host: after `https://`, after `http://`, or as it is where it starts
-- like neither.
abbrev pub Names : (origin host : String) → Type 0
Names origin host =
    (origin ≡ "https://" <> host)
    ⊎ (origin ≡ "http://" <> host)
    ⊎ ((strip_prefix "https://" origin ≡ none)
        × (strip_prefix "http://" origin ≡ none)
        × (origin ≡ host))

origin_host-Names : (origin : String) → Names origin (origin_host origin)
unfolding origin_host
origin_host-Names origin = elim (Option-cases (strip_prefix "https://" origin)) [
  | inl insecure ↦ elim (Option-cases (strip_prefix "http://" origin)) [
    | inl bare ↦ rw (insecure, bare) (inr (inr (refl, refl, refl)))
    | inr (rest, e) ↦ rw (insecure, e) (inr (inl ((strip_prefix_iff "http://" origin rest).0 e)))
  ]
  | inr (rest, e) ↦ rw e (inl ((strip_prefix_iff "https://" origin rest).0 e))
]

Names-origin_host : (origin host : String) → Names origin host → origin_host origin ≡ host
unfolding origin_host
Names-origin_host origin host (inl e) = rw ((strip_prefix_iff "https://" origin host).1 e) refl
Names-origin_host origin host (inr (inl e)) =
    rw
      (
        ap (strip_prefix "https://") e ∙ http-IsInsecure host,
        (strip_prefix_iff "http://" origin host).1 e,
      )
      refl
Names-origin_host origin host (inr (inr (a, b, e))) = rw (a, b) e

-- A request with an Origin and a Host is from the same host exactly if the Origin names the Host.
pub is_cross_origin_iff :
    (request : Request) (origin host : String)
    → request.origin ≡ some origin
    → request.host ≡ some host
    → (is_cross_origin request ≡ false) ↔ Names origin host
unfolding is_cross_origin
is_cross_origin_iff request origin host o h =
    let same = eq_iff host (origin_host origin) in
    rw (o, h)
      (
        λ k. subst (Names origin) (sym (same.0 (ground (arith, k)))) (origin_host-Names origin),
        λ k. ground (arith, same.1 (sym (Names-origin_host origin host k))),
      )
