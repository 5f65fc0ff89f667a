-- ===== src/Text/Prefix.antt =====
-- `str::strip_prefix` against concatenation.
use text.Mathlib.TextLemmas.{nil-append, cons-append}
use text.Mathlib.TextEquality.{Char-path}
use netix_republisher.Prelude.{
  Bool-cases, String, ap, arith, code, inl, inr, nat_beq_iff, nat_eq, refl, some, string_eq, sym,
  ◌==◌, ◌↔◌, ◌∙◌, ◌≡◌,
}
use netix_republisher.Text.{strip_prefix, ◌<>◌}

strip_prefix-append : (p rest : String) → strip_prefix p (p <> rest) ≡ some rest
unfolding strip_prefix
strip_prefix-append String.[] rest = rw (nil-append rest) refl
strip_prefix-append (String.◌∷◌ d p) rest =
    rw (cons-append d p rest)
      (ground (arith, strip_prefix-append p rest, nat_beq_iff (code d) (code d)))

-- What two texts start with in common does not matter.
pub strip_prefix_cancel : (p q s : String) → strip_prefix (p <> q) (p <> s) ≡ strip_prefix q s
unfolding strip_prefix
strip_prefix_cancel String.[] q s = rw (nil-append q, nil-append s) refl
strip_prefix_cancel (String.◌∷◌ d p) q s =
    rw (cons-append d p q, cons-append d p s)
      (ground (arith, strip_prefix_cancel p q s, nat_beq_iff (code d) (code d)))

append-strip_prefix : (p s rest : String) → strip_prefix p s ≡ some rest → s ≡ p <> rest
unfolding strip_prefix
append-strip_prefix String.[] s rest h =
    let same : s ≡ rest = ground (arith, h) in same ∙ sym (nil-append rest)
append-strip_prefix (String.◌∷◌ d p) String.[] rest h = ground (arith, h)
append-strip_prefix (String.◌∷◌ d p) (String.◌∷◌ c s) rest h =
    elim (Bool-cases (code d == code c)) [
      | inl same ↦
          let tail : strip_prefix p s ≡ some rest = ground (arith, same, h) in
          ap (λ a. String.◌∷◌ a s) (Char-path c d (sym ((nat_beq_iff (code d) (code c)).0 same)))
          ∙ ap (String.◌∷◌ d) (append-strip_prefix p s rest tail)
          ∙ sym (cons-append d p rest)
      | inr other ↦ ground (arith, other, h)
    ]

-- A prefix is stripped exactly from the texts that it stands before.
pub strip_prefix_iff : (p s rest : String) → (strip_prefix p s ≡ some rest) ↔ (s ≡ p <> rest)
strip_prefix_iff p s rest =
    (append-strip_prefix p s rest, λ h. ap (strip_prefix p) h ∙ strip_prefix-append p rest)
