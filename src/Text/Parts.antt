-- ===== src/Text/Parts.antt =====
-- Splitting and trimming.
use Prim.Native.Char.{Char}
use text.Mathlib.TextLemmas.{nil-append, cons-append}
use netix_republisher.Prelude.{
  Bool, Char, String, [], arith, code, nat_eq, not, refl, some, string_eq, true, ℕ, ◌==◌, ◌∷◌, ◌≡◌,
}
use netix_republisher.Text.{is_whitespace, split, split_once, trim, trim_end, trim_start, ◌<>◌}

-- Every character of a text passes a test on its code.
abbrev pub Every : (ℕ → Bool) → String → Type 0
Every p String.[] = Unit
Every p (String.◌∷◌ c s) = (p (code c) ≡ true) × Every p s

-- The text holds no character of this code.
abbrev pub Lacks : ℕ → String → Type 0
Lacks sep s = Every (λ c. not (c == sep)) s

-- The text holds no white space.
abbrev pub IsSolid : String → Type 0
IsSolid s = Every (λ c. not (is_whitespace c)) s

pub split-Lacks : (sep : ℕ) (s : String) → Lacks sep s → split sep s ≡ s ∷ []
unfolding split
split-Lacks sep String.[] h = refl
split-Lacks sep (String.◌∷◌ c s) (p, h) = ground (arith, split-Lacks sep s h)

-- Splitting takes a text without the separator off the front.
pub split-append :
    (sep : ℕ) (c : Char) (s t : String)
    → Lacks sep s
    → code c ≡ sep
    → split sep (s <> String.◌∷◌ c t) ≡ s ∷ split sep t
unfolding split
split-append sep c String.[] t h e = rw nil-append (ground arith)
split-append sep c (String.◌∷◌ d s) t (p, h) e =
    rw cons-append (ground (arith, split-append sep c s t h e))

pub split_once-append :
    (sep : ℕ) (c : Char) (s t : String)
    → Lacks sep s
    → code c ≡ sep
    → split_once sep (s <> String.◌∷◌ c t) ≡ some (s, t)
unfolding split_once
split_once-append sep c String.[] t h e = rw nil-append (ground arith)
split_once-append sep c (String.◌∷◌ d s) t (p, h) e =
    rw cons-append (ground (arith, split_once-append sep c s t h e))

pub trim_start-IsSolid : (s : String) → IsSolid s → trim_start s ≡ s
unfolding trim_start
trim_start-IsSolid String.[] h = refl
trim_start-IsSolid (String.◌∷◌ c s) (p, h) = ground arith

pub trim_end-IsSolid : (s : String) → IsSolid s → trim_end s ≡ s
unfolding trim_end
trim_end-IsSolid String.[] h = refl
trim_end-IsSolid (String.◌∷◌ c s) (p, h) = ground (arith, trim_end-IsSolid s h)

pub trim-IsSolid : (s : String) → IsSolid s → trim s ≡ s
unfolding trim
trim-IsSolid s h = rw (trim_start-IsSolid s h) (trim_end-IsSolid s h)

Every-append : (p : ℕ → Bool) (s t : String) → Every p s → Every p t → Every p (s <> t)
Every-append p String.[] t h k = rw nil-append k
Every-append p (String.◌∷◌ c s) t (q, h) k = rw cons-append (q, Every-append p s t h k)

pub Lacks-append : (sep : ℕ) (s t : String) → Lacks sep s → Lacks sep t → Lacks sep (s <> t)
Lacks-append sep = Every-append (λ c. not (c == sep))

pub IsSolid-append : (s t : String) → IsSolid s → IsSolid t → IsSolid (s <> t)
IsSolid-append = Every-append (λ c. not (is_whitespace c))
