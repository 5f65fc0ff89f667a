-- ===== src/Text/Decimal.antt =====
-- A number that is printed in decimal is read back.
use netix_republisher.Prelude.{
  Bool-cases, String, ap, arith, code, inl, inr, leb, nat_eq, not, refl, some, string_eq, suc, true,
  zero, ℕ, ◌%◌, ◌*◌, ◌+◌, ◌-◌, ◌/◌, ◌<◌, ◌==◌, ◌∙◌, ◌≡◌, ◌≤◌,
}
use netix_republisher.Text.{at_most, decimal, decimal_from, digit, parse_unsigned, scan_digits}
use netix_republisher.Text.Parts.{Lacks}

code-digit : (d : ℕ) → d < 10 → code (digit d) ≡ b'0' + d
unfolding digit
code-digit zero h = refl
code-digit (suc zero) h = refl
code-digit (suc (suc zero)) h = refl
code-digit (suc (suc (suc zero))) h = refl
code-digit (suc (suc (suc (suc zero)))) h = refl
code-digit (suc (suc (suc (suc (suc zero))))) h = refl
code-digit (suc (suc (suc (suc (suc (suc zero)))))) h = refl
code-digit (suc (suc (suc (suc (suc (suc (suc zero))))))) h = refl
code-digit (suc (suc (suc (suc (suc (suc (suc (suc zero)))))))) h = refl
code-digit (suc (suc (suc (suc (suc (suc (suc (suc (suc zero))))))))) h = refl
code-digit (suc (suc (suc (suc (suc (suc (suc (suc (suc (suc d)))))))))) h = omega arith

scan_digits-digit :
    (d n : ℕ) (out : String)
    → d < 10
    → scan_digits (String.◌∷◌ (digit d) out) n ≡ scan_digits out (n * 10 + d)
unfolding scan_digits
scan_digits-digit d n out small =
    let e = code-digit d small in
    let same : n * 10 + (code (digit d) - b'0') ≡ n * 10 + d = omega (arith, e) in
    ground (arith, e, ap (scan_digits out) same)

scan_digits-decimal_from :
    (fuel n : ℕ) (out : String)
    → n < fuel
    → scan_digits (decimal_from fuel n out) 0 ≡ scan_digits out n
unfolding decimal_from
scan_digits-decimal_from zero n out h = ground (arith, h)
scan_digits-decimal_from (suc fuel) n out h =
    let small : n % 10 < 10 = omega arith in
    let longer = String.◌∷◌ (digit (n % 10)) out in
    elim (Bool-cases (n / 10 == 0)) [
      | inl done ↦
          rw done
            (scan_digits-digit (n % 10) 0 out small ∙ ap (scan_digits out) (ground (arith, done)))
      | inr more ↦ rw more (
          scan_digits-decimal_from fuel (n / 10) longer (ground (arith, more))
          ∙ scan_digits-digit (n % 10) (n / 10) out small
          ∙ ap (scan_digits out) (omega arith))
    ]

-- The first character of a text is a digit.
BeginsDigit : String → Type 0
BeginsDigit String.[] = ⊥
BeginsDigit (String.◌∷◌ c s) = leb b'0' (code c) ≡ true

decimal_from-BeginsDigit :
    (fuel n : ℕ) (out : String) → BeginsDigit out → BeginsDigit (decimal_from fuel n out)
unfolding decimal_from BeginsDigit
decimal_from-BeginsDigit zero n out h = h
decimal_from-BeginsDigit (suc fuel) n out h =
    let first : leb b'0' (code (digit (n % 10))) ≡ true = ground (arith, code-digit (n % 10)) in
    ground
      (arith, first, decimal_from-BeginsDigit fuel (n / 10) (String.◌∷◌ (digit (n % 10)) out) first)

decimal-BeginsDigit : (n : ℕ) → BeginsDigit (decimal n)
unfolding decimal decimal_from BeginsDigit
decimal-BeginsDigit n =
    let first : leb b'0' (code (digit (n % 10))) ≡ true = ground (arith, code-digit (n % 10)) in
    ground
      (arith, first, decimal_from-BeginsDigit n (n / 10) (String.◌∷◌ (digit (n % 10)) "") first)

decimal_from-Lacks :
    (fuel n sep : ℕ) (out : String)
    → b'9' < sep
    → Lacks sep out
    → Lacks sep (decimal_from fuel n out)
unfolding decimal_from
decimal_from-Lacks zero n sep out h l = l
decimal_from-Lacks (suc fuel) n sep out h l =
    let first : not (code (digit (n % 10)) == sep) ≡ true = ground (arith, code-digit (n % 10)) in
    ground (
      arith,
      decimal_from-Lacks fuel (n / 10) sep (String.◌∷◌ (digit (n % 10)) out) h (first, l),
      first,
    )

pub decimal-Lacks : (n sep : ℕ) → b'9' < sep → Lacks sep (decimal n)
unfolding decimal
decimal-Lacks n sep h = decimal_from-Lacks (suc n) n sep "" h tt

parse_unsigned-digits :
    (most : ℕ) (s : String) → BeginsDigit s → parse_unsigned most s ≡ at_most most (scan_digits s 0)
unfolding parse_unsigned BeginsDigit
parse_unsigned-digits most String.[] h = absurd h
parse_unsigned-digits most (String.◌∷◌ c s) h = ground arith

-- A number within the maximum is read back from its decimal digits.
pub parse_unsigned-decimal : (most n : ℕ) → n ≤ most → parse_unsigned most (decimal n) ≡ some n
unfolding decimal scan_digits
parse_unsigned-decimal most n h =
    parse_unsigned-digits most (decimal n) (decimal-BeginsDigit n)
    ∙ ap (at_most most) (scan_digits-decimal_from (suc n) n "" (omega arith))
    ∙ ground (arith, h)
