-- ===== src/EnvConfig/Outcomes.antt =====
-- What the steps of src/web/envcfg.rs yield, by the value of their variable.
use netix_republisher.Prelude.{
  Option, Option-cases, Result, String, ap, arith, err, inl, inr, none, ok, refl, set, some, subst,
  ℕ, ◌≡◌, ◌≤◌,
}
use netix_republisher.EnvConfig.{Draft, Imports, env_parse, env_value, when_ok, when_set}
use netix_republisher.Auth.Startup.{Environment}
use netix_republisher.Text.{at_most, parse_unsigned, trim}

module _ (R : Draft → Draft → Type 0) {A : Type 0} (f : A → Draft → Draft)
    (draft after : Draft) where
  pub when_set_lem :
      (value : Option A)
      → (value ≡ none → R draft draft)
      → ((a : A) → value ≡ some a → R draft (f a draft))
      → when_set value f draft ≡ ok after
      → R draft after
  when_set_lem none unset set h = subst (R draft) (ground (arith, h)) (unset refl)
  when_set_lem (some a) unset set h = subst (R draft) (ground (arith, h)) (set a refl)

  pub when_ok_lem :
      (r : Result (Option A) String)
      → (r ≡ ok none → R draft draft)
      → ((a : A) → r ≡ ok (some a) → R draft (f a draft))
      → when_ok r f draft ≡ ok after
      → R draft after
  when_ok_lem (err why) unset set h = ground (arith, h)
  when_ok_lem (ok value) unset set h =
      when_set_lem value (λ e. unset (ap ok e)) (λ a e. set a (ap ok e)) h

at_most-le : (most n : ℕ) (o : Option ℕ) → at_most most o ≡ some n → n ≤ most
at_most-le most n none h = ground (arith, h)
at_most-le most n (some k) h = ground (arith, h)

parse_unsigned-le : (most n : ℕ) (s : String) → parse_unsigned most s ≡ some n → n ≤ most
unfolding parse_unsigned
parse_unsigned-le most n String.[] h = ground (arith, h)
parse_unsigned-le most n (String.◌∷◌ c s) h = at_most-le most n _ h

pub env_parse-le :
    (core : Imports) (env : Environment) (most : ℕ) (key : String) (n : ℕ)
    → env_parse core env most key ≡ ok (some n)
    → n ≤ most
unfolding env_parse
env_parse-le core env most key n h = elim (Option-cases (env_value env key)) [
  | inl unset ↦ ground (arith, h, unset)
  | inr (raw, e) ↦ elim (Option-cases (parse_unsigned most (trim raw))) [
    | inl bad ↦ ground (arith, h, e, bad)
    | inr (m, good) ↦
        let bound = parse_unsigned-le most m (trim raw) good in ground (arith, h, e, good, bound)
  ]
]
