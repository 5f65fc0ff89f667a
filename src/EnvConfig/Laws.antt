-- ===== src/EnvConfig/Laws.antt =====
-- What the environment may do to a configuration.
use netix_republisher.Prelude.{
  All, List, Result, String, [], arith, err, inl, inr, ok, refl, subst, ◌∷◌, ◌≡◌, ◌⊎◌,
}
use netix_republisher.EnvConfig.{Draft, Override}
use netix_republisher.EnvConfig.Overrides.{apply_all}
use netix_republisher.Text.{join}

Result-cases :
    (r : Result Draft String)
    → ((why : String) × (r ≡ err why)) ⊎ ((after : Draft) × (r ≡ ok after))
Result-cases (err why) = inl (why, refl)
Result-cases (ok after) = inr (after, refl)

-- The rest of the overrides goes on from where the first one ends.
pub apply_all-ok :
    (o : Override) (os : List Override) (draft last : Draft)
    → apply_all (o ∷ os) draft ≡ ok last
    → (after : Draft) × (o draft ≡ ok after) × (apply_all os after ≡ ok last)
unfolding apply_all
apply_all-ok o os draft last h = elim (Result-cases (o draft)) [
  | inl (why, e) ↦ ground (arith, h, e)
  | inr (after, e) ↦ (after, e, ground (arith, h, e))
]

module _ (R : Draft → Draft → Type 0) where
  -- An override that keeps a relation.
  abbrev pub Keeps : Override → Type 0
  Keeps o = (draft after : Draft) → o draft ≡ ok after → R draft after

  pub Keeps-apply_all :
      ((draft : Draft) → R draft draft)
      → ((a b c : Draft) → R a b → R b c → R a c)
      → (os : List Override) (draft last : Draft) → All Keeps os
      → apply_all os draft ≡ ok last
      → R draft last
  unfolding apply_all
  Keeps-apply_all same join [] draft last k h = subst (R draft) (ground (arith, h)) (same draft)
  Keeps-apply_all same join (o ∷ os) draft last (keeps, k) h =
      let (after, first, rest) = apply_all-ok o os draft last h in
      join draft after last (keeps draft after first)
        (Keeps-apply_all same join os after last k rest)
