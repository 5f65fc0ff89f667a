-- ===== src/Dict.antt =====
-- `HashMap` and `BTreeMap` as association lists: the entries of a map, each key once at most when
-- it is built by `insert`. Where the source iterates over a map in an order that the map chooses,
-- the order is not relied on.
use netix_republisher.Prelude.{
  Bool, Eq, List, Option, [], and_then, arith, if◌then◌else◌, is_some, nat_eq, none, refl, some,
  string_eq, ◌==◌, ◌∷◌, ◌≡◌,
}

abbrev pub Dict {ℓ κ} : Type ℓ → Type κ → Type (ℓ ⊔ κ)
Dict K V = List (K × V)

module _ {ℓ κ} {K : Type ℓ} {V : Type κ} ⦃e : Eq K⦄ where
  unfoldable pub lookup : K → Dict K V → Option V
  lookup k [] = none
  lookup k ((j, v) ∷ m) = if j == k then some v else lookup k m

  unfoldable pub contains_key : K → Dict K V → Bool
  unfolding lookup
  contains_key k m = is_some (lookup k m)

  unfoldable pub insert : K → V → Dict K V → Dict K V
  insert k v [] = (k, v) ∷ []
  insert k v ((j, w) ∷ m) = if j == k then (j, v) ∷ m else (j, w) ∷ insert k v m

  unfoldable pub remove : K → Dict K V → Dict K V
  remove k [] = []
  remove k ((j, v) ∷ m) = let rest = remove k m in if j == k then rest else (j, v) ∷ rest

  -- `retain` with a closure that may also change the value in place.
  unfoldable pub retain_mut : (V → Option V) → Dict K V → Dict K V
  retain_mut f [] = []
  retain_mut f ((j, v) ∷ m) =
      let rest = retain_mut f m in elim (f v) [ none ↦ rest | some w ↦ (j, w) ∷ rest ]

  pub lookup-insert :
      (key other : K) (value : V) (m : Dict K V)
      → lookup other (insert key value m) ≡ (if key == other then some value else lookup other m)
  unfolding lookup insert
  lookup-insert key other value [] = refl
  lookup-insert key other value ((i, w) ∷ m) = ground (
    arith,
    lookup-insert key other value m,
    e.beq_iff key other,
    e.beq_iff i key,
    e.beq_iff i other,
  )

  pub lookup-remove :
      (k j : K) (m : Dict K V) → lookup j (remove k m) ≡ (if k == j then none else lookup j m)
  unfolding lookup remove
  lookup-remove k j [] = ground arith
  lookup-remove k j ((i, w) ∷ m) =
      ground (arith, e.beq_iff k j, e.beq_iff i k, e.beq_iff i j, lookup-remove k j m)

module _ {ℓ κ} {K : Type ℓ} {V : Type κ} ⦃e : Eq K⦄ where
  -- Each key stands once.
  abbrev pub IsMap : Dict K V → Type κ
  IsMap [] = Unit
  IsMap ((j, v) ∷ m) = (lookup j m ≡ none) × IsMap m

  pub lookup-retain_mut :
      (f : V → Option V) (k : K) (m : Dict K V)
      → IsMap m
      → lookup k (retain_mut f m) ≡ and_then (lookup k m) f
  unfolding lookup retain_mut
  lookup-retain_mut f k [] h = refl
  lookup-retain_mut f k ((j, v) ∷ m) (fresh, h) =
      ground (arith, e.beq_iff j k, lookup-retain_mut f k m h)

  pub insert-IsMap : (k : K) (v : V) (m : Dict K V) → IsMap m → IsMap (insert k v m)
  unfolding insert lookup
  insert-IsMap k v [] h = (refl, tt)
  insert-IsMap k v ((j, w) ∷ m) (fresh, h) =
      ground (arith, e.beq_iff j k, e.beq_iff k j, lookup-insert k j v m, insert-IsMap k v m h)

  pub remove-IsMap : (k : K) (m : Dict K V) → IsMap m → IsMap (remove k m)
  unfolding remove lookup
  remove-IsMap k [] h = tt
  remove-IsMap k ((j, w) ∷ m) (fresh, h) = ground (arith, lookup-remove k j m, remove-IsMap k m h)

  pub retain_mut-IsMap : (f : V → Option V) (m : Dict K V) → IsMap m → IsMap (retain_mut f m)
  unfolding retain_mut lookup
  retain_mut-IsMap f [] h = tt
  retain_mut-IsMap f ((j, v) ∷ m) (fresh, h) =
      ground (arith, lookup-retain_mut f j m h, retain_mut-IsMap f m h)

pub ruleset dict_laws = (lookup-insert, lookup-remove)
