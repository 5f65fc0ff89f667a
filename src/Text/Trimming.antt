-- ===== src/Text/Trimming.antt =====
-- Trimming twice is trimming once.
use netix_republisher.Prelude.{Bool-cases, String, code, false, inl, inr, refl, ◌&&◌, ◌≡◌}
use netix_republisher.Text.{is_empty_text, is_whitespace, trim, trim_end, trim_start}

-- The text does not begin with white space.
abbrev BeginsSolid : String → Type 0
BeginsSolid String.[] = Unit
BeginsSolid (String.◌∷◌ c s) = is_whitespace (code c) ≡ false

trim_start-BeginsSolid : (s : String) → BeginsSolid (trim_start s)
unfolding trim_start
trim_start-BeginsSolid String.[] = tt
trim_start-BeginsSolid (String.◌∷◌ c s) = elim (Bool-cases (is_whitespace (code c))) [
  | inl blank ↦ rw blank (trim_start-BeginsSolid s)
  | inr solid ↦ rw solid solid
]

trim_start_fix : (s : String) → BeginsSolid s → trim_start s ≡ s
unfolding trim_start
trim_start_fix String.[] h = refl
trim_start_fix (String.◌∷◌ c s) h = rw h

trim_end-BeginsSolid : (s : String) → BeginsSolid s → BeginsSolid (trim_end s)
unfolding trim_end
trim_end-BeginsSolid String.[] h = tt
trim_end-BeginsSolid (String.◌∷◌ c s) h = elim (Bool-cases (is_empty_text (trim_end s))) [
  | inl blank ↦ rw blank (rw h h)
  | inr more ↦ rw more h
]

trim_end_idem : (s : String) → trim_end (trim_end s) ≡ trim_end s
unfolding trim_end
trim_end_idem String.[] = refl
trim_end_idem (String.◌∷◌ c s) =
    elim (Bool-cases (is_empty_text (trim_end s) && is_whitespace (code c))) [
      | inl gone ↦ rw gone refl
      | inr kept ↦ rw kept (rw (trim_end_idem s) (rw kept refl))
    ]

pub trim_idem : (s : String) → trim (trim s) ≡ trim s
unfolding trim
trim_idem s =
    rw
      (trim_start_fix (trim_end (trim_start s))
        (trim_end-BeginsSolid (trim_start s) (trim_start-BeginsSolid s)))
      (trim_end_idem (trim_start s))
