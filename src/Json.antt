-- ===== src/Json.antt =====
-- `serde_json::Value` and the `json!` literals of src/web, as documents.
use netix_republisher.Prelude.{Bool, List, Option, String, [], none, pos, some, suc, ℕ, ℤ, ◌∷◌}

-- A number that is no integer is kept by its text.
mutual
  pub data Json : Type 0 where
    null : Json
    bool : Bool → Json
    num : ℤ → Json
    float : String → Json
    str : String → Json
    arr : Items → Json
    obj : Fields → Json

  pub data Items : Type 0 where
    nil : Items
    item : Json → Items → Items

  pub data Fields : Type 0 where
    end : Fields
    field : String → Json → Fields → Fields

unfoldable pub to_items : List Json → Items
to_items [] = nil
to_items (v ∷ vs) = item v (to_items vs)

unfoldable pub to_fields : List (String × Json) → Fields
to_fields [] = end
to_fields ((k, v) ∷ fs) = field k v (to_fields fs)

abbrev pub array : List Json → Json
array vs = arr (to_items vs)

abbrev pub object : List (String × Json) → Json
object fs = obj (to_fields fs)

abbrev pub nat : ℕ → Json
nat n = num (pos n)

-- `Option<T>`: an absent value is written as null.
abbrev pub opt {ℓ} : {A : Type ℓ} → (A → Json) → Option A → Json
opt f none = null
opt f (some a) = f a

-- `skip_serializing_if = "Option::is_none"`: an absent value leaves no field.
abbrev pub opt_field {ℓ} :
    {A : Type ℓ} → String → (A → Json) → Option A → List (String × Json) → List (String × Json)
opt_field k f none fs = fs
opt_field k f (some a) fs = (k, f a) ∷ fs

-- `iter().enumerate()` from an index on.
unfoldable pub enumerate {ℓ} : {A : Type ℓ} → (ℕ → A → Json) → ℕ → List A → List Json
enumerate f i [] = []
enumerate f i (a ∷ xs) = f i a ∷ enumerate f (suc i) xs
