-- ===== src/State/Action.antt =====
-- Operations on the world that may fail. What an operation changed before it fails stays changed.
use netix_republisher.Prelude.{Option, Result, String, ap, err, length, none, ok, some, ◌∷◌, ◌≡◌}
use netix_republisher.Text.{◌<>◌}
use netix_republisher.Engine.{error, info}
use netix_republisher.State.{App, World, set_status}

abbrev pub Action : Type 0 → Type 0 → Type 0 → Type 0
Action I E A = World I → Result A E × World I

module _ {I E : Type 0} where
  abbrev pub pure : {A : Type 0} → A → Action I E A
  pure a w = (ok a, w)

  abbrev pub fail : {A : Type 0} → E → Action I E A
  fail e w = (err e, w)

  abbrev pub gets : {A : Type 0} → (World I → A) → Action I E A
  gets f w = (ok (f w), w)

  abbrev pub modify : (World I → World I) → Action I E (Unit {0})
  modify f w = (ok tt, f w)

  -- `opt.ok_or_else(|| e)?`
  abbrev pub or_fail : {A : Type 0} → Option A → E → Action I E A
  or_fail none e w = (err e, w)
  or_fail (some a) e w = (ok a, w)

  infixl 5 ◌>>=◌ ◌>>◌
  abbrev pub ◌>>=◌ : {A B : Type 0} → Action I E A → (A → Action I E B) → Action I E B
  ◌>>=◌ m f w = let (r, w') = m w in elim r [ ok a ↦ f a w' | err e ↦ (err e, w') ]

  abbrev pub ◌>>◌ : {A B : Type 0} → Action I E A → Action I E B → Action I E B
  m >> k = m >>= λ _. k

module _ {I E A B : Type 0} (m : Action I E A) (f : A → Action I E B) {w w' : World I} where
  pub bind-ok : {a : A} → m w ≡ (ok a, w') → (m >>= f) w ≡ f a w'
  bind-ok h = ap (λ r. ((λ (_ : World I). r) >>= f) w) h

  pub bind-err : {e : E} → m w ≡ (err e, w') → (m >>= f) w ≡ (err e, w')
  bind-err h = ap (λ r. ((λ (_ : World I). r) >>= f) w) h

-- `map_err(f)`
abbrev pub map_err : {I E F A : Type 0} → (E → F) → Action I E A → Action I F A
map_err f m w = let (r, w') = m w in elim r [ ok a ↦ (ok a, w') | err e ↦ (err (f e), w') ]

module _ {I : Type 0} (app : App I) where
  unfoldable pub save_outcome : Option String → World I → Result (Unit {0}) String × World I
  save_outcome none w = (ok tt, set_status app.engine info "Configuration saved" w)
  save_outcome (some why) w =
      let message = "Save failed: " <> why in (err message, set_status app.engine error message w)

  -- `validate` refuses, or the file is written.
  unfoldable pub save_config : Action I String (Unit {0})
  unfolding save_outcome
  save_config w = elim (app.engine.validate w.shared.config) [
    | some why ↦
        let message = "Config invalid: " <> why in
        (err message, set_status app.engine error message w)
    | none ↦
        let config = w.shared.config in
        let outcome = app.engine.save_to_path (length w.saves) app.config_path config in
        save_outcome outcome (record w { saves = (config, outcome) ∷ w.saves })
  ]
