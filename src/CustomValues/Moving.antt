-- ===== src/CustomValues/Moving.antt =====
-- core/src/custom-values.ts, foldCustom: a payload with a key that is not declared is never passed as it
-- came.
use qwbe.Prelude.{
  String, Bool, true, false, not, ◌≡◌, refl, ◌&&◌, ◌||◌, inl, inr, Option, none, some, List, [],
  ◌∷◌, ◌==◌, arith, contains, Bool-cases,
}
use qwbe.CustomValues.{
  Value, Fields, no_field, field, Library, CustomFieldDef, Fault, custom_name, is_unsafe, accept,
  Folded, Step, goes_on, stops, after_accept, take_custom, and_then, fold_key, fold_keys,
}
use qwbe.CustomValues.Folding.{all_fields}

module _ (js : Library) (declared : List String) (defs : List CustomFieldDef) where
  abbrev pub is_own : String → Value → Bool
  is_own key v = contains declared key

  abbrev pub StepAll : (Folded → Type 0) → Step → Type 0
  StepAll P (stops fault) = Unit {0}
  StepAll P (goes_on g) = P g

  after_accept-moved :
      (o : Option Fault) (key : String) (v : Value) (f : Folded)
      → f.moved ≡ true
      → StepAll (λ g. g.moved ≡ true) (after_accept o key v f)
  after_accept-moved (some fault) key v f h = tt
  after_accept-moved none key v f h = h

  take_custom-moved :
      (ds : List CustomFieldDef) (key : String) (v : Value) (f : Folded)
      → f.moved ≡ true
      → StepAll (λ g. g.moved ≡ true) (take_custom js ds key v f)
  take_custom-moved [] key v f h = h
  take_custom-moved (d ∷ ds) key v f h = after_accept-moved (accept js (d ∷ ds) key v) key v f h

  -- A key that is not declared is moved, and what is moved stays so.
  abbrev pub Moves : Bool → Folded → Folded → Type 0
  Moves own f g = ((not f.moved || g.moved) ≡ true) × ((g.moved || own) ≡ true)

  moved-Moves :
      (own : Bool) (f : Folded) (s : Step)
      → StepAll (λ g. g.moved ≡ true) s
      → StepAll (Moves own f) s
  moved-Moves own f (stops fault) h = tt
  moved-Moves own f (goes_on g) h = ground (arith, h)

  fold_key-Moves :
      (key : String) (v : Value) (f : Folded)
      → StepAll (Moves (contains declared key) f) (fold_key js declared defs key v f)
  unfolding fold_key
  fold_key-Moves key v f = elim (Bool-cases (contains declared key)) [
    | inl own ↦ rw own (ground arith)
    | inr other ↦ elim (Bool-cases (key == custom_name)) [
      | inl reserved ↦ rw (other, reserved) (ground arith)
      | inr plain ↦ elim (Bool-cases (is_unsafe key)) [
        | inl unsafe ↦ rw (other, plain, unsafe) tt
        | inr safe ↦
            rw (other, plain, safe)
              (moved-Moves false f (take_custom js defs key v (record f { moved = true }))
                (take_custom-moved defs key v (record f { moved = true }) refl))
      ]
    ]
  ]

  join-Moves :
      (own : Bool) (rest : Bool) (f g : Folded) (s : Step)
      → Moves own f g
      → StepAll (Moves rest g) s
      → StepAll (Moves (own && rest) f) s
  join-Moves own rest f g (stops fault) h k = tt
  join-Moves own rest f g (goes_on e) h k = ground (arith, h, k)

  and_then-Moves :
      (own rest : Bool) (f : Folded) (s : Step) (next : Folded → Step)
      → StepAll (Moves own f) s
      → ((g : Folded) → StepAll (Moves rest g) (next g))
      → StepAll (Moves (own && rest) f) (and_then s next)
  and_then-Moves own rest f (stops fault) next h k = tt
  and_then-Moves own rest f (goes_on g) next h k = join-Moves own rest f g (next g) h (k g)

  pub fold_keys-Moves :
      (fs : Fields) (f : Folded)
      → StepAll (Moves (all_fields is_own fs) f) (fold_keys js declared defs fs f)
  unfolding fold_keys
  fold_keys-Moves no_field f = ground arith
  fold_keys-Moves (field key v fs) f =
      and_then-Moves (contains declared key) (all_fields is_own fs) f
        (fold_key js declared defs key v f) (fold_keys js declared defs fs) (fold_key-Moves key v f)
        (fold_keys-Moves fs)

  pub Moves-moved :
      (f : Folded) (s : Step) → StepAll (Moves false f) s → StepAll (λ g. g.moved ≡ true) s
  Moves-moved f (stops fault) h = tt
  Moves-moved f (goes_on g) h = ground (arith, h)

  pub and_then-moved :
      (s : Step) (next : Folded → Step)
      → ((g : Folded) → StepAll (λ g. g.moved ≡ true) (next g))
      → StepAll (λ g. g.moved ≡ true) (and_then s next)
  and_then-moved (stops fault) next k = tt
  and_then-moved (goes_on g) next k = k g
