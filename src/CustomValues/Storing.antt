-- ===== src/CustomValues/Storing.antt =====
-- core/src/custom-values.ts, foldCustom: which values of a payload end in its custom object.
use qwbe.Prelude.{
  String, Bool, true, false, not, ◌≡◌, refl, ap, ◌∙◌, ◌&&◌, inl, inr, Option, none, some, List, [],
  ◌∷◌, ◌==◌, arith, contains, or_this, Bool-cases, if◌then◌else◌,
}
use qwbe.CustomValues.{
  Value, object, null, boolean, number, text, array, Fields, no_field, field, Library,
  CustomFieldDef, Fault, custom_name, is_unsafe, get_field, assign, accept, Folded, Step, goes_on,
  stops, after_accept, take_custom, and_then, fold_explicit, fold_key, fold_keys, nothing_folded,
  explicit_part,
}
use qwbe.CustomValues.Moving.{StepAll}
use qwbe.CustomValues.Required.{custom_value, field_of}
use qwbe.CustomValues.Keeping.{has_no_twins, StepAll-map, Gains, Stores, and_then-Gains, or_none}

abbrev has_any : List CustomFieldDef → Bool
has_any [] = false
has_any (d ∷ ds) = true

-- No name stands twice in the value, if it is an object.
abbrev pub value_has_no_twins : Option Value → Bool
value_has_no_twins none = true
value_has_no_twins (some (object fs)) = has_no_twins fs
value_has_no_twins (some null) = true
value_has_no_twins (some (boolean b)) = true
value_has_no_twins (some (number s)) = true
value_has_no_twins (some (text s)) = true
value_has_no_twins (some (array s)) = true

module _ (js : Library) (declared : List String) (defs : List CustomFieldDef) where
  -- The key is not declared, and the cube has definitions.
  abbrev pub is_moved : String → Bool
  is_moved key = not (contains declared key) && (not (key == custom_name) && has_any defs)

  -- A value of the custom object: that of an undeclared key of the payload, or else that of its own
  -- custom object, where the cube has definitions.
  abbrev pub sent : Fields → String → Option Value
  sent fs name =
      or_this (if is_moved name then get_field fs name else none)
        (if has_any defs then custom_value fs name else none)

  abbrev custom_part : Folded → Fields
  custom_part g = g.custom

  after_accept-Stores :
      (o : Option Fault) (key : String) (v : Value) (f : Folded)
      → StepAll js declared defs (λ g. g.custom ≡ assign f.custom key v) (after_accept o key v f)
  after_accept-Stores (some fault) key v f = tt
  after_accept-Stores none key v f = refl

  take_custom-Stores :
      (ds : List CustomFieldDef) (key : String) (v : Value) (f : Folded)
      → StepAll js declared defs
          (λ g. g.custom ≡ (if has_any ds then assign f.custom key v else f.custom))
          (take_custom js ds key v f)
  take_custom-Stores [] key v f = refl
  take_custom-Stores (d ∷ ds) key v f = after_accept-Stores (accept js (d ∷ ds) key v) key v f

  fold_key-Stores :
      (key : String) (v : Value) (f : Folded)
      → StepAll js declared defs
          (Stores js declared defs custom_part is_moved key v f.custom)
          (fold_key js declared defs key v f)
  unfolding fold_key
  fold_key-Stores key v f = elim (Bool-cases (contains declared key)) [
    | inl own ↦ rw own (rw own refl)
    | inr other ↦ elim (Bool-cases (key == custom_name)) [
      | inl reserved ↦ rw (other, reserved) (rw (other, reserved) refl)
      | inr plain ↦ elim (Bool-cases (is_unsafe key)) [
        | inl unsafe ↦ rw (other, plain, unsafe) tt
        | inr safe ↦
            rw (other, plain, safe)
              (StepAll-map js declared defs
                (λ g. g.custom ≡ (if has_any defs then assign f.custom key v else f.custom))
                (Stores js declared defs custom_part is_moved key v f.custom)
                (take_custom js defs key v (record f { moved = true }))
                (λ g e. e ∙ rw (other, plain) refl)
                (take_custom-Stores defs key v (record f { moved = true })))
      ]
    ]
  ]

  fold_keys-Gains :
      (fs : Fields) (f : Folded)
      → has_no_twins fs ≡ true
      → StepAll js declared defs
          (Gains js declared defs custom_part is_moved fs f.custom)
          (fold_keys js declared defs fs f)
  unfolding fold_keys get_field
  fold_keys-Gains no_field f h = λ key. ground arith
  fold_keys-Gains (field key v fs) f h =
      and_then-Gains js declared defs custom_part is_moved key v fs f.custom
        (fold_key js declared defs key v f) (fold_keys js declared defs fs) (ground (arith, h))
        (fold_key-Stores key v f) (λ g. fold_keys-Gains fs g (ground (arith, h)))

  fold_explicit-Gains :
      (fs : Fields) (f : Folded)
      → has_no_twins fs ≡ true
      → StepAll js declared defs
          (Gains js declared defs custom_part (λ key. has_any defs) fs f.custom)
          (fold_explicit js defs fs f)
  unfolding fold_explicit get_field
  fold_explicit-Gains no_field f h = λ key. ground arith
  fold_explicit-Gains (field key v fs) f h =
      and_then-Gains js declared defs custom_part (λ key. has_any defs) key v fs f.custom
        (take_custom js defs key v f) (fold_explicit js defs fs) (ground (arith, h))
        (take_custom-Stores defs key v f) (λ g. fold_explicit-Gains fs g (ground (arith, h)))

  -- What the first loop leaves.
  abbrev Starts : Option Value → Folded → Type 0
  Starts o g =
      (name : String) → get_field g.custom name ≡ (if has_any defs then field_of o name else none)

  explicit_part-Starts :
      (o : Option Value)
      → value_has_no_twins o ≡ true
      → StepAll js declared defs (Starts o) (explicit_part js defs o)
  unfolding get_field
  explicit_part-Starts none h = λ name. ground arith
  explicit_part-Starts (some (object fs)) h =
      StepAll-map js declared defs
        (Gains js declared defs custom_part (λ key. has_any defs) fs no_field)
        (Starts (some (object fs))) (fold_explicit js defs fs nothing_folded)
        (λ g gains name. gains name ∙ or_none js declared defs _)
        (fold_explicit-Gains fs nothing_folded h)
  explicit_part-Starts (some null) h = tt
  explicit_part-Starts (some (boolean b)) h = tt
  explicit_part-Starts (some (number s)) h = tt
  explicit_part-Starts (some (text s)) h = tt
  explicit_part-Starts (some (array s)) h = tt

  after_start :
      (s : Step) (fs : Fields)
      → has_no_twins fs ≡ true
      → StepAll js declared defs (Starts (get_field fs custom_name)) s
      → StepAll js declared defs
          (λ g. (name : String) → get_field g.custom name ≡ sent fs name)
          (and_then s (fold_keys js declared defs fs))
  after_start (stops fault) fs h k = tt
  after_start (goes_on f) fs h k =
      StepAll-map js declared defs (Gains js declared defs custom_part is_moved fs f.custom)
        (λ g. (name : String) → get_field g.custom name ≡ sent fs name)
        (fold_keys js declared defs fs f)
        (λ g gains name.
          gains name ∙ ap (or_this (if is_moved name then get_field fs name else none)) (k name))
        (fold_keys-Gains fs f h)

  -- What goes through the loops has the values that were sent in its custom object.
  pub folded-sent :
      (fs : Fields)
      → has_no_twins fs ≡ true
      → value_has_no_twins (get_field fs custom_name) ≡ true
      → StepAll js declared defs
          (λ g. (name : String) → get_field g.custom name ≡ sent fs name)
          (and_then
            (explicit_part js defs (get_field fs custom_name))
            (fold_keys js declared defs fs))
  folded-sent fs h k =
      after_start (explicit_part js defs (get_field fs custom_name)) fs h
        (explicit_part-Starts (get_field fs custom_name) k)
