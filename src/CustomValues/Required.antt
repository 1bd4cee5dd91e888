-- ===== src/CustomValues/Required.antt =====
-- core/src/custom-values.ts: the custom field of a payload, and the definitions that demand one.
use qwbe.Prelude.{
  String, true, not, ◌≡◌, refl, ◌&&◌, ◌||◌, inl, inr, Option, none, some, List, [], ◌∷◌, ◌==◌,
  arith, any, all, eq_refl, nat_eq, Bool-cases,
}
use qwbe.CustomValues.{
  Value, object, null, boolean, number, text, array, Fields, no_field, field, CustomFieldDef, Fault,
  custom_name, count_fields, get_field, assign, has_value, missing_required,
}
use qwbe.CustomValues.Folding.{some-ne-none, none-ne-some}

abbrev pub field_of : Option Value → String → Option Value
field_of none name = none
field_of (some (object fs)) name = get_field fs name
field_of (some null) name = none
field_of (some (boolean b)) name = none
field_of (some (number s)) name = none
field_of (some (text s)) name = none
field_of (some (array s)) name = none

-- The custom field of a payload.
abbrev pub custom_value : Fields → String → Option Value
custom_value fs name = field_of (get_field fs custom_name) name

pub get_field-assign :
    (fs : Fields) (name : String) (v : Value) → get_field (assign fs name v) name ≡ some v
unfolding get_field assign
get_field-assign no_field name v = rw (eq_refl name) refl
get_field-assign (field key w fs) name v = elim (Bool-cases (key == name)) [
  | inl same ↦ rw (same, same) refl
  | inr other ↦ rw (other, other) (get_field-assign fs name v)
]

pub count_fields-zero : (fs : Fields) → nat_eq (count_fields fs) 0 ≡ true → fs ≡ no_field
unfolding count_fields
count_fields-zero no_field h = refl
count_fields-zero (field name v fs) h = absurd (ground (arith, h))

-- No definition is missing exactly if each required one has a value.
pub missing_required-none :
    (ds : List CustomFieldDef) (custom : Fields)
    → missing_required ds custom ≡ none
    → all (λ (d : CustomFieldDef). not d.required || has_value (get_field custom d.name)) ds ≡ true
unfolding missing_required
missing_required-none [] custom h = refl
missing_required-none (d ∷ ds) custom h =
    elim (Bool-cases (d.required && not (has_value (get_field custom d.name)))) [
      | inl missing ↦ absurd (some-ne-none _ (rw missing at h))
      | inr there ↦ ground (arith, there, missing_required-none ds custom (rw there at h))
    ]

pub missing_required-some :
    (ds : List CustomFieldDef) (custom : Fields) (fault : Fault)
    → missing_required ds custom ≡ some fault
    → any (λ (d : CustomFieldDef). d.required) ds ≡ true
unfolding missing_required
missing_required-some [] custom fault h = absurd (none-ne-some fault h)
missing_required-some (d ∷ ds) custom fault h = elim (Bool-cases d.required) [
  | inl needed ↦ ground (arith, needed)
  | inr free ↦ ground (arith, missing_required-some ds custom fault (rw free at h))
]

-- Where no value is there, no definition is required, whatever else is there.
pub all-of_nothing :
    (ds : List CustomFieldDef) (f : String → Option Value)
    → all (λ (d : CustomFieldDef). not d.required || has_value (get_field no_field d.name)) ds
      ≡ true
    → all (λ (d : CustomFieldDef). not d.required || has_value (f d.name)) ds ≡ true
unfolding get_field
all-of_nothing [] f h = refl
all-of_nothing (d ∷ ds) f h = ground (arith, h, all-of_nothing ds f)
