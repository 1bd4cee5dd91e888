-- ===== src/CustomValues/Folding.antt =====
-- core/src/custom-values.ts, foldCustom: what the payload holds after the fold.
use qwbe.Prelude.{
  String, Bool, true, false, not, ◌≡◌, refl, sym, ap, ◌∙◌, ◌&&◌, ◌||◌, inl, inr, Option, none, some,
  List, [], ◌∷◌, ◌==◌, arith, any, contains, eq_iff, leb, Bool-cases, Option-cases,
}
use mathlib.Core.Option.{some-injective}
use qwbe.CustomValues.{
  Value, object, null, boolean, number, text, array, Fields, no_field, field, Library,
  CustomFieldDef, Fault, custom_name, is_unsafe, count_fields, assign, definition_of,
  check_custom_value, accept, Folded, Step, goes_on, stops, after_accept, take_custom, and_then,
  fold_explicit, fold_key, fold_keys, nothing_folded, explicit_part,
}

-- Every field passes the test.
abbrev pub all_fields : (String → Value → Bool) → Fields → Bool
all_fields p no_field = true
all_fields p (field key v fs) = p key v && all_fields p fs

pub assign-all_fields :
    (p : String → Value → Bool) (fs : Fields) (name : String) (v : Value)
    → all_fields p fs ≡ true
    → p name v ≡ true
    → all_fields p (assign fs name v) ≡ true
unfolding assign
assign-all_fields p no_field name v h k = ground (arith, k)
assign-all_fields p (field key w fs) name v h k = elim (Bool-cases (key == name)) [
  | inl same ↦ rw (same, (eq_iff key name).0 same) (ground (arith, h, k))
  | inr other ↦ rw other (ground (arith, h, assign-all_fields p fs name v))
]

abbrev is_none : Option Fault → Bool
is_none none = true
is_none (some fault) = false

pub none-ne-some : {A : Type 0} (a : A) → none ≡ some a → ⊥
none-ne-some a h = cc

pub some-ne-none : {A : Type 0} (a : A) → some a ≡ none → ⊥
some-ne-none a h = cc

module _ (js : Library) (declared : List String) (defs : List CustomFieldDef) where
  -- Some definition of the name accepts the value, and the name is safe.
  abbrev pub is_accepted : String → Value → Bool
  is_accepted name v =
      not (is_unsafe name)
      && any (λ (d : CustomFieldDef). d.name == name && is_none (check_custom_value js d v)) defs

  abbrev pub is_custom_object : Value → Bool
  is_custom_object (object fs) =
      all_fields is_accepted fs && (leb (count_fields fs) 32 && leb (js.json_length fs) 8192)
  is_custom_object v = false

  -- A field of the payload is one that the cube declares, or the custom object.
  abbrev pub is_admitted : String → Value → Bool
  is_admitted key v = contains declared key || (key == custom_name && is_custom_object v)

  definition_of-any :
      (ds : List CustomFieldDef) (name : String) (d : CustomFieldDef) (v : Value)
      → definition_of ds name ≡ some d
      → check_custom_value js d v ≡ none
      → any (λ (d : CustomFieldDef). d.name == name && is_none (check_custom_value js d v)) ds
        ≡ true
  unfolding definition_of
  definition_of-any [] name d v h k = cc
  definition_of-any (x ∷ ds) name d v h k = elim (Option-cases (definition_of ds name)) [
    | inr (e, later) ↦ ground (arith, definition_of-any ds name d v (later ∙ rw later at h) k)
    | inl last ↦ elim (Bool-cases (x.name == name)) [
      | inl here ↦
          let e : x ≡ d = some-injective x d (rw (last, here) at h) in
          let accepted : check_custom_value js x v ≡ none =
            ap (λ c. check_custom_value js c v) e ∙ k in
          ground (arith, here, ap is_none accepted)
      | inr other ↦ absurd (none-ne-some d (rw (last, other) at h))
    ]
  ]

  accept-is_accepted :
      (name : String) (v : Value) → accept js defs name v ≡ none → is_accepted name v ≡ true
  unfolding accept
  accept-is_accepted name v h = elim (Bool-cases (is_unsafe name)) [
    | inl unsafe ↦ absurd (some-ne-none _ (rw unsafe at h))
    | inr safe ↦ elim (Option-cases (definition_of defs name)) [
      | inl missing ↦ absurd (some-ne-none _ (rw (safe, missing) at h))
      | inr (d, found) ↦ rw safe (definition_of-any defs name d v found (rw (safe, found) at h))
    ]
  ]

  -- What the loops keep: a step that goes on keeps what is kept declared, and what is folded
  -- accepted.
  abbrev pub Holds : Folded → Type 0
  Holds f =
      (all_fields (λ key v. contains declared key) f.kept ≡ true)
      × (all_fields is_accepted f.custom ≡ true)

  abbrev pub StepHolds : Step → Type 0
  StepHolds (stops fault) = Unit {0}
  StepHolds (goes_on f) = Holds f

  pub and_then-StepHolds :
      (s : Step) (next : Folded → Step)
      → StepHolds s
      → ((f : Folded) → Holds f → StepHolds (next f))
      → StepHolds (and_then s next)
  and_then-StepHolds (stops fault) next h k = tt
  and_then-StepHolds (goes_on f) next h k = k f h

  after_accept-StepHolds :
      (o : Option Fault) (name : String) (v : Value) (f : Folded)
      → accept js defs name v ≡ o
      → Holds f
      → StepHolds (after_accept o name v f)
  after_accept-StepHolds (some fault) name v f e h = tt
  after_accept-StepHolds none name v f e (h, k) =
      (h, assign-all_fields is_accepted f.custom name v k (accept-is_accepted name v e))

  take_custom-StepHolds :
      (ds : List CustomFieldDef) (name : String) (v : Value) (f : Folded)
      → ds ≡ defs
      → Holds f
      → StepHolds (take_custom js ds name v f)
  take_custom-StepHolds [] name v f e h = h
  take_custom-StepHolds (d ∷ ds) name v f e h =
      after_accept-StepHolds (accept js (d ∷ ds) name v) name v f
        (ap (λ l. accept js l name v) (sym e)) h

  fold_explicit-StepHolds :
      (fs : Fields) (f : Folded) → Holds f → StepHolds (fold_explicit js defs fs f)
  unfolding fold_explicit
  fold_explicit-StepHolds no_field f h = h
  fold_explicit-StepHolds (field name v fs) f h =
      and_then-StepHolds (take_custom js defs name v f) (fold_explicit js defs fs)
        (take_custom-StepHolds defs name v f refl h) (λ g k. fold_explicit-StepHolds fs g k)

  fold_key-StepHolds :
      (key : String) (v : Value) (f : Folded)
      → Holds f
      → StepHolds (fold_key js declared defs key v f)
  unfolding fold_key
  fold_key-StepHolds key v f (h, k) = elim (Bool-cases (contains declared key)) [
    | inl own ↦ rw own (assign-all_fields (λ key v. contains declared key) f.kept key v h own, k)
    | inr other ↦ elim (Bool-cases (key == custom_name)) [
      | inl reserved ↦ rw (other, reserved) (h, k)
      | inr plain ↦ elim (Bool-cases (is_unsafe key)) [
        | inl unsafe ↦ rw (other, plain, unsafe) tt
        | inr safe ↦
            rw (other, plain, safe)
              (take_custom-StepHolds defs key v (record f { moved = true }) refl (h, k))
      ]
    ]
  ]

  pub fold_keys-StepHolds :
      (fs : Fields) (f : Folded) → Holds f → StepHolds (fold_keys js declared defs fs f)
  unfolding fold_keys
  fold_keys-StepHolds no_field f h = h
  fold_keys-StepHolds (field key v fs) f h =
      and_then-StepHolds (fold_key js declared defs key v f) (fold_keys js declared defs fs)
        (fold_key-StepHolds key v f h) (λ g k. fold_keys-StepHolds fs g k)

  pub explicit_part-StepHolds : (o : Option Value) → StepHolds (explicit_part js defs o)
  explicit_part-StepHolds none = (refl, refl)
  explicit_part-StepHolds (some (object fs)) =
      fold_explicit-StepHolds fs nothing_folded (refl, refl)
  explicit_part-StepHolds (some null) = tt
  explicit_part-StepHolds (some (boolean b)) = tt
  explicit_part-StepHolds (some (number s)) = tt
  explicit_part-StepHolds (some (text s)) = tt
  explicit_part-StepHolds (some (array s)) = tt
