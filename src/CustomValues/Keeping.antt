-- ===== src/CustomValues/Keeping.antt =====
-- core/src/custom-values.ts, foldCustom: the declared fields of a payload are kept as they came.
use qwbe.Prelude.{
  String, Bool, true, false, not, ◌≡◌, refl, sym, ap, ◌∙◌, ◌&&◌, inl, inr, Option, none, some, List,
  [], ◌∷◌, ◌==◌, arith, contains, or_this, is_some, eq_iff, true-ne-false, Bool-cases,
  if◌then◌else◌,
}
use qwbe.CustomValues.{
  Value, object, null, boolean, number, text, array, Fields, no_field, field, Library,
  CustomFieldDef, Fault, custom_name, is_unsafe, get_field, assign, accept, Folded, Step, goes_on,
  stops, after_accept, take_custom, and_then, fold_explicit, fold_key, fold_keys, nothing_folded,
  explicit_part,
}
use qwbe.CustomValues.Moving.{StepAll}
use qwbe.CustomValues.Required.{get_field-assign}

-- No name stands twice, as in any object.
abbrev pub has_no_twins : Fields → Bool
has_no_twins no_field = true
has_no_twins (field key v fs) = not (is_some (get_field fs key)) && has_no_twins fs

-- An assignment leaves the other fields.
pub get_field-assign_other :
    (fs : Fields) (name key : String) (v : Value)
    → (name == key) ≡ false
    → get_field (assign fs name v) key ≡ get_field fs key
unfolding get_field assign
get_field-assign_other no_field name key v h = rw h refl
get_field-assign_other (field k w fs) name key v h = elim (Bool-cases (k == name)) [
  | inl same ↦
      let other : (k == key) ≡ false = ap (λ x. x == key) ((eq_iff k name).0 same) ∙ h in
      rw (same, other) refl
  | inr there ↦ elim (Bool-cases (k == key)) [
    | inl here ↦ rw (there, here) refl
    | inr elsewhere ↦ rw (there, elsewhere) (get_field-assign_other fs name key v h)
  ]
]

is_some-none : (o : Option Value) → is_some o ≡ false → o ≡ none
is_some-none none h = refl
is_some-none (some v) h = cc

module _ (js : Library) (declared : List String) (defs : List CustomFieldDef) where
  pub StepAll-map :
      (P Q : Folded → Type 0) (s : Step)
      → ((g : Folded) → P g → Q g)
      → StepAll js declared defs P s
      → StepAll js declared defs Q s
  StepAll-map P Q (stops fault) f h = tt
  StepAll-map P Q (goes_on g) f h = f g h

  after_accept-kept :
      (o : Option Fault) (key : String) (v : Value) (f : Folded)
      → StepAll js declared defs (λ g. g.kept ≡ f.kept) (after_accept o key v f)
  after_accept-kept (some fault) key v f = tt
  after_accept-kept none key v f = refl

  take_custom-kept :
      (ds : List CustomFieldDef) (key : String) (v : Value) (f : Folded)
      → StepAll js declared defs (λ g. g.kept ≡ f.kept) (take_custom js ds key v f)
  take_custom-kept [] key v f = refl
  take_custom-kept (d ∷ ds) key v f = after_accept-kept (accept js (d ∷ ds) key v) key v f

  -- A step keeps a declared key with its value, and leaves what is kept at any other.
  fold_key-kept :
      (key : String) (v : Value) (f : Folded)
      → StepAll js declared defs
          (λ g. g.kept ≡ (if contains declared key then assign f.kept key v else f.kept))
          (fold_key js declared defs key v f)
  unfolding fold_key
  fold_key-kept key v f = elim (Bool-cases (contains declared key)) [
    | inl own ↦ rw own refl
    | inr other ↦ elim (Bool-cases (key == custom_name)) [
      | inl reserved ↦ rw (other, reserved) refl
      | inr plain ↦ elim (Bool-cases (is_unsafe key)) [
        | inl unsafe ↦ rw (other, plain, unsafe) tt
        | inr safe ↦
            rw (other, plain, safe) (take_custom-kept defs key v (record f { moved = true }))
      ]
    ]
  ]

  -- A loop over fields fills a part of the state with those whose name passes the test.
  module _ (part : Folded → Fields) (p : String → Bool) where
    abbrev pub Stores : String → Value → Fields → Folded → Type 0
    Stores key v before g = part g ≡ (if p key then assign before key v else before)

    -- Behind the loop a key that passes has its value in the fields, or what was there before.
    abbrev pub Gains : Fields → Fields → Folded → Type 0
    Gains fs before g =
        (key : String)
        → get_field (part g) key
          ≡ or_this (if p key then get_field fs key else none) (get_field before key)

    one_more :
        (key : String) (v : Value) (fs before now : Fields) (g : Folded)
        → is_some (get_field fs key) ≡ false
        → now ≡ (if p key then assign before key v else before)
        → Gains fs now g
        → Gains (field key v fs) before g
    unfolding get_field
    one_more key v fs before now g fresh e h name = elim (Bool-cases (key == name)) [
      | inl same ↦
          let this : key ≡ name = (eq_iff key name).0 same in
          elim (Bool-cases (p key)) [
            | inl passes ↦
                let mine : p name ≡ true = sym (ap p this) ∙ passes in
                let none_behind : get_field fs name ≡ none =
                  sym (ap (get_field fs) this) ∙ is_some-none (get_field fs key) fresh in
                let stored : get_field now name ≡ some v =
                  ap (λ k. get_field k name) (e ∙ rw passes refl)
                  ∙ sym (ap (get_field (assign before key v)) this)
                  ∙ get_field-assign before key v in
                rw (same, mine) (h name ∙ rw (mine, none_behind, stored) refl)
            | inr fails ↦
                let strange : p name ≡ false = sym (ap p this) ∙ fails in
                let unchanged : now ≡ before = e ∙ rw fails refl in
                rw strange (h name ∙ rw (strange, unchanged) refl)
          ]
      | inr other ↦
          let unchanged : get_field now name ≡ get_field before name = elim (Bool-cases (p key)) [
            | inl passes ↦
                ap (λ k. get_field k name) (e ∙ rw passes refl)
                ∙ get_field-assign_other before key name v other
            | inr fails ↦ ap (λ k. get_field k name) (e ∙ rw fails refl)
          ] in
          rw other (h name ∙ ap (or_this (if p name then get_field fs name else none)) unchanged)
    ]

    pub and_then-Gains :
        (key : String) (v : Value) (fs before : Fields) (s : Step) (next : Folded → Step)
        → is_some (get_field fs key) ≡ false
        → StepAll js declared defs (Stores key v before) s
        → ((g : Folded) → StepAll js declared defs (Gains fs (part g)) (next g))
        → StepAll js declared defs (Gains (field key v fs) before) (and_then s next)
    and_then-Gains key v fs before (stops fault) next fresh h k = tt
    and_then-Gains key v fs before (goes_on f) next fresh h k =
        StepAll-map (Gains fs (part f)) (Gains (field key v fs) before) (next f)
          (λ g. one_more key v fs before (part f) g fresh h) (k f)

  pub fold_keys-Gains :
      (fs : Fields) (f : Folded)
      → has_no_twins fs ≡ true
      → StepAll js declared defs
          (Gains (λ g. g.kept) (λ key. contains declared key) fs f.kept)
          (fold_keys js declared defs fs f)
  unfolding fold_keys get_field
  fold_keys-Gains no_field f h = λ key. ground arith
  fold_keys-Gains (field key v fs) f h =
      and_then-Gains (λ g. g.kept) (λ key. contains declared key) key v fs f.kept
        (fold_key js declared defs key v f) (fold_keys js declared defs fs) (ground (arith, h))
        (fold_key-kept key v f) (λ g. fold_keys-Gains fs g (ground (arith, h)))

  and_then-kept :
      (s : Step) (next : Folded → Step) (kept : Fields)
      → StepAll js declared defs (λ g. g.kept ≡ kept) s
      → ((g : Folded) → StepAll js declared defs (λ x. x.kept ≡ g.kept) (next g))
      → StepAll js declared defs (λ g. g.kept ≡ kept) (and_then s next)
  and_then-kept (stops fault) next kept h k = tt
  and_then-kept (goes_on f) next kept h k =
      StepAll-map (λ x. x.kept ≡ f.kept) (λ x. x.kept ≡ kept) (next f) (λ g e. e ∙ h) (k f)

  fold_explicit-kept :
      (fs : Fields) (f : Folded)
      → StepAll js declared defs (λ g. g.kept ≡ f.kept) (fold_explicit js defs fs f)
  unfolding fold_explicit
  fold_explicit-kept no_field f = refl
  fold_explicit-kept (field name v fs) f =
      and_then-kept (take_custom js defs name v f) (fold_explicit js defs fs) f.kept
        (take_custom-kept defs name v f) (fold_explicit-kept fs)

  explicit_part-kept :
      (o : Option Value)
      → StepAll js declared defs (λ g. g.kept ≡ no_field) (explicit_part js defs o)
  explicit_part-kept none = refl
  explicit_part-kept (some (object fs)) = fold_explicit-kept fs nothing_folded
  explicit_part-kept (some null) = tt
  explicit_part-kept (some (boolean b)) = tt
  explicit_part-kept (some (number s)) = tt
  explicit_part-kept (some (text s)) = tt
  explicit_part-kept (some (array s)) = tt

  -- Every declared field of the one is in the other, and no more of them.
  abbrev pub Keeps : Fields → Fields → Type 0
  Keeps fs out =
      (key : String) → contains declared key ≡ true → get_field out key ≡ get_field fs key

  pub or_none : (o : Option Value) → or_this o none ≡ o
  or_none none = refl
  or_none (some v) = refl

  after_start :
      (s : Step) (fs : Fields)
      → has_no_twins fs ≡ true
      → StepAll js declared defs (λ g. g.kept ≡ no_field) s
      → StepAll js declared defs (λ g. Keeps fs g.kept) (and_then s (fold_keys js declared defs fs))
  unfolding get_field
  after_start (stops fault) fs h k = tt
  after_start (goes_on f) fs h k =
      StepAll-map (Gains (λ g. g.kept) (λ key. contains declared key) fs f.kept)
        (λ g. Keeps fs g.kept) (fold_keys js declared defs fs f)
        (λ g gains key own.
          gains key
          ∙ ap (λ b. or_this (if b then get_field fs key else none) (get_field f.kept key)) own
          ∙ ap (λ kept. or_this (get_field fs key) (get_field kept key)) k
          ∙ or_none (get_field fs key))
        (fold_keys-Gains fs f h)

  -- What goes through the loops has the declared fields of the payload.
  pub folded-Keeps :
      (fs : Fields)
      → has_no_twins fs ≡ true
      → StepAll js declared defs
          (λ g. Keeps fs g.kept)
          (and_then
            (explicit_part js defs (get_field fs custom_name))
            (fold_keys js declared defs fs))
  folded-Keeps fs h =
      after_start (explicit_part js defs (get_field fs custom_name)) fs h
        (explicit_part-kept (get_field fs custom_name))

  -- The custom object stands beside the declared fields.
  pub Keeps-assign :
      (fs kept : Fields) (v : Value)
      → contains declared custom_name ≡ false
      → Keeps fs kept
      → Keeps fs (assign kept custom_name v)
  Keeps-assign fs kept v free keeps key own = elim (Bool-cases (custom_name == key)) [
    | inl same ↦ absurd (
        true-ne-false
          (sym own ∙ ap (contains declared) (sym ((eq_iff custom_name key).0 same)) ∙ free))
    | inr other ↦ get_field-assign_other kept custom_name key v other ∙ keeps key own
  ]
