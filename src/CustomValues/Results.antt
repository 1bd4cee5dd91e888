-- ===== src/CustomValues/Results.antt =====
-- core/src/custom-values.ts, foldCustom: what a request that is let through writes, and which one is
-- refused.
use qwbe.Prelude.{
  String, Bool, true, false, not, ◌≡◌, refl, sym, ap, subst, ◌∙◌, ◌&&◌, ◌||◌, inl, inr, Option,
  none, some, List, ◌==◌, arith, true-ne-false, any, all, contains, eq_iff, eq_refl, nat_eq,
  Bool-cases,
}
use qwbe.CustomValues.{
  object, null, boolean, number, text, array, Fields, no_field, field, Library, CustomFieldDef,
  Fault, FoldResult, ok, refused, Mode, create, patch, custom_name, count_fields, get_field, assign,
  check_custom_object, Folded, Step, goes_on, stops, and_then, fold_key, fold_keys, has_value,
  missing_required, capped, returned, unless_missing, finished, nothing_folded, explicit_part,
  fold_fields, fold_custom,
}
use qwbe.CustomValues.Folding.{
  all_fields, assign-all_fields, is_accepted, is_custom_object, is_admitted, Holds, StepHolds,
  explicit_part-StepHolds, fold_keys-StepHolds, and_then-StepHolds,
}
use qwbe.CustomValues.Required.{
  field_of, custom_value, get_field-assign, count_fields-zero, missing_required-none,
  missing_required-some, all-of_nothing,
}
use qwbe.CustomValues.Keeping.{Keeps, Keeps-assign, has_no_twins, folded-Keeps}
use qwbe.CustomValues.Storing.{sent, folded-sent, value_has_no_twins}
use qwbe.CustomValues.Moving.{is_own, StepAll, Moves, fold_keys-Moves, Moves-moved, and_then-moved}

module _ (js : Library) (declared : List String) (defs : List CustomFieldDef) where
  abbrev pub has_required : Mode → Fields → Bool
  has_required create out =
      all (λ (d : CustomFieldDef). not d.required || has_value (custom_value out d.name)) defs
  has_required patch out = true

  abbrev pub demands : Mode → Bool
  demands create = any (λ (d : CustomFieldDef). d.required) defs
  demands patch = false

  -- The loops leave the declared fields, and the values that were sent.
  abbrev Carries : Fields → Folded → Type 0
  Carries fs f =
      Keeps js declared defs fs f.kept
      × ((name : String) → get_field f.custom name ≡ sent js declared defs fs name)

  -- What a payload becomes, and which one is refused.
  abbrev pub FoldEnds : Mode → Fields → FoldResult → Type 0
  FoldEnds mode fs (ok (object out)) =
      (all_fields (is_admitted js declared defs) out ≡ true)
      × (has_required mode out ≡ true)
      × Keeps js declared defs fs out
      × ((name : String) → custom_value out name ≡ sent js declared defs fs name)
  FoldEnds mode fs (ok null) = ⊥
  FoldEnds mode fs (ok (boolean b)) = ⊥
  FoldEnds mode fs (ok (number s)) = ⊥
  FoldEnds mode fs (ok (text s)) = ⊥
  FoldEnds mode fs (ok (array s)) = ⊥
  FoldEnds mode fs (refused fault) =
      (all_fields (is_own js declared defs) fs && not (demands mode)) ≡ false

  own-is_admitted :
      (fs : Fields)
      → all_fields (is_own js declared defs) fs ≡ true
      → all_fields (is_admitted js declared defs) fs ≡ true
  own-is_admitted no_field h = refl
  own-is_admitted (field key v fs) h = ground (arith, h, own-is_admitted fs)

  -- A payload of declared fields alone only fills what is kept.
  fold_keys-own :
      (fs : Fields) (f : Folded)
      → all_fields (is_own js declared defs) fs ≡ true
      → (k : Fields) × (fold_keys js declared defs fs f ≡ goes_on (record f { kept = k }))
  unfolding fold_keys fold_key
  fold_keys-own no_field f h = (f.kept, refl)
  fold_keys-own (field key v fs) f h =
      let own : contains declared key ≡ true = ground (arith, h) in
      rw own (fold_keys-own fs (record f { kept = assign f.kept key v }) (ground (arith, h, own)))

  get_field-own :
      (fs : Fields) (name : String)
      → contains declared name ≡ false
      → all_fields (is_own js declared defs) fs ≡ true
      → get_field fs name ≡ none
  unfolding get_field
  get_field-own no_field name free h = refl
  get_field-own (field key v fs) name free h = elim (Bool-cases (key == name)) [
    | inl same ↦ absurd (
        true-ne-false
          (sym (ground (arith, h)) ∙ (ap (contains declared) ((eq_iff key name).0 same) ∙ free)))
    | inr other ↦ rw other (get_field-own fs name free (ground (arith, h)))
  ]

  -- the custom object within its caps
  check_custom_object-none :
      (fs : Fields)
      → all_fields (is_accepted js declared defs) fs ≡ true
      → check_custom_object js fs ≡ none
      → is_custom_object js declared defs (object fs) ≡ true
  unfolding check_custom_object
  check_custom_object-none fs h k = ground (arith, h, k)

  capped-FoldEnds :
      (mode : Mode) (fs : Fields) (f : Folded)
      → all_fields (is_own js declared defs) fs ≡ false
      → Holds js declared defs f
      → contains declared custom_name ≡ false
      → Carries fs f
      → (o : Option Fault) → check_custom_object js f.custom ≡ o
      → has_required mode (assign f.kept custom_name (object f.custom)) ≡ true
      → FoldEnds mode fs (capped js o f)
  capped-FoldEnds mode fs f strange h free keeps (some fault) e r = ground (arith, strange)
  capped-FoldEnds mode fs f strange (kept, folded) free keeps none e r = (
    assign-all_fields (is_admitted js declared defs) f.kept custom_name (object f.custom)
        (own-is_admitted f.kept kept)
        (ground (arith, eq_refl custom_name, check_custom_object-none f.custom folded e)),
    r,
    Keeps-assign js declared defs fs f.kept (object f.custom) free keeps.0,
    λ name.
        ap (λ o. field_of o name) (get_field-assign f.kept custom_name (object f.custom))
        ∙ keeps.1 name,
  )

  -- The definitions that the mode demands have a value in the custom object.
  abbrev IsFilled : Mode → Fields → Type 0
  IsFilled create custom =
      all (λ (d : CustomFieldDef). not d.required || has_value (get_field custom d.name)) defs
      ≡ true
  IsFilled patch custom = Unit {0}

  IsFilled-assign :
      (mode : Mode) (kept custom : Fields)
      → IsFilled mode custom
      → has_required mode (assign kept custom_name (object custom)) ≡ true
  IsFilled-assign create kept custom h = rw (get_field-assign kept custom_name (object custom)) h
  IsFilled-assign patch kept custom h = refl

  IsFilled-empty :
      (mode : Mode) (out : Fields) → IsFilled mode no_field → has_required mode out ≡ true
  IsFilled-empty create out h = all-of_nothing defs (custom_value out) h
  IsFilled-empty patch out h = refl

  get_field-none :
      (custom : Fields) (name : String) → custom ≡ no_field → get_field custom name ≡ none
  unfolding get_field
  get_field-none custom name h = ap (λ fs. get_field fs name) h

  -- A payload of declared fields alone sends nothing for the custom object.
  own-sent :
      (fs : Fields) (name : String)
      → contains declared custom_name ≡ false
      → all_fields (is_own js declared defs) fs ≡ true
      → custom_value fs name ≡ sent js declared defs fs name
  own-sent fs name free own =
      let nothing : get_field fs custom_name ≡ none = get_field-own fs custom_name free own in
      elim (Bool-cases (contains declared name)) [
        | inl declares ↦ rw (nothing, declares) (ground arith)
        | inr strange ↦ rw (nothing, get_field-own fs name strange own) (ground arith)
      ]

  returned-FoldEnds :
      (mode : Mode) (fs : Fields) (f : Folded)
      → all_fields (is_own js declared defs) fs ≡ false
      → Holds js declared defs f
      → contains declared custom_name ≡ false
      → Carries fs f
      → f.moved ≡ true
      → IsFilled mode f.custom
      → FoldEnds mode fs (returned js fs f)
  returned-FoldEnds mode fs f strange h free keeps moved filled =
      elim (Bool-cases (nat_eq (count_fields f.custom) 0)) [
        | inr some_field ↦ rw some_field (
            capped-FoldEnds mode fs f strange h free keeps (check_custom_object js f.custom) refl
              (IsFilled-assign mode f.kept f.custom filled))
        | inl no_key ↦
            rw (no_key, moved)
              (
                own-is_admitted f.kept h.0,
                IsFilled-empty mode f.kept
                    (subst (IsFilled mode) (count_fields-zero f.custom no_key) filled),
                keeps.0,
                λ name.
                    ap (λ o. field_of o name) (get_field-own f.kept custom_name free h.0)
                    ∙ sym (get_field-none f.custom name (count_fields-zero f.custom no_key))
                    ∙ keeps.1 name,
              )
      ]

  unless_missing-FoldEnds :
      (fs : Fields) (f : Folded)
      → all_fields (is_own js declared defs) fs ≡ false
      → Holds js declared defs f
      → contains declared custom_name ≡ false
      → Carries fs f
      → f.moved ≡ true
      → (o : Option Fault) → missing_required defs f.custom ≡ o
      → FoldEnds create fs (unless_missing js o fs f)
  unless_missing-FoldEnds fs f strange h free keeps moved (some fault) e = ground (arith, strange)
  unless_missing-FoldEnds fs f strange h free keeps moved none e =
      returned-FoldEnds create fs f strange h free keeps moved
        (missing_required-none defs f.custom e)

  both_hold :
      (P Q : Folded → Type 0) (s : Step)
      → StepAll js declared defs P s
      → StepAll js declared defs Q s
      → StepAll js declared defs (λ g. P g × Q g) s
  both_hold P Q (stops fault) h k = tt
  both_hold P Q (goes_on g) h k = (h, k)

  strange-FoldEnds :
      (mode : Mode) (fs : Fields) (s : Step)
      → all_fields (is_own js declared defs) fs ≡ false
      → StepHolds js declared defs s
      → contains declared custom_name ≡ false
      → StepAll js declared defs (Carries fs) s
      → StepAll js declared defs (λ g. g.moved ≡ true) s
      → FoldEnds mode fs (finished js mode defs fs s)
  strange-FoldEnds mode fs (stops fault) strange h free keeps moved = ground (arith, strange)
  strange-FoldEnds create fs (goes_on f) strange h free keeps moved =
      unless_missing-FoldEnds fs f strange h free keeps moved (missing_required defs f.custom) refl
  strange-FoldEnds patch fs (goes_on f) strange h free keeps moved =
      returned-FoldEnds patch fs f strange h free keeps moved tt

  -- A payload of declared fields alone passes unchanged, unless a definition is required.
  own_missing :
      (fs : Fields) (f : Folded) (o : Option Fault)
      → contains declared custom_name ≡ false
      → all_fields (is_own js declared defs) fs ≡ true
      → f.custom ≡ no_field
      → f.moved ≡ false
      → missing_required defs no_field ≡ o
      → FoldEnds create fs (unless_missing js o fs f)
  unfolding count_fields
  own_missing fs f (some fault) free own e moved h =
      ground (arith, missing_required-some defs no_field fault h)
  own_missing fs f none free own e moved h =
      rw (e, moved)
        (
          own-is_admitted fs own,
          all-of_nothing defs (custom_value fs) (missing_required-none defs no_field h),
          λ key declares. refl,
          λ name. own-sent fs name free own,
        )

  own-FoldEnds :
      (mode : Mode) (fs : Fields) (k : Fields)
      → contains declared custom_name ≡ false
      → all_fields (is_own js declared defs) fs ≡ true
      → FoldEnds mode fs (finished js mode defs fs (goes_on (record nothing_folded { kept = k })))
  unfolding count_fields
  own-FoldEnds create fs k free own =
      own_missing fs (record nothing_folded { kept = k }) (missing_required defs no_field) free own
        refl refl refl
  own-FoldEnds patch fs k free own =
      (own-is_admitted fs own, refl, λ key declares. refl, λ name. own-sent fs name free own)

  -- Where the cube declares no field named `custom` and no name stands twice in the payload or in its
  -- custom object: what `foldCustom` lets through holds exactly the declared fields of the payload,
  -- each with its value, and at most a custom object beside them, of 32 fields and 8192 code units of
  -- JSON at most, whose every value is accepted by a definition of its name. Where the cube has
  -- definitions, that object has exactly the values of the undeclared keys and, for other names, of
  -- the custom object that was sent; otherwise it has none. At create it has a value for each
  -- required definition. A payload of declared fields alone is refused only at create, and only if
  -- a definition is required.
  pub fold_custom-FoldEnds :
      (mode : Mode) (fs : Fields)
      → contains declared custom_name ≡ false
      → has_no_twins fs ≡ true
      → value_has_no_twins (get_field fs custom_name) ≡ true
      → FoldEnds mode fs (fold_custom js (object fs) declared defs mode)
  unfolding fold_custom fold_fields
  fold_custom-FoldEnds mode fs free unique alone =
      elim (Bool-cases (all_fields (is_own js declared defs) fs)) [
        | inl own ↦
            let (k, e) = fold_keys-own fs nothing_folded own in
            rw (free, get_field-own fs custom_name free own, e) (own-FoldEnds mode fs k free own)
        | inr strange ↦
            let start = explicit_part js defs (get_field fs custom_name) in
            rw free (
              strange-FoldEnds mode fs (and_then start (fold_keys js declared defs fs)) strange
                (and_then-StepHolds js declared defs start (fold_keys js declared defs fs)
                  (explicit_part-StepHolds js declared defs (get_field fs custom_name))
                  (fold_keys-StepHolds js declared defs fs))
                free
                (both_hold (λ g. Keeps js declared defs fs g.kept)
                  (λ g. (name : String) → get_field g.custom name ≡ sent js declared defs fs name)
                  (and_then start (fold_keys js declared defs fs))
                  (folded-Keeps js declared defs fs unique)
                  (folded-sent js declared defs fs unique alone))
                (and_then-moved js declared defs start (fold_keys js declared defs fs) (λ g.
                  Moves-moved js declared defs g (fold_keys js declared defs fs g) (
                    subst
                      (λ b.
                        StepAll js declared defs (Moves js declared defs b g)
                          (fold_keys js declared defs fs g))
                      strange (fold_keys-Moves js declared defs fs g)))))
      ]
