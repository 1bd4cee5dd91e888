-- ===== src/Tests/CustomValues.antt =====
-- The theorem about custom fields at one input: a note with a title and a priority.
use qwbe.Prelude.{true, false, refl, [], ◌∷◌}
use qwbe.CustomValues.{
  number, text, Fields, no_field, field, Library, CustomFieldDef, number_field, create, object,
  fold_custom, get_field,
}
use qwbe.CustomValues.Results.{FoldEnds, fold_custom-FoldEnds}

-- a library that finds every value numeric and short
abbrev library : Library
library = record {
  json_text = λ v. "0";
  json_length = λ fs. 14;
  text_length = λ s. 5;
  is_numeric = λ v. true;
  is_time = λ s. false;
}

abbrev priority : CustomFieldDef
priority = record { name = "priority"; field_type = number_field; required = true; options = [] }

abbrev note : Fields
note = field "title" (text "First") (field "priority" (number "3") no_field)

fold_custom-FoldEnds_example :
    FoldEnds library
      ("title" ∷ [])
      (priority ∷ [])
      create
      note
      (fold_custom library (object note) ("title" ∷ []) (priority ∷ []) create)
unfolding get_field
fold_custom-FoldEnds_example =
    fold_custom-FoldEnds library ("title" ∷ []) (priority ∷ []) create note refl refl refl
