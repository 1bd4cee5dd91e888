-- ===== src/CustomValues.antt =====
-- core/src/custom-values.ts: what a request may write into the custom fields of a row. How a value is
-- converted and written is the language's library.
pub mod Folding
pub mod Required
pub mod Moving
pub mod Keeping
pub mod Storing
pub mod Results
use Prim.Native.Char.{code}
use Prim.Native.String
use qwbe.Prelude.{
  ℕ, ◌+◌, String, Bool, true, false, not, ◌&&◌, ◌||◌, Option, none, some, or_this, List, [], ◌∷◌,
  ◌==◌, contains, nat_eq, leb, ltb, if◌then◌else◌,
}

-- A JSON value; a number or an array with its JSON text.
mutual
  pub data Value : Type 0 where
    null : Value
    boolean : Bool → Value
    number : String → Value
    text : String → Value
    array : String → Value
    object : Fields → Value

  pub data Fields : Type 0 where
    no_field : Fields
    field : String → Value → Fields → Fields

-- What the language's library says of values: `JSON.stringify(v)`, the length of that of an object,
-- `s.length`, `Number.isFinite(Number(v))` and `!Number.isNaN(Date.parse(s))`.
pub record Library : Type 0 where
  pub json_text : Value → String
  pub json_length : Fields → ℕ
  pub text_length : String → ℕ
  pub is_numeric : Value → Bool
  pub is_time : String → Bool

pub data FieldType : Type 0 where
  text_field number_field date_field bool_field select_field : FieldType

-- `CustomFieldDef`
pub record CustomFieldDef : Type 0 where
  pub name : String
  pub field_type : FieldType
  pub required : Bool
  pub options : List String

pub data Fault : Type 0 where
  too_many too_large not_an_object : Fault
  is_required bad_value not_allowed not_defined : String → Fault

-- `FoldResult`
pub data FoldResult : Type 0 where
  ok : Value → FoldResult
  refused : Fault → FoldResult

pub data Mode : Type 0 where
  create patch : Mode

-- `CUSTOM`, `MAX_CUSTOM_KEYS`, `MAX_CUSTOM_BYTES`, `UNSAFE_KEYS`
abbrev pub custom_name : String
custom_name = "custom"

abbrev pub max_custom_keys : ℕ
max_custom_keys = 32

abbrev pub max_custom_bytes : ℕ
max_custom_bytes = 8192

abbrev pub is_unsafe : String → Bool
is_unsafe name = contains ("__proto__" ∷ "constructor" ∷ "prototype" ∷ []) name

-- `Object.keys(o).length`
unfoldable pub count_fields : Fields → ℕ
count_fields no_field = 0
count_fields (field name v fs) = 1 + count_fields fs

-- `o[name]`
unfoldable pub get_field : Fields → String → Option Value
get_field no_field name = none
get_field (field key v fs) name = if key == name then some v else get_field fs name

-- `o[name] = v`: in the place of the field, or behind all
unfoldable pub assign : Fields → String → Value → Fields
assign no_field name v = field name v no_field
assign (field key w fs) name v =
    let rest = assign fs name v in if key == name then field key v fs else field key w rest

-- `byName.get(name)`: the last definition of a name is in the Map
unfoldable pub definition_of : List CustomFieldDef → String → Option CustomFieldDef
definition_of [] name = none
definition_of (d ∷ ds) name =
    or_this (definition_of ds name) (if d.name == name then some d else none)

-- The value counts as none.
abbrev pub is_blank : Value → Bool
is_blank null = true
is_blank (text s) = s == ""
is_blank (boolean b) = false
is_blank (number s) = false
is_blank (array s) = false
is_blank (object fs) = false

-- a text of digits where the pattern has a 0, and of what the pattern has elsewhere
unfoldable pub has_shape : String → String → Bool
has_shape String.[] String.[] = true
has_shape String.[] (String.◌∷◌ c s) = false
has_shape (String.◌∷◌ p ps) String.[] = false
has_shape (String.◌∷◌ p ps) (String.◌∷◌ c s) =
    (if nat_eq (code p) b'0'
      then leb b'0' (code c) && leb (code c) b'9'
      else nat_eq (code c) (code p))
    && has_shape ps s

-- `/^\d{4}-\d{2}-\d{2}$/`
unfoldable pub is_date_text : String → Bool
unfolding has_shape
is_date_text s = has_shape "0000-00-00" s

abbrev is_text_up_to : (String → ℕ) → ℕ → Value → Bool
is_text_up_to length most (text s) = leb (length s) most
is_text_up_to length most v = false

abbrev is_bool_like : Value → Bool
is_bool_like (boolean b) = true
is_bool_like (text s) = s == "true" || s == "false"
is_bool_like v = false

-- The state of the two loops: whether a key was moved, what is kept, and the custom object.
pub record Folded : Type 0 where
  pub moved : Bool
  pub kept : Fields
  pub custom : Fields

pub data Step : Type 0 where
  goes_on : Folded → Step
  stops : Fault → Step

abbrev pub after_accept : Option Fault → String → Value → Folded → Step
after_accept (some fault) name v f = stops fault
after_accept none name v f = goes_on (record f { custom = assign f.custom name v })

abbrev pub and_then : Step → (Folded → Step) → Step
and_then (stops fault) next = stops fault
and_then (goes_on f) next = next f

abbrev pub has_value : Option Value → Bool
has_value none = false
has_value (some v) = not (is_blank v)

-- the loop over the required definitions
unfoldable pub missing_required : List CustomFieldDef → Fields → Option Fault
unfolding get_field
missing_required [] custom = none
missing_required (d ∷ ds) custom =
    let rest = missing_required ds custom in
    if d.required && not (has_value (get_field custom d.name))
    then some (is_required d.name)
    else rest

abbrev pub nothing_folded : Folded
nothing_folded = record { moved = false; kept = no_field; custom = no_field }

-- what is left where the cube declares a field of the name itself
unfoldable pub only_declared : List String → Fields → Fields
only_declared declared no_field = no_field
only_declared declared (field key v fs) =
    let rest = only_declared declared fs in if contains declared key then field key v rest else rest

module _ (js : Library) where
  abbrev as_string : Value → String
  as_string (text s) = s
  as_string v = js.json_text v

  -- the rule of each type
  unfoldable pub follows_rule : FieldType → List String → Value → Bool
  unfolding is_date_text
  follows_rule text_field options v = is_text_up_to js.text_length 1000 v
  follows_rule number_field options v = js.is_numeric v
  follows_rule date_field options v = is_date_text (as_string v) && js.is_time (as_string v)
  follows_rule bool_field options v = is_bool_like v
  follows_rule select_field options v = contains options (as_string v)

  -- `checkCustomValue`
  unfoldable pub check_custom_value : CustomFieldDef → Value → Option Fault
  unfolding follows_rule
  check_custom_value def v =
      if is_blank v
      then (if def.required then some (is_required def.name) else none)
      else if follows_rule def.field_type def.options v
      then none
      else some (bad_value def.name)

  -- `checkCustomObject`, of an object
  unfoldable pub check_custom_object : Fields → Option Fault
  unfolding count_fields
  check_custom_object fs =
      if ltb max_custom_keys (count_fields fs)
      then some too_many
      else if ltb max_custom_bytes (js.json_length fs)
      then some too_large
      else none

  abbrev checked_value : String → Option CustomFieldDef → Value → Option Fault
  checked_value name none v = some (not_defined name)
  checked_value name (some def) v = check_custom_value def v

  -- `accept`
  unfoldable pub accept : List CustomFieldDef → String → Value → Option Fault
  unfolding definition_of check_custom_value
  accept defs name v =
      if is_unsafe name
      then some (not_allowed name)
      else checked_value name (definition_of defs name) v

  abbrev pub take_custom : List CustomFieldDef → String → Value → Folded → Step
  take_custom [] name v f = goes_on f
  take_custom (d ∷ ds) name v f = after_accept (accept (d ∷ ds) name v) name v f

  -- the loop over the custom object that the caller sent
  unfoldable pub fold_explicit : List CustomFieldDef → Fields → Folded → Step
  unfolding accept assign
  fold_explicit defs no_field f = goes_on f
  fold_explicit defs (field name v fs) f =
      and_then (take_custom defs name v f) (fold_explicit defs fs)

  -- one key of the payload
  unfoldable pub fold_key : List String → List CustomFieldDef → String → Value → Folded → Step
  unfolding accept assign
  fold_key declared defs key v f =
      if contains declared key
      then goes_on (record f { kept = assign f.kept key v })
      else if key == custom_name
      then goes_on (record f { moved = true })
      else if is_unsafe key
      then stops (not_allowed key)
      else take_custom defs key v (record f { moved = true })

  -- the loop over the payload
  unfoldable pub fold_keys : List String → List CustomFieldDef → Fields → Folded → Step
  unfolding fold_key
  fold_keys declared defs no_field f = goes_on f
  fold_keys declared defs (field key v fs) f =
      and_then (fold_key declared defs key v f) (fold_keys declared defs fs)

  abbrev pub capped : Option Fault → Folded → FoldResult
  capped (some fault) f = refused fault
  capped none f = ok (object (assign f.kept custom_name (object f.custom)))

  abbrev pub returned : Fields → Folded → FoldResult
  returned payload f =
      if nat_eq (count_fields f.custom) 0
      then (if f.moved then ok (object f.kept) else ok (object payload))
      else capped (check_custom_object f.custom) f

  abbrev pub unless_missing : Option Fault → Fields → Folded → FoldResult
  unless_missing (some fault) payload f = refused fault
  unless_missing none payload f = returned payload f

  abbrev pub finished : Mode → List CustomFieldDef → Fields → Step → FoldResult
  finished mode defs payload (stops fault) = refused fault
  finished create defs payload (goes_on f) =
      unless_missing (missing_required defs f.custom) payload f
  finished patch defs payload (goes_on f) = returned payload f

  abbrev pub explicit_part : List CustomFieldDef → Option Value → Step
  explicit_part defs none = goes_on nothing_folded
  explicit_part defs (some (object fs)) = fold_explicit defs fs nothing_folded
  explicit_part defs (some null) = stops not_an_object
  explicit_part defs (some (boolean b)) = stops not_an_object
  explicit_part defs (some (number s)) = stops not_an_object
  explicit_part defs (some (text s)) = stops not_an_object
  explicit_part defs (some (array s)) = stops not_an_object

  -- `foldCustom` of an object
  unfoldable pub fold_fields : List String → List CustomFieldDef → Mode → Fields → FoldResult
  unfolding fold_explicit fold_keys missing_required check_custom_object only_declared
  fold_fields declared defs mode fs =
      if contains declared custom_name
      then ok (object (only_declared declared fs))
      else finished mode defs fs
          (and_then (explicit_part defs (get_field fs custom_name)) (fold_keys declared defs fs))

  -- `foldCustom`
  unfoldable pub fold_custom : Value → List String → List CustomFieldDef → Mode → FoldResult
  unfolding fold_fields
  fold_custom (object fs) declared defs mode = fold_fields declared defs mode fs
  fold_custom null declared defs mode = ok null
  fold_custom (boolean b) declared defs mode = ok (boolean b)
  fold_custom (number s) declared defs mode = ok (number s)
  fold_custom (text s) declared defs mode = ok (text s)
  fold_custom (array s) declared defs mode = ok (array s)
