-- ===== src/Kernel/Where.antt =====
-- core/src/kernel/pagination.ts (`ListWhere`) and core/src/pg/rows.ts (`conditions`,
-- `whereClause`): the filter of a list query, and what the SQL that is built from it decides
-- about one row. SQL tests are three-valued: `none` is NULL.
use Prim.Native.Char.{code}
use Prim.Native.String
use Prim.Native.String.{compare}
use Prim.Native.Nat.{Ordering}
use mathlib.Core.Option
use qwbe.Prelude.{
  String, Bool, true, false, ◌||◌, Option, none, some, List, [], ◌∷◌, map, ◌==◌, ◌++◌, nat_eq,
  contains, if◌then◌else◌,
}
use qwbe.Kernel.Platform.{Platform}

-- A row as SQL sees it: the four meta columns, and `body ->> field`.
pub record RowView : Type 0 where
  pub id : String
  pub kind : String
  pub created_at : String
  pub deleted : Bool
  pub body : String → Option String

pub record Range : Type 0 where
  pub field : String
  pub lower : Option String
  pub upper : Option String

pub record Search : Type 0 where
  pub text : String
  pub fields : List String

mutual
  pub data ListWhere : Type 0 where
    list_where :
        (equals : List (String × String)) (ids : Option (List String))
        (sets : List (String × List String)) (range : Option Range) (q : Option Search)
        → AnyOf
        → Negated
        → ListWhere

  -- `anyOf`: absent, or a list of groups.
  pub data AnyOf : Type 0 where
    no_groups : AnyOf
    any_of : Groups → AnyOf

  pub data Groups : Type 0 where
    nil : Groups
    group : ListWhere → Groups → Groups

  -- `not`: absent, or one group.
  pub data Negated : Type 0 where
    no_not : Negated
    is_not : ListWhere → Negated

-- A condition's value in SQL.
abbrev pub Truth : Type 0
Truth = Option Bool

abbrev pub and3 : Truth → Truth → Truth
and3 (some false) b = some false
and3 (some true) b = b
and3 none (some false) = some false
and3 none (some true) = none
and3 none none = none

abbrev pub or3 : Truth → Truth → Truth
or3 (some true) b = some true
or3 (some false) b = b
or3 none (some true) = some true
or3 none (some false) = none
or3 none none = none

-- `IS TRUE`: what a WHERE clause keeps.
abbrev pub is_true : Truth → Bool
is_true (some true) = true
is_true (some false) = false
is_true none = false

-- `IS NOT TRUE`.
abbrev pub is_not_true : Truth → Truth
is_not_true (some true) = some false
is_not_true (some false) = some true
is_not_true none = some true

abbrev pub conjunction : List Truth → Truth
conjunction [] = some true
conjunction (t ∷ ts) = and3 t (conjunction ts)

abbrev pub disjunction : List Truth → Truth
disjunction [] = some false
disjunction (t ∷ ts) = or3 t (disjunction ts)

-- the text of a column: a meta column, or `body ->> field`
abbrev pub column : RowView → String → Option String
column v field =
    if field == "id"
    then some v.id
    else if field == "type"
    then some v.kind
    else if field == "createdAt"
    then some v.created_at
    else if field == "deleted"
    then some (if v.deleted then "true" else "false")
    else v.body field

abbrev pub equal_bools : Bool → Bool → Bool
equal_bools true b = b
equal_bools false true = false
equal_bools false false = true

-- `equalsSql`
abbrev pub equals_sql : RowView → String × String → Truth
equals_sql v (field, value) =
    if field == "deleted"
    then some (equal_bools v.deleted (value == "true"))
    else Option.map (λ text. text == value) (column v field)

-- `field = ANY(values)`, and FALSE for an empty set
unfoldable pub set_sql : RowView → String × List String → Truth
set_sql v (field, []) = some false
set_sql v (field, x ∷ xs) = Option.map (contains (x ∷ xs)) (column v field)

abbrev pub ids_sql : RowView → Option (List String) → List Truth
ids_sql v none = []
ids_sql v (some []) = some false ∷ []
ids_sql v (some (x ∷ xs)) = some (contains (x ∷ xs) v.id) ∷ []

-- `COLLATE "C"`: code point by code point.
abbrev pub text_le : String → String → Bool
text_le a b = elim (compare a b) [ Ordering.gt ↦ false | _ ↦ true ]

abbrev bound_sql : (String → Bool) → Option String → List Truth
bound_sql test text = Option.map test text ∷ []

abbrev lower_sql : RowView → String → Option String → List Truth
lower_sql v field none = []
lower_sql v field (some from) = bound_sql (text_le from) (v.body field)

abbrev upper_sql : RowView → String → Option String → List Truth
upper_sql v field none = []
upper_sql v field (some to) = bound_sql (λ text. text_le text to) (v.body field)

abbrev pub range_sql : RowView → Option Range → List Truth
range_sql v none = []
range_sql v (some r) = lower_sql v r.field r.lower ++ upper_sql v r.field r.upper

-- `escapeLike`: a backslash in front of each backslash, percent sign and underscore.
escape_like : String → String
escape_like String.[] = ""
escape_like (String.◌∷◌ c s) =
    let rest = String.◌∷◌ c (escape_like s) in
    if nat_eq (code c) 92 || nat_eq (code c) 37 || nat_eq (code c) 95
    then String.◌++◌ "\\" rest
    else rest

module _ (env : Platform) where
  open env use {ilike}

  -- `searchSql`: one pattern, ORed across the fields
  unfoldable pub search_sql : RowView → Search → Truth
  unfolding escape_like
  search_sql v s =
      let pattern = String.◌++◌ (escape_like s.text) "%" in
      disjunction (map (λ field. Option.map (ilike pattern) (column v field)) s.fields)

  abbrev q_part : RowView → Search → Bool → List String → List Truth
  q_part v s true fields = []
  q_part v s false [] = []
  q_part v s false (f ∷ fs) = search_sql v s ∷ []

  abbrev pub q_sql : RowView → Option Search → List Truth
  q_sql v none = []
  q_sql v (some s) = q_part v s (s.text == "") s.fields

  unfoldable mutual
    -- `group` over `conditions`: the conditions of one group, ANDed.
    pub meets : RowView → ListWhere → Truth
    meets v (list_where equals ids sets range q groups negated) = conjunction (
        map (equals_sql v) equals
        ++ (ids_sql v ids
            ++ (map (set_sql v) sets
                ++ (range_sql v range
                    ++ (q_sql v q ++ (groups_sql v groups ++ negated_sql v negated))))))

    pub groups_sql : RowView → AnyOf → List Truth
    groups_sql v no_groups = []
    groups_sql v (any_of groups) = meets_any v groups ∷ []

    pub meets_any : RowView → Groups → Truth
    meets_any v nil = some false
    meets_any v (group g gs) = or3 (meets v g) (meets_any v gs)

    pub negated_sql : RowView → Negated → List Truth
    negated_sql v no_not = []
    negated_sql v (is_not g) = is_not_true (meets v g) ∷ []

-- `Where`: one pair, several pairs ANDed, or the full criteria.
pub data Where : Type 0 where
  pair : String → String → Where
  pairs : List (String × String) → Where
  full : ListWhere → Where

abbrev equals_only : List (String × String) → ListWhere
equals_only equals = list_where equals none [] none none no_groups no_not

abbrev pub criteria : Where → ListWhere
criteria (pair field value) = equals_only ((field, value) ∷ [])
criteria (pairs equals) = equals_only equals
criteria (full w) = w

-- `WHERE deleted = false` and the clause: whether a lookup returns the row.
unfoldable pub matches : Platform → Where → RowView → Bool
unfolding meets
matches env w v = if v.deleted then false else is_true (meets env v (criteria w))
