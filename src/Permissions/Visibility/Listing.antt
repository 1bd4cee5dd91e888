-- ===== src/Permissions/Visibility/Listing.antt =====
-- What `listVisible` returns in a consistent store: the whole page that the store found.
use qwbe.Prelude.{
  ℕ, String, true, ◌≡◌, refl, ◌∙◌, some, List, ◌==◌, eq_refl, nat_eq, map, length, contains,
  contains-map, any-of_IsIn, take, drop, IsIn, IsIn-of_filter,
}
use qwbe.Kernel.Platform.{Platform}
use qwbe.Kernel.Where.{Where, matches, full}
use qwbe.Kernel.Table.{Row, Page, view, rows_where, page_rows}
use qwbe.Kernel.Paging.{PageRequest}
use qwbe.Permissions.Model.{Actor, Ownership, VisibilityView, EntityVisibility}
use qwbe.Permissions.Effect.{Outcome, success, failure}
use qwbe.Permissions.State.{State, ownership_fields, write_audit}
use qwbe.Permissions.Counts.Consistency.{StateIsConsistent}
use qwbe.Permissions.Counts.Reconcile.{RefsArePlain}
use qwbe.Permissions.Visibility.{owner_key, visible_where}
use qwbe.Permissions.Visibility.Pages.{reach_of, list_visible, visibility_for}
use qwbe.Permissions.Visibility.Facts.{HiddenArePlain}
use qwbe.Permissions.Visibility.Whole.{
  IsIn-take, IsIn-drop, length-decided_rows, decided_rows-shown, entry_facts, row_ownership,
}

module _ (env : Platform) (zero_text : (n : ℕ) → (env.number_text n == "0") ≡ nat_eq n 0)
    (s : State) (consistent : StateIsConsistent s) (plain : RefsArePlain s)
    (hidden_plain : HiddenArePlain s) (order : List (Row Ownership) → List (Row Ownership))
    (rearranges : (xs : List (Row Ownership)) (r : Row Ownership) → IsIn r (order xs) → IsIn r xs)
    (actor : Actor) (cube : String) (v : VisibilityView) (request : PageRequest) where
  abbrev predicate : Where
  predicate = full (visible_where actor cube v (reach_of env actor cube s))

  -- the ownership rows that match, in the order of their creation
  abbrev pub matching : List (Row Ownership)
  matching = rows_where env (ownership_fields env) predicate s.ownership

  abbrev pub paged : List (Row Ownership)
  paged = take request.limit (drop request.offset (order matching))

  paged_is_listed :
      (r : Row Ownership)
      → IsIn r paged
      → IsIn r s.ownership × (matches env predicate (view (ownership_fields env) r) ≡ true)
  unfolding rows_where
  paged_is_listed r m =
      IsIn-of_filter (λ x. matches env predicate (view (ownership_fields env) x)) r s.ownership
        (rearranges matching r (
          IsIn-drop request.offset r (order matching)
            (IsIn-take request.limit r (drop request.offset (order matching)) m)))

  key_is_read :
      (rows : List (Row Ownership)) (r : Row Ownership)
      → IsIn r rows
      → contains (map owner_key rows) (owner_key r) ≡ true
  key_is_read rows r m =
      contains-map owner_key rows (owner_key r)
      ∙ any-of_IsIn (λ x. owner_key x == owner_key r) r rows m (eq_refl (owner_key r))

  abbrev pub IsWholePage : Outcome (Page EntityVisibility) × State → Type 0
  IsWholePage (success page, s') =
      (map some page.rows ≡ map (λ (r : Row Ownership). visibility_for env actor r s) paged)
      × (map entry_facts page.rows ≡ map row_ownership paged)
      × (length page.rows ≡ length paged)
      × (page.total ≡ length matching)
      × (s'.ownership ≡ s.ownership)
      × (s'.grants ≡ s.grants)
  IsWholePage (failure e, s') = ⊥

  -- In a store whose stored keys and counts agree with the live grants and whose refs hold no colon,
  -- for every order that only rearranges rows: `listVisible` succeeds, its total is the number of the
  -- matching rows, and its page has, in the order of the store, one entry for every row that the
  -- store found for it: the one that the rule for that entity alone gives, with the entity, owner,
  -- creator and time of the row; ownership and grants are as before.
  pub list_visible-IsWholePage :
      (sorted_by : String) → IsWholePage (list_visible env order sorted_by actor cube v request s)
  unfolding list_visible page_rows write_audit
  list_visible-IsWholePage sorted_by =
      let shown =
        decided_rows-shown env zero_text s consistent plain hidden_plain actor cube v
          (map owner_key paged) paged (λ r m. (paged_is_listed r m, key_is_read paged r m)) in
      (
        shown.0,
        shown.1,
        length-decided_rows env zero_text s consistent plain hidden_plain actor cube v
            (map owner_key paged) paged (λ r m. (paged_is_listed r m, key_is_read paged r m)),
        refl,
        refl,
        refl,
      )
