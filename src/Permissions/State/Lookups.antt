-- ===== src/Permissions/State/Lookups.antt =====
-- What the lookups of state.ts find: the SQL filters, read as tests on the rows.
use qwbe.Prelude.{Bool, ◌≡◌, ◌&&◌, arith, ◌==◌, find, filter}
use mathlib.Core.Path.{fun_ext, ◌∙◌, ap}
use qwbe.Kernel.Platform.{Platform}
use qwbe.Kernel.Where.{matches, pairs}
use qwbe.Kernel.Table.{Row, view, is_live, rows_where}
use qwbe.Kernel.Table.Laws.{first-eq-find}
use qwbe.Permissions.Model.{EntityRef, Ownership, EntityGrant}
use qwbe.Permissions.State.{
  State, ownership_fields, grant_fields, ref_pairs, ownership_of, grants_for,
}

abbrev pub same_ref : EntityRef → EntityRef → Bool
same_ref a b = a.cube == b.cube && (a.entity_type == b.entity_type && a.entity_id == b.entity_id)

abbrev pub owns_ref : EntityRef → Row Ownership → Bool
owns_ref ref r = is_live r && same_ref r.body.ref ref

abbrev pub grants_ref : EntityRef → Row EntityGrant → Bool
grants_ref ref r = is_live r && same_ref r.body.ref ref

module _ (env : Platform) (ref : EntityRef) where
  matches-ownership :
      (r : Row Ownership)
      → matches env (pairs (ref_pairs ref)) (view (ownership_fields env) r) ≡ owns_ref ref r
  unfolding matches
  matches-ownership r = ground arith

  matches-grant :
      (r : Row EntityGrant)
      → matches env (pairs (ref_pairs ref)) (view grant_fields r) ≡ grants_ref ref r
  unfolding matches
  matches-grant r = ground arith

module _ (env : Platform) (ref : EntityRef) (s : State) where
  -- The owner of an entity is its oldest live ownership row.
  pub ownership_of-eq-find : ownership_of env ref s ≡ find (owns_ref ref) s.ownership
  unfolding ownership_of
  ownership_of-eq-find =
      first-eq-find env (ownership_fields env) (pairs (ref_pairs ref)) s.ownership
      ∙ ap (λ (p : Row Ownership → Bool). find p s.ownership) (fun_ext (matches-ownership env ref))

  pub grants_for-eq-filter : grants_for env ref s ≡ filter (grants_ref ref) s.grants
  unfolding grants_for rows_where
  grants_for-eq-filter =
      ap (λ (p : Row EntityGrant → Bool). filter p s.grants) (fun_ext (matches-grant env ref))

  pub ownership_rows-eq-filter :
      rows_where env (ownership_fields env) (pairs (ref_pairs ref)) s.ownership
      ≡ filter (owns_ref ref) s.ownership
  unfolding rows_where
  ownership_rows-eq-filter =
      ap (λ (p : Row Ownership → Bool). filter p s.ownership) (fun_ext (matches-ownership env ref))
