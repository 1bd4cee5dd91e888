-- ===== src/Permissions/Counts.antt =====
-- core/src/cubes/permissions/counts.ts: the stored keys and counts, filled and checked.
pub mod Recount
pub mod Consistency
pub mod Operations
pub mod Others
pub mod Runs
pub mod Reconcile
use qwbe.Prelude.{
  ℕ, String, Bool, true, false, not, ◌&&◌, ◌||◌, Option, none, some, List, [], ◌∷◌, ◌++◌, ◌==◌,
  filter, length, is_some, nat_eq, if◌then◌else◌,
}
use qwbe.Kernel.Platform.{Platform}
use qwbe.Kernel.Table.{Row, Table, all_rows, update, is_live}
use qwbe.Permissions.Model.{EntityGrant, Ownership}
use qwbe.Permissions.State.{State, entity_key_of, recount_shares}
use qwbe.Permissions.Visibility.{grant_key, owner_key}

pub data CountedTable : Type 0 where
  ownership_table grants_table : CountedTable

-- One stored key or count that disagrees with the live rows.
pub record CountMismatch : Type 0 where
  pub table : CountedTable
  pub id : String
  pub entity_key : String
  pub stored : Option ℕ
  pub live : ℕ

-- `live` over `store.all`
abbrev pub live_rows {ℓ} : {A : Type ℓ} → Table A → List (Row A)
live_rows t = filter is_live (all_rows t)

-- the first loop of `backfillCounts`, over the grants
unfoldable pub backfill_grants : List (Row EntityGrant) → State → State
backfill_grants [] s = s
backfill_grants (g ∷ grants) s = backfill_grants grants (
    if is_some g.body.entity_key then s else record s {
      grants =
          update g.id (λ r. record r { body = record (r.body) { entity_key = some (grant_key g) } })
            s.grants;
    })

module _ (env : Platform) where
  -- the second loop of `backfillCounts`, over the owners
  unfoldable pub backfill_owners : List (Row Ownership) → State → State
  backfill_owners [] s = s
  backfill_owners (r ∷ owners) s = backfill_owners owners (
      if is_some r.body.entity_key && is_some r.body.shared_with_count
      then s
      else recount_shares env r.body.ref s)

  -- `backfillCounts`
  unfoldable pub backfill_counts : State → State
  unfolding backfill_grants backfill_owners
  backfill_counts s =
      backfill_owners (live_rows s.ownership) (backfill_grants (live_rows s.grants) s)

-- `counts.get(key) ?? 0`: how many of the grants have the key
unfoldable pub count_at : String → List (Row EntityGrant) → ℕ
count_at key grants = length (filter (λ g. grant_key g == key) grants)

abbrev pub is_text : Option String → String → Bool
is_text none s = false
is_text (some t) s = t == s

abbrev pub is_number : Option ℕ → ℕ → Bool
is_number none n = false
is_number (some m) n = nat_eq m n

abbrev pub mismatch_of : List (Row EntityGrant) → Row Ownership → CountMismatch
mismatch_of grants r = record {
  table = ownership_table;
  id = r.id;
  entity_key = owner_key r;
  stored = r.body.shared_with_count;
  live = count_at (owner_key r) grants;
}

abbrev pub owner_mismatch : List (Row EntityGrant) → Row Ownership → List CountMismatch
owner_mismatch grants r =
    if is_text r.body.entity_key (owner_key r)
      && is_number r.body.shared_with_count (count_at (owner_key r) grants)
    then []
    else mismatch_of grants r ∷ []

abbrev pub grant_mismatch : List (Row EntityGrant) → Row EntityGrant → List CountMismatch
grant_mismatch grants g =
    if is_text g.body.entity_key (grant_key g)
    then []
    else record {
      table = grants_table;
      id = g.id;
      entity_key = grant_key g;
      stored = none;
      live = count_at (grant_key g) grants;
    }
      ∷ []

unfoldable pub owner_mismatches : List (Row EntityGrant) → List (Row Ownership) → List CountMismatch
owner_mismatches grants [] = []
owner_mismatches grants (r ∷ rows) = owner_mismatch grants r ++ owner_mismatches grants rows

unfoldable pub grant_mismatches :
    List (Row EntityGrant) → List (Row EntityGrant) → List CountMismatch
grant_mismatches grants [] = []
grant_mismatches grants (g ∷ rows) = grant_mismatch grants g ++ grant_mismatches grants rows

-- `reconcileCounts`
unfoldable pub reconcile_counts : State → List CountMismatch
reconcile_counts s =
    owner_mismatches (live_rows s.grants) (live_rows s.ownership)
    ++ grant_mismatches (live_rows s.grants) (live_rows s.grants)
