-- ===== src/Permissions/Foundation/Transfers.antt =====
-- What `transferOwnership` and `authorize` do, on every branch.
use mathlib.Core.Option
use qwbe.Prelude.{
  String, true, false, ◌≡◌, refl, sym, ap, ◌∙◌, none, some, arith, ◌⊎◌, inl, inr, Option-cases,
  Bool-cases, eq_refl, find-map,
}
use qwbe.Kernel.Platform.{Platform}
use qwbe.Kernel.Table.{Row, update, patched}
use qwbe.Permissions.Model.{Actor, EntityRef, Ownership, transfer}
use qwbe.Permissions.Effect.{Outcome, success, failure, not_found, forbidden}
use qwbe.Permissions.State.{State, ownership_of, recount_shares, write_audit}
use qwbe.Permissions.State.Lookups.{owns_ref, ownership_of-eq-find}
use qwbe.Permissions.Foundation.{is_owner, owned_by, write_owner, decide, transfer_ownership}
use qwbe.Permissions.Foundation.Owners.{owner-recount_shares}

module _ (env : Platform) (actor : Actor) (ref : EntityRef) (user_id : String) where
  abbrev with_owner : Row Ownership → State → State
  with_owner r s = record s { ownership = update r.id (owned_by env user_id) s.ownership }

  found_patched :
      (s : State) (r : Row Ownership)
      → ownership_of env ref s ≡ some r
      → ownership_of env ref (with_owner r s) ≡ some (owned_by env user_id r)
  unfolding update
  found_patched s r h =
      ownership_of-eq-find env ref (with_owner r s)
      ∙ find-map (owns_ref ref) (patched r.id (owned_by env user_id)) s.ownership
          (λ x. ground arith)
      ∙ ap (Option.map (patched r.id (owned_by env user_id)))
          (sym (ownership_of-eq-find env ref s) ∙ h)
      ∙ ground (arith, eq_refl r.id)

  new_owner :
      (s : State) (r : Row Ownership)
      → ownership_of env ref s ≡ some r
      → is_owner user_id (ownership_of env ref (write_owner env ref r user_id s)) ≡ true
  new_owner s r h =
      owner-recount_shares env ref user_id ref (with_owner r s)
      ∙ rw (found_patched s r h) (eq_refl user_id)

  -- What a transfer ends with: no record, no right, or the entity with its new owner.
  abbrev pub TransferEnds : State → Outcome (Row Ownership) × State → Type 0
  TransferEnds s (success changed, s') =
      ((decide env actor ref transfer s).allowed ≡ true)
      × (changed.body.owner_id ≡ user_id)
      × (is_owner user_id (ownership_of env ref s') ≡ true)
      × (s'.grants ≡ s.grants)
  TransferEnds s (failure e, s') =
      (s' ≡ s)
      × (((e ≡ not_found) × (ownership_of env ref s ≡ none))
          ⊎ ((e ≡ forbidden) × ((decide env actor ref transfer s).allowed ≡ false)))

  -- A transfer that succeeds was allowed by the decision, and afterwards the new user owns the
  -- entity and the grants are as before; one that fails has written nothing, and fails either
  -- because nobody owns the entity or because the decision refuses.
  pub transfer_ownership-TransferEnds :
      (s : State) → TransferEnds s (transfer_ownership env actor ref user_id s)
  unfolding transfer_ownership write_audit recount_shares ownership_of
  transfer_ownership-TransferEnds s = elim (Option-cases (ownership_of env ref s)) [
    | inl nothing ↦ rw nothing (refl, inl (refl, nothing))
    | inr (r, found) ↦ rw found (elim (Bool-cases (decide env actor ref transfer s).allowed) [
      | inl may ↦ rw may (may, refl, new_owner s r found, refl)
      | inr not_allowed ↦ rw not_allowed (refl, inr (refl, not_allowed))
    ])
  ]
