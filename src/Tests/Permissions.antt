-- ===== src/Tests/Permissions.antt =====
-- The theorems about the permission service, each at one input: a document of alice that bob was
-- given to read.
use Prim.Native.String
use qwbe.Prelude.{
  ℕ, zero, suc, String, true, false, ◌≡◌, refl, ap, inl, inr, some, [], ◌∷◌, ◌==◌, eq_iff, nat_eq,
  arith, ◌↔◌,
}
use qwbe.Kernel.Platform.{Platform}
use qwbe.Kernel.Where.{matches}
use qwbe.Kernel.Table.{Row, first, rows_where}
use qwbe.Kernel.Table.Ids.{HasUniqueIds, IsFresh}
use qwbe.Permissions.Model.{
  Actor, EntityRef, Ownership, EntityGrant, user, GrantAction, read, share,
}
use qwbe.Permissions.State.{State, entity_key_of, ownership_of}
use qwbe.Permissions.State.Lookups.{same_ref}
use qwbe.Permissions.State.Keys.{has_no_colon}
use qwbe.Permissions.Foundation.{
  Scope, entity, sees, visible_ids, decide, claim, is_owner, transfer_ownership,
}
use qwbe.Permissions.Foundation.Scopes.{visible_ids-eq-decide}
use qwbe.Permissions.Foundation.Owners.{claim-owns}
use qwbe.Permissions.Foundation.Transfers.{TransferEnds, transfer_ownership-TransferEnds}
use qwbe.Permissions.Sharing.{grant_user, revoke_grant}
use qwbe.Permissions.Sharing.Access.{GrantEnds, grant_user-GrantEnds}
use qwbe.Permissions.Sharing.Revocation.{RevokeEnds, revoke_grant-RevokeEnds}
use qwbe.Permissions.Counts.{reconcile_counts}
use qwbe.Permissions.Counts.Consistency.{StateIsConsistent}
use qwbe.Permissions.Counts.Operations.{DrawsFreshIds}
use qwbe.Permissions.Counts.Runs.{
  Operation, shares_user, run, Reaches, here, next, Reaches-IsConsistent,
}
use qwbe.Permissions.Counts.Reconcile.{RowsAgree, RefsArePlain, reconcile_counts_iff}

-- ids by tally marks, one more for each draw
abbrev tally : ℕ → String → String
tally zero s = s
tally (suc n) s = tally n (String.◌++◌ s "i")

abbrev shown : ℕ → String
shown zero = "0"
shown (suc n) = "1"

abbrev pub platform : Platform
platform = record {
  new_id = λ prefix n. String.◌++◌ prefix (tally n "-");
  now = λ n. tally n "t";
  number_text = shown;
  ilike = λ pattern text. pattern == text;
}

abbrev pub alice : Actor
alice = record { user_id = "alice"; roles = [] }

abbrev pub bob : Actor
bob = record { user_id = "bob"; roles = [] }

abbrev pub documents : Scope
documents = record { cube = "notes"; entity_type = "note" }

abbrev pub doc : EntityRef
doc = entity documents "n1"

abbrev other_doc : EntityRef
other_doc = entity documents "n2"

abbrev pub owner_row : Row Ownership
owner_row = record {
  id = "own-1";
  kind = "permissions.ownership";
  created_at = "t1";
  deleted = false;
  body = record {
    ref = doc;
    owner_id = "alice";
    created_by = "alice";
    entity_key = some "notes:note:n1";
    shared_with_count = some 1;
  };
}

abbrev grant_row : Row EntityGrant
grant_row = record {
  id = "grant-1";
  kind = "permissions.grant";
  created_at = "t2";
  deleted = false;
  body = record {
    ref = doc;
    entity_key = some "notes:note:n1";
    subject = user "bob";
    actions = read ∷ [];
    created_by = "alice";
  };
}

abbrev pub shared_doc : State
shared_doc = record {
  ownership = owner_row ∷ [];
  cube_admins = [];
  audit = [];
  groups = [];
  memberships = [];
  grants = grant_row ∷ [];
  hidden = [];
  capabilities = [];
  draws = 3;
}

one_row_HasUniqueIds : {A : Type 0} (r : Row A) → HasUniqueIds (r ∷ [])
one_row_HasUniqueIds r x y (inl e) (inl f) same = cc
one_row_HasUniqueIds r x y (inl e) (inr n) same = absurd n
one_row_HasUniqueIds r x y (inr m) n same = absurd m

pub shared_doc-IsConsistent : StateIsConsistent shared_doc
unfolding entity_key_of
shared_doc-IsConsistent = record {
  unique_owners = one_row_HasUniqueIds owner_row;
  unique_grants = one_row_HasUniqueIds grant_row;
  counted = λ r m live. elim m [ inl e ↦ rw e (refl, refl) | inr n ↦ absurd n ];
  keyed = λ g m live. elim m [ inl e ↦ rw e refl | inr n ↦ absurd n ];
}

one_row_IsFresh :
    {A : Type 0} (r : Row A) (id : String) → (r.id == id) ≡ false → IsFresh id (r ∷ [])
one_row_IsFresh r id h x (inl e) same = ground (arith, eq_iff r.id id, ap (λ (y : Row _). y.id) e)
one_row_IsFresh r id h x (inr n) same = absurd n

shared_doc-DrawsFreshIds : DrawsFreshIds platform shared_doc
shared_doc-DrawsFreshIds = record {
  owner_id = one_row_IsFresh owner_row "own-iii" refl;
  grant_id = one_row_IsFresh grant_row "grant-iii" refl;
}

visible_ids-eq-decide_example :
    sees (visible_ids platform bob documents read shared_doc) "n1"
    ≡ (decide platform bob doc read shared_doc).allowed
visible_ids-eq-decide_example = visible_ids-eq-decide platform documents shared_doc bob read "n1"

claim-owns_example :
    let s' : State = (claim platform bob other_doc shared_doc).1 in
    (is_owner "bob" (ownership_of platform other_doc s') ≡ true)
    × ((action : GrantAction) → (decide platform bob other_doc action s').allowed ≡ true)
    × ((other : EntityRef)
        → same_ref other_doc other ≡ false
        → ownership_of platform other s' ≡ ownership_of platform other shared_doc)
unfolding ownership_of first rows_where matches
claim-owns_example = claim-owns platform bob other_doc shared_doc refl

transfer_ownership-TransferEnds_example :
    TransferEnds platform alice doc "bob" shared_doc
      (transfer_ownership platform alice doc "bob" shared_doc)
transfer_ownership-TransferEnds_example =
    transfer_ownership-TransferEnds platform alice doc "bob" shared_doc

grant_user-GrantEnds_example :
    GrantEnds platform alice doc
      (user "carol")
      (read ∷ [])
      shared_doc
      (grant_user platform alice doc "carol" (read ∷ []) shared_doc)
grant_user-GrantEnds_example =
    grant_user-GrantEnds platform alice doc (read ∷ []) "carol" shared_doc

revoke_grant-RevokeEnds_example :
    RevokeEnds platform alice "grant-1" shared_doc
      (revoke_grant platform alice "grant-1" shared_doc)
revoke_grant-RevokeEnds_example = revoke_grant-RevokeEnds platform alice "grant-1" shared_doc

abbrev more_sharing : Operation
more_sharing = shares_user alice doc "carol" (read ∷ share ∷ [])

one_step : Reaches platform shared_doc (run platform more_sharing shared_doc)
one_step = next here shared_doc-DrawsFreshIds more_sharing refl

Reaches-IsConsistent_example : StateIsConsistent (run platform more_sharing shared_doc)
Reaches-IsConsistent_example = Reaches-IsConsistent platform shared_doc-IsConsistent one_step

pub shared_doc-RefsArePlain : RefsArePlain shared_doc
unfolding has_no_colon
shared_doc-RefsArePlain = (
  λ r m. elim m [ inl e ↦ rw e (refl, refl) | inr n ↦ absurd n ],
  λ g m. elim m [ inl e ↦ rw e (refl, refl) | inr n ↦ absurd n ],
)

reconcile_counts_iff_example : (reconcile_counts shared_doc ≡ []) ↔ RowsAgree shared_doc
reconcile_counts_iff_example = reconcile_counts_iff shared_doc shared_doc-RefsArePlain

pub shown_zero : (n : ℕ) → (shown n == "0") ≡ nat_eq n 0
shown_zero zero = refl
shown_zero (suc n) = ground arith
