-- ===== src/Tests/Members.antt =====
-- The theorems about groups, cube admins, capabilities and views, each at one input.
use qwbe.Prelude.{true, String, false, not, ◌≡◌, refl, inl, none, List, [], ◌∷◌, ◌==◌, ◌&&◌}
use qwbe.Kernel.Where.{matches, full}
use qwbe.Kernel.Table.{Row, view}
use qwbe.Permissions.Model.{Actor, user, shared_with_me}
use qwbe.Permissions.State.{State, Group, Membership, CubeAdmin, Capability, ownership_fields}
use qwbe.Permissions.CubeAdmins.{revoke_cube_admin}
use qwbe.Permissions.CubeAdmins.Removal.{RevokeEnds, revoke_cube_admin-RevokeEnds}
use qwbe.Permissions.Groups.{remove_group_member}
use qwbe.Permissions.Groups.Removal.{RemoveEnds, remove_group_member-RemoveEnds}
use qwbe.Permissions.Capabilities.{revoke_capability_grant}
use qwbe.Permissions.Capabilities.Revocation.{LeavesNone, revoke_capability_grant-LeavesNone}
use qwbe.Permissions.Visibility.{visible_where}
use qwbe.Kernel.Paging.{PageRequest}
use qwbe.Permissions.Visibility.Listing.{IsWholePage, list_visible-IsWholePage}
use qwbe.Permissions.Visibility.Pages.{reach_of, visibility_for, list_visible, set_hidden}
use qwbe.Permissions.Visibility.Hiding.{HidingEnds, set_hidden-HidingEnds}
use qwbe.Permissions.Visibility.Predicate.{shows}
use qwbe.Permissions.Visibility.Facts.{visible_where-eq-visibility_for}
use qwbe.Tests.Permissions.{
  doc, platform, bob, owner_row, shared_doc, shown_zero, shared_doc-IsConsistent,
  shared_doc-RefsArePlain,
}

abbrev root : Actor
root = record { user_id = "root"; roles = "admin" ∷ [] }

abbrev staff : Row Group
staff = record {
  id = "grp-1";
  kind = "PermissionGroup";
  created_at = "t1";
  deleted = false;
  body = record { cube = "notes"; name = "staff"; created_by = "root" };
}

abbrev exports : Row Capability
exports = record {
  id = "cap-1";
  kind = "CapabilityGrant";
  created_at = "t1";
  deleted = false;
  body = record {
    cube = "notes";
    capability = "notes:export";
    subject = user "bob";
    subject_key = "user:bob";
    created_by = "root";
  };
}

abbrev with_staff : State
with_staff = record shared_doc { groups = staff ∷ []; capabilities = exports ∷ exports ∷ [] }

abbrev declared : List String
declared = "notes:export" ∷ []

revoke_capability_grant-LeavesNone_example :
    LeavesNone platform declared root "cap-1" with_staff
      (revoke_capability_grant platform declared root "cap-1" with_staff)
revoke_capability_grant-LeavesNone_example =
    revoke_capability_grant-LeavesNone platform declared root "cap-1" with_staff

visible_where-eq-visibility_for_example :
    matches platform
      (full (visible_where bob "notes" shared_with_me (reach_of platform bob "notes" shared_doc)))
      (view (ownership_fields platform) owner_row)
    ≡ (not owner_row.deleted
        && (owner_row.body.ref.cube == "notes"
            && shows shared_with_me "bob" (visibility_for platform bob owner_row shared_doc)))
visible_where-eq-visibility_for_example =
    visible_where-eq-visibility_for platform shown_zero shared_doc shared_doc-IsConsistent
      shared_doc-RefsArePlain (λ h m. absurd m) bob "notes" owner_row (inl refl) shared_with_me

abbrev first_page : PageRequest
first_page = record { offset = 0; limit = 10; sort_by = none; descending = false }

list_visible-IsWholePage_example :
    IsWholePage platform shown_zero shared_doc shared_doc-IsConsistent shared_doc-RefsArePlain
      (λ h m. absurd m)
      (λ rows. rows)
      (λ rows r m. m)
      bob
      "notes"
      shared_with_me
      first_page
      (list_visible platform
        (λ rows. rows)
        "createdAt"
        bob
        "notes"
        shared_with_me
        first_page
        shared_doc)
list_visible-IsWholePage_example =
    list_visible-IsWholePage platform shown_zero shared_doc shared_doc-IsConsistent
      shared_doc-RefsArePlain (λ h m. absurd m) (λ rows. rows) (λ rows r m. m) bob "notes"
      shared_with_me first_page "createdAt"

set_hidden-HidingEnds_example :
    HidingEnds platform bob doc true shared_doc (set_hidden platform bob doc true shared_doc)
set_hidden-HidingEnds_example = set_hidden-HidingEnds platform bob doc true shared_doc

abbrev bob_in_staff : Row Membership
bob_in_staff = record {
  id = "mem-1";
  kind = "GroupMembership";
  created_at = "t2";
  deleted = false;
  body = record { group_id = "grp-1"; user_id = "bob"; created_by = "root" };
}

abbrev staffed : State
staffed = record with_staff { memberships = bob_in_staff ∷ [] }

abbrev bob_as_admin : Row CubeAdmin
bob_as_admin = record {
  id = "cadm-1";
  kind = "CubeAdmin";
  created_at = "t2";
  deleted = false;
  body = record { cube = "notes"; user_id = "bob" };
}

abbrev administered : State
administered = record with_staff { cube_admins = bob_as_admin ∷ [] }

revoke_cube_admin-RevokeEnds_example :
    RevokeEnds platform root "notes" "bob" administered
      (revoke_cube_admin platform root "notes" "bob" administered)
revoke_cube_admin-RevokeEnds_example =
    revoke_cube_admin-RevokeEnds platform root "notes" "bob" administered

remove_group_member-RemoveEnds_example :
    RemoveEnds platform root "grp-1" "bob" staffed
      (remove_group_member platform root "grp-1" "bob" staffed)
remove_group_member-RemoveEnds_example =
    remove_group_member-RemoveEnds platform root "grp-1" "bob" staffed
