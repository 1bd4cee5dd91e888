-- ===== src/Mounting/Manifest/Owners.antt =====
-- core/src/kernel/manifest-validation.ts: whose permissions and commands the names are.
use Prim.Native.String
use qwbe.Prelude.{
  all, all-of_IsIn, eq_refl, append-eq-nil, String, true, ◌≡◌, refl, ap, ◌∙◌, ◌&&◌, Option, none,
  some, or_else, List, [], ◌∷◌, ◌++◌, ◌==◌, arith, IsIn, lacks, lacks-append, split-head,
  Bool-cases, inl, inr,
}
use qwbe.Mounting.Names.{all_slug, is_name, full_name, command_owner}
use qwbe.Mounting.Manifest.{
  Manifest, PermissionSpec, CommandSpec, full, has_prefix, declares, names_parent,
  foreign_permissions, indexed_reasons, validate_manifest, repeated_commands, bad_commands,
  validate_commands,
}

-- A slug has no colon.
all_slug-lacks : (s : String) → all_slug s ≡ true → lacks b':' s ≡ true
unfolding all_slug lacks
all_slug-lacks String.[] h = refl
all_slug-lacks (String.◌∷◌ c s) h = ground (arith, all_slug-lacks s)

is_name-lacks : (s : String) → is_name s ≡ true → lacks b':' s ≡ true
unfolding is_name lacks
is_name-lacks String.[] h = refl
is_name-lacks (String.◌∷◌ c s) h = ground (arith, all_slug-lacks s)

slash_lacks : lacks b':' "/" ≡ true
unfolding lacks
slash_lacks = refl

pub full_name-lacks :
    (name : String) (parent : Option String)
    → is_name name ≡ true
    → names_parent parent ≡ true
    → lacks b':' (full_name name parent) ≡ true
unfolding full_name
full_name-lacks name none n p = is_name-lacks name n
full_name-lacks name (some parent) n p = elim (Bool-cases (parent == "")) [
  | inl bare ↦ rw bare (is_name-lacks name n)
  | inr child ↦ rw child (
      lacks-append b':' parent (String.◌++◌ "/" name)
      ∙ ground (
        arith,
        is_name-lacks parent p,
        is_name-lacks name n,
        lacks-append b':' "/" name,
        slash_lacks,
      ))
]

foreign_permissions-IsIn :
    (cube : String) (ps : List PermissionSpec) (p : PermissionSpec)
    → foreign_permissions cube ps ≡ []
    → IsIn p ps
    → has_prefix cube p.name ≡ true
unfolding foreign_permissions
foreign_permissions-IsIn cube [] p h i = absurd i
foreign_permissions-IsIn cube (x ∷ ps) p h (inl e) = rw e (ground arith)
foreign_permissions-IsIn cube (x ∷ ps) p h (inr i) =
    foreign_permissions-IsIn cube ps p (ground arith) i

pub bad_commands-IsIn :
    (m : Manifest) (cs : List CommandSpec) (c : CommandSpec)
    → bad_commands m cs ≡ []
    → IsIn c cs
    → (has_prefix (full m) c.name ≡ true) × (declares m c.permission ≡ true)
unfolding bad_commands
bad_commands-IsIn m [] c h i = absurd i
bad_commands-IsIn m (x ∷ cs) c h (inl e) = rw e (ground arith)
bad_commands-IsIn m (x ∷ cs) c h (inr i) = bad_commands-IsIn m cs c (ground arith) i

pub command_owner-has_prefix :
    (cube name : String)
    → lacks b':' cube ≡ true
    → has_prefix cube name ≡ true
    → command_owner name ≡ cube
unfolding command_owner
command_owner-has_prefix cube name l h = ap (λ o. or_else o "") (split-head ":" cube name l h)

pub validate_manifest-eq-nil :
    (directory : String) (m : Manifest)
    → validate_manifest directory m ≡ []
    → (is_name m.name ≡ true)
      × (names_parent m.parent ≡ true)
      × (foreign_permissions (full m) m.permissions ++ indexed_reasons m.tables m.indexed ≡ [])
unfolding validate_manifest
validate_manifest-eq-nil directory m h = ground arith

-- Where `validateManifest` and `validateCommands` find no fault in a cube: the part before the
-- first colon of each of its commands, by which the kernel finds the cube whose switch rules the
-- command, is the cube itself; so it is for each permission; each command demands a permission
-- that the cube declares.
pub validate_commands-owner :
    (directory : String) (m : Manifest) (commands : List CommandSpec)
    → validate_manifest directory m ≡ []
    → validate_commands m commands ≡ []
    → (all (λ (c : CommandSpec). command_owner c.name == full m && declares m c.permission) commands
        ≡ true)
      × (all (λ (p : PermissionSpec). command_owner p.name == full m) m.permissions ≡ true)
unfolding validate_commands
validate_commands-owner directory m commands h k =
    let (named, parent, rest) = validate_manifest-eq-nil directory m h in
    let l : lacks b':' (full m) ≡ true = full_name-lacks m.name m.parent named parent in
    let bad = (append-eq-nil (repeated_commands [] commands) (bad_commands m commands) k).1 in
    let own = (append-eq-nil (foreign_permissions (full m) m.permissions) _ rest).0 in
    (
      all-of_IsIn (λ (c : CommandSpec). command_owner c.name == full m && declares m c.permission)
          commands
          (λ c i.
            let (prefixed, declared) = bad_commands-IsIn m commands c bad i in
            rw (command_owner-has_prefix (full m) c.name l prefixed, declared, eq_refl (full m))
              refl),
      all-of_IsIn (λ (p : PermissionSpec). command_owner p.name == full m) m.permissions
          (λ p i.
            rw
              (
                command_owner-has_prefix (full m) p.name l
                    (foreign_permissions-IsIn (full m) m.permissions p own i),
                eq_refl (full m),
              )
              refl),
    )
