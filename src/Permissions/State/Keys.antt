-- ===== src/Permissions/State/Keys.antt =====
-- `entityKeyOf` joins the three parts of a ref by colons: it tells refs apart whose cube and entity
-- type hold no colon.
use Prim.Native.Char.{Char, code}
use Prim.Native.String
use text.Mathlib.TextLemmas.{nil-append, cons-append, cons-eq-cons, append_assoc}
use qwbe.Prelude.{String, Bool, true, not, ◌≡◌, refl, sym, ap, ◌∙◌, ◌&&◌, arith, nat_eq}
use qwbe.Permissions.Model.{EntityRef}
use qwbe.Permissions.State.{entity_key_of}

-- The text has no colon.
unfoldable pub has_no_colon : String → Bool
has_no_colon String.[] = true
has_no_colon (String.◌∷◌ c s) = not (nat_eq (code c) b':') && has_no_colon s

abbrev pub after_colon : String → String → String
after_colon s u = String.◌++◌ s (String.◌++◌ ":" u)

colon_cons : (u : String) → String.◌++◌ ":" u ≡ String.◌∷◌ ":" u
colon_cons u = cons-append ":" "" u ∙ ap (λ t. String.◌∷◌ ":" t) (nil-append u)

after_colon-cons :
    (c : Char) (s u : String) → after_colon (String.◌∷◌ c s) u ≡ String.◌∷◌ c (after_colon s u)
after_colon-cons c s u = cons-append c s (String.◌++◌ ":" u)

after_colon-nil : (u : String) → after_colon "" u ≡ String.◌∷◌ ":" u
after_colon-nil u = nil-append (String.◌++◌ ":" u) ∙ colon_cons u

-- The first colon ends the first part.
after_colon-injective :
    (s t u v : String)
    → has_no_colon s ≡ true
    → has_no_colon t ≡ true
    → after_colon s u ≡ after_colon t v
    → (s ≡ t) × (u ≡ v)
unfolding has_no_colon
after_colon-injective String.[] String.[] u v hs ht e =
    (refl, (cons-eq-cons.0 (sym (after_colon-nil u) ∙ e ∙ after_colon-nil v)).1)
after_colon-injective String.[] (String.◌∷◌ d t) u v hs ht e =
    let (same, rest) = cons-eq-cons.0 (sym (after_colon-nil u) ∙ e ∙ after_colon-cons d t v) in
    absurd (cc (ht, ap (λ c. nat_eq (code c) b':') same))
after_colon-injective (String.◌∷◌ c s) String.[] u v hs ht e =
    let (same, rest) = cons-eq-cons.0 (sym (after_colon-cons c s u) ∙ e ∙ after_colon-nil v) in
    absurd (cc (hs, ap (λ d. nat_eq (code d) b':') same))
after_colon-injective (String.◌∷◌ c s) (String.◌∷◌ d t) u v hs ht e =
    let (same, rest) = cons-eq-cons.0 (sym (after_colon-cons c s u) ∙ e ∙ after_colon-cons d t v) in
    let (parts, tails) = after_colon-injective s t u v (ground arith) (ground arith) rest in
    (cons-eq-cons.1 (same, parts), tails)

-- The part of a ref that must hold no colon.
abbrev pub IsPlain : EntityRef → Type 0
IsPlain ref = (has_no_colon ref.cube ≡ true) × (has_no_colon ref.entity_type ≡ true)

-- Two refs whose cube and entity type hold no colon have one key only if they are one ref.
pub entity_key_of-injective :
    (a b : EntityRef) → IsPlain a → IsPlain b → entity_key_of a ≡ entity_key_of b → a ≡ b
unfolding entity_key_of
entity_key_of-injective a b pa pb e =
    let (cubes, rest) =
      after_colon-injective a.cube b.cube (after_colon a.entity_type a.entity_id)
        (after_colon b.entity_type b.entity_id) pa.0 pb.0 e in
    let (types, ids) =
      after_colon-injective a.entity_type b.entity_type a.entity_id b.entity_id pa.1 pb.1 rest in
    cc (cubes, types, ids)

-- In general two entities share a key: the key does not show which colon ends the entity type.
pub entity_key_of-collides :
    (cube s t u : String)
    → entity_key_of (record { cube = cube; entity_type = s; entity_id = after_colon t u })
      ≡ entity_key_of (record { cube = cube; entity_type = after_colon s t; entity_id = u })
unfolding entity_key_of
entity_key_of-collides cube s t u =
    ap (λ x. String.◌++◌ cube (String.◌++◌ ":" x))
      (sym (
        append_assoc s (String.◌++◌ ":" t) (String.◌++◌ ":" u)
        ∙ ap (String.◌++◌ s) (append_assoc ":" t (String.◌++◌ ":" u))))
