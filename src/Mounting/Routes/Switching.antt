-- ===== src/Mounting/Routes/Switching.antt =====
-- core/src/kernel/routes.ts, mount.ts: a request is ruled by the switch of the one cube whose first
-- route has its prefix.
use qwbe.Prelude.{
  true-ne-false, any, all, any-of_IsIn, all-of_IsIn, not, eq_refl, String, Bool, true, false, ◌≡◌,
  refl, sym, ap, ◌∙◌, ◌&&◌, ◌||◌, inl, inr, Option, none, some, List, [], ◌∷◌, ◌==◌, arith, eq_iff,
  contains, IsIn, Bool-cases, Option-cases,
}
use mathlib.Core.Option.{some-injective}
use qwbe.Mounting.Routes.{
  MountedCube, route_prefix_of, served_prefixes, repeated, keys, route_problems,
  check_route_ownership, owner_of, url_prefix, cube_owner, reject_disabled, is_off,
}

none-ne-some : (n : String) → none ≡ some n → ⊥
none-ne-some n h = cc

-- A key that is not among the keys has no owner.
owner_of-none :
    (entries : List (String × String)) (p : String)
    → contains (keys entries) p ≡ false
    → owner_of entries p ≡ none
unfolding owner_of
owner_of-none [] p h = refl
owner_of-none ((k, n) ∷ entries) p h = ground (arith, owner_of-none entries p)

owner_of-IsIn :
    (entries : List (String × String)) (p n : String)
    → repeated (keys entries) ≡ none
    → IsIn (p, n) entries
    → owner_of entries p ≡ some n
unfolding owner_of repeated
owner_of-IsIn [] p n h i = absurd i
owner_of-IsIn ((k, m) ∷ entries) p n h (inl e) = ground (
  arith,
  ap (λ (t : String × String). t.0) e,
  ap (λ (t : String × String). t.1) e,
  owner_of-none entries k,
  eq_iff k p,
)
owner_of-IsIn ((k, m) ∷ entries) p n h (inr i) =
    ground (arith, owner_of-IsIn entries p n (ground arith) i)

owner_of-some :
    (entries : List (String × String)) (p n : String)
    → owner_of entries p ≡ some n
    → IsIn (p, n) entries
unfolding owner_of
owner_of-some [] p n h = cc
owner_of-some ((k, m) ∷ entries) p n h = elim (Option-cases (owner_of entries p)) [
  | inr (later, found) ↦
      inr (owner_of-some entries p n (found ∙ ap some (some-injective later n (rw found at h))))
  | inl last ↦ elim (Bool-cases (k == p)) [
    | inl same ↦
        inl (ground (arith, (eq_iff k p).0 same, some-injective m n (rw (last, same) at h)))
    | inr other ↦ absurd (ground (arith, h, last, other))
  ]
]

served_prefixes-IsIn :
    (cubes : List MountedCube) (c : MountedCube) (p : String)
    → IsIn c cubes
    → route_prefix_of c ≡ some p
    → IsIn (p, c.name) (served_prefixes cubes)
unfolding served_prefixes
served_prefixes-IsIn [] c p i h = absurd i
served_prefixes-IsIn (x ∷ cubes) c p (inl e) h = rw (← e, h) (inl refl)
served_prefixes-IsIn (x ∷ cubes) c p (inr i) h = elim (Option-cases (route_prefix_of x)) [
  | inl idle ↦ rw idle (served_prefixes-IsIn cubes c p i h)
  | inr (q, serves) ↦ rw serves (inr (served_prefixes-IsIn cubes c p i h))
]

served_prefixes-cube :
    (cubes : List MountedCube) (p n : String)
    → IsIn (p, n) (served_prefixes cubes)
    → (c : MountedCube) × IsIn c cubes × (route_prefix_of c ≡ some p) × (c.name ≡ n)
unfolding served_prefixes
served_prefixes-cube [] p n i = absurd i
served_prefixes-cube (x ∷ cubes) p n i = elim (Option-cases (route_prefix_of x)) [
  | inl idle ↦ let (c, j, r, e) = served_prefixes-cube cubes p n (rw idle at i) in (c, inr j, r, e)
  | inr (q, serves) ↦ elim (rw serves at i) [
    | inl e ↦ (
      x,
      inl refl,
      serves ∙ ap some (sym (ap (λ (t : String × String). t.0) e)),
      sym (ap (λ (t : String × String). t.1) e),
    )
    | inr j ↦ let (c, k, r, e) = served_prefixes-cube cubes p n j in (c, inr k, r, e)
  ]
]

-- What the checks of the routes leave.
pub check_route_ownership-none :
    (cubes : List MountedCube)
    → check_route_ownership cubes ≡ none
    → (route_problems cubes ≡ []) × (repeated (keys (served_prefixes cubes)) ≡ none)
unfolding check_route_ownership
check_route_ownership-none cubes h = ground (arith, h)

abbrev is_prefix : String → Option String → Bool
is_prefix p none = false
is_prefix p (some q) = q == p

-- The cube's first route has the prefix.
abbrev pub serves_prefix : String → MountedCube → Bool
serves_prefix p c = is_prefix p (route_prefix_of c)

serves_prefix-route_prefix_of :
    (p : String) (c : MountedCube) → serves_prefix p c ≡ true → route_prefix_of c ≡ some p
serves_prefix-route_prefix_of p c h = elim (Option-cases (route_prefix_of c)) [
  | inl idle ↦ absurd (true-ne-false (sym (rw idle at h)))
  | inr (q, serves) ↦ serves ∙ ap some ((eq_iff q p).0 (rw serves at h))
]

module _ (cubes : List MountedCube) (is_enabled : String → Bool) (url p : String) where
  -- A request is rejected where a cube that is off serves its prefix with its first route, and passed on where
  -- each cube that does so is on, or has no name.
  abbrev pub Rejects : Bool → Type 0
  Rejects true =
      any (λ (c : MountedCube). serves_prefix p c && not (is_enabled c.name)) cubes ≡ true
  Rejects false =
      all (λ (c : MountedCube). not (serves_prefix p c) || (is_enabled c.name || c.name == ""))
        cubes
      ≡ true

  Rejects-is_off :
      (o : Option String)
      → owner_of (served_prefixes cubes) p ≡ o
      → repeated (keys (served_prefixes cubes)) ≡ none
      → Rejects (is_off is_enabled o)
  Rejects-is_off none h once =
      all-of_IsIn
        (λ (c : MountedCube). not (serves_prefix p c) || (is_enabled c.name || c.name == "")) cubes
        (λ c i. elim (Bool-cases (serves_prefix p c)) [
          | inr idle ↦ ground (arith, idle)
          | inl serves ↦ absurd (
              none-ne-some c.name (
                sym h
                ∙ owner_of-IsIn (served_prefixes cubes) p c.name once
                    (served_prefixes-IsIn cubes c p i (serves_prefix-route_prefix_of p c serves))))
        ])
  Rejects-is_off (some n) h once = elim (Bool-cases (is_off is_enabled (some n))) [
    | inl off ↦
        let (c, i, serves, e) =
          served_prefixes-cube cubes p n (owner_of-some (served_prefixes cubes) p n h) in
        rw off (
          any-of_IsIn (λ (c : MountedCube). serves_prefix p c && not (is_enabled c.name)) c cubes i
            (ground (arith, off, e, ap (is_prefix p) serves, eq_refl p, ap is_enabled e)))
    | inr on ↦ rw on (
        all-of_IsIn
          (λ (c : MountedCube). not (serves_prefix p c) || (is_enabled c.name || c.name == ""))
          cubes
          (λ c i. elim (Bool-cases (serves_prefix p c)) [
            | inr idle ↦ ground (arith, idle)
            | inl serves ↦
                let e : n ≡ c.name = some-injective n c.name (
                  sym h
                  ∙ owner_of-IsIn (served_prefixes cubes) p c.name once (
                      served_prefixes-IsIn cubes c p i
                        (serves_prefix-route_prefix_of p c serves))) in
                ground (arith, on, e, ap is_enabled e, ap (λ s. s == "") e)
          ]))
  ]

  -- Where `checkRouteOwnership` finds no fault, a request is rejected before any handler exactly if a cube whose
  -- first route has the prefix of the request is off; the prefixes of a cube's other routes do not
  -- count.
  pub reject_disabled-Rejects :
      check_route_ownership cubes ≡ none
      → url_prefix url ≡ some p
      → Rejects (reject_disabled cubes is_enabled url)
  unfolding cube_owner reject_disabled
  reject_disabled-Rejects h u = rw u (
      Rejects-is_off (owner_of (served_prefixes cubes) p) refl
        (check_route_ownership-none cubes h).1)
