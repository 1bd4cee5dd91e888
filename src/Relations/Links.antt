-- ===== src/Relations/Links.antt =====
-- core/src/kernel/space.ts: a link is active where both its ends are mounted and on.
use qwbe.Prelude.{
  String, Bool, true, false, ◌≡◌, refl, sym, ap, ◌∙◌, ◌&&◌, is_some, List, [], ◌∷◌, ◌++◌, ◌==◌,
  arith, subst, eq_iff, IsIn-of_any, &&_true, filter, filter-append, append-eq-nil, IsIn, inl, inr,
  Option-cases,
}
use qwbe.Relations.Spaces.{
  Link, SpaceDefinition, Holder, has_cube, has_entity, dangles, dangling_in, dangling_links,
  holder_of, is_active, is_on, active_links,
}

-- All links of the spaces, in order.
abbrev pub all_links : List SpaceDefinition → List Link
all_links [] = []
all_links (s ∷ ss) = s.links ++ all_links ss

is_some-holder_of :
    (cubes : List Holder) (entity : String)
    → is_some (holder_of cubes entity) ≡ has_entity cubes entity
unfolding holder_of
is_some-holder_of [] entity = refl
is_some-holder_of (c ∷ cs) entity = ground (arith, is_some-holder_of cs entity)

active_links-eq-filter :
    (ss : List SpaceDefinition) (cubes : List Holder) (is_enabled : String → Bool)
    → active_links ss cubes is_enabled ≡ filter (is_active cubes is_enabled) (all_links ss)
unfolding active_links
active_links-eq-filter [] cubes is_enabled = refl
active_links-eq-filter (s ∷ ss) cubes is_enabled =
    ap (◌++◌ (filter (is_active cubes is_enabled) s.links))
      (active_links-eq-filter ss cubes is_enabled)
    ∙ sym (filter-append (is_active cubes is_enabled) s.links (all_links ss))

module _ (cubes : List Holder) (is_enabled : String → Bool) where
  -- Every mounted cube is on, and has a name.
  abbrev pub AllOn : Type 0
  AllOn = (c : Holder) → IsIn c cubes → (is_enabled c.name ≡ true) × ((c.name == "") ≡ false)

  holder_of-is_on :
      (cs : List Holder) (entity : String)
      → ((c : Holder) → IsIn c cs → (is_enabled c.name ≡ true) × ((c.name == "") ≡ false))
      → is_on is_enabled (holder_of cs entity) ≡ has_entity cs entity
  unfolding holder_of
  holder_of-is_on [] entity on = refl
  holder_of-is_on (c ∷ cs) entity on =
      let rest = holder_of-is_on cs entity (λ x i. on x (inr i)) in
      let (enabled, named) = on c (inl refl) in
      elim (Option-cases (holder_of cs entity)) [
        | inl last ↦ ground (arith, last, rest, enabled, named)
        | inr (n, later) ↦ ground (arith, later, rest, is_some-holder_of cs entity)
      ]

  has_cube-is_enabled :
      (cs : List Holder) (name : String)
      → ((c : Holder) → IsIn c cs → (is_enabled c.name ≡ true) × ((c.name == "") ≡ false))
      → has_cube cs name ≡ true
      → is_enabled name ≡ true
  has_cube-is_enabled cs name on h =
      let (c, i, k) = IsIn-of_any (λ (c : Holder). c.name == name) cs h in
      subst (λ n. is_enabled n ≡ true) ((eq_iff c.name name).0 k) (on c i).0

  is_active-of_dangles :
      AllOn
      → (space : String) (l : Link) → dangles cubes space l ≡ []
      → is_active cubes is_enabled l ≡ true
  is_active-of_dangles on space l h =
      let both : (has_cube cubes l.from && has_entity cubes l.to) ≡ true = ground arith in
      let (source, target) = &&_true (has_cube cubes l.from) (has_entity cubes l.to) both in
      ground
        (arith, holder_of-is_on cubes l.to on, target, has_cube-is_enabled cubes l.from on source)

  dangling_in-eq-nil :
      AllOn
      → (space : String) (ls : List Link) → dangling_in cubes space ls ≡ []
      → filter (is_active cubes is_enabled) ls ≡ ls
  unfolding dangling_in
  dangling_in-eq-nil on space [] h = refl
  dangling_in-eq-nil on space (l ∷ ls) h =
      let (own, rest) = append-eq-nil (dangles cubes space l) (dangling_in cubes space ls) h in
      rw (is_active-of_dangles on space l own)
        (ap (λ t. l ∷ t) (dangling_in-eq-nil on space ls rest))

  -- Where all mounted cubes are on and no link is reported as dangling, every link of every space
  -- is active.
  pub active_links-whole :
      AllOn
      → (ss : List SpaceDefinition) → dangling_links ss cubes ≡ []
      → active_links ss cubes is_enabled ≡ all_links ss
  unfolding dangling_links active_links
  active_links-whole on [] h = refl
  active_links-whole on (s ∷ ss) h =
      let (own, rest) =
        append-eq-nil (dangling_in cubes s.name s.links) (dangling_links ss cubes) h in
      rw (dangling_in-eq-nil on s.name s.links own)
        (ap (◌++◌ s.links) (active_links-whole on ss rest))
