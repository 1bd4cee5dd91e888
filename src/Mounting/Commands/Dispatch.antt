-- ===== src/Mounting/Commands/Dispatch.antt =====
-- core/src/kernel/discovery.ts, runner.invoke: when a command runs.
use qwbe.Prelude.{
  ◌≤◌, ◌<◌, String, Bool, true, false, ◌≡◌, refl, sym, ap, subst, eq_iff, ◌∙◌, ◌&&◌, inl, inr, none,
  some, or_else, List, [], ◌∷◌, ◌==◌, arith, any, any-filter, contains, length, ltb, IsIn,
  IsIn-of_filter, Bool-cases, Option-cases,
}
use mathlib.Core.Option.{some-injective}
use qwbe.Mounting.Names.{command_owner}
use qwbe.Mounting.Manifest.{CommandSpec}
use qwbe.Mounting.Commands.{
  Invoked, unknown_command, not_allowed, too_many_args, ran, live_specs, command_named, invoke,
}

command_named-IsIn :
    (name : String) (cs : List CommandSpec) (c : CommandSpec)
    → command_named name cs ≡ some c
    → IsIn c cs × ((c.name == name) ≡ true)
unfolding command_named
command_named-IsIn name [] c h = absurd (cc)
command_named-IsIn name (x ∷ cs) c h = elim (Option-cases (command_named name cs)) [
  | inr (d, later) ↦
      let e : d ≡ c = some-injective d c (rw later at h) in
      let (i, k) = command_named-IsIn name cs c (later ∙ ap some e) in (inr i, k)
  | inl last ↦ elim (Bool-cases (x.name == name)) [
    | inl here ↦
        let e : x ≡ c = some-injective x c (rw (last, here) at h) in (inl (sym e), rw (← e) here)
    | inr other ↦ absurd (ground (arith, last, other, h))
  ]
]

command_named-none :
    (name : String) (cs : List CommandSpec)
    → command_named name cs ≡ none
    → any (λ (c : CommandSpec). c.name == name) cs ≡ false
unfolding command_named
command_named-none name [] h = refl
command_named-none name (x ∷ cs) h = elim (Option-cases (command_named name cs)) [
  | inr (d, later) ↦ absurd (ground (arith, later, h))
  | inl last ↦ ground (arith, last, h, command_named-none name cs last)
]

module _ {W : Type 0} (run : CommandSpec → List String → List String → W → W × String × Bool)
    (is_enabled : String → Bool) (commands : List CommandSpec) (name : String)
    (args permissions : List String) (w : W) where
  -- The command of the name that counts: declared, and of a cube that is enabled.
  abbrev pub IsLive : CommandSpec → Type 0
  IsLive c = IsIn c commands × ((c.name == name) ≡ true) × (is_enabled (command_owner name) ≡ true)

  abbrev pub InvokeEnds : Invoked × W → Type 0
  InvokeEnds (unknown_command, w') =
      (w' ≡ w)
      × (any (λ (c : CommandSpec). is_enabled (command_owner c.name) && c.name == name) commands
          ≡ false)
  InvokeEnds (not_allowed permission, w') =
      (w' ≡ w)
      × ((c : CommandSpec) × IsLive c
          × (c.permission ≡ permission)
          × (contains permissions permission ≡ false))
  InvokeEnds (too_many_args allowed got, w') =
      (w' ≡ w)
      × ((c : CommandSpec) × IsLive c × (contains permissions c.permission ≡ true))
      × (allowed < got)
      × (got ≡ length args)
  InvokeEnds (ran output succeeded, w') =
      (c : CommandSpec) × IsLive c
      × (contains permissions c.permission ≡ true)
      × (length args ≤ or_else c.max_args 0)
      × (run c args permissions w ≡ (w', output, succeeded))

  named-IsLive :
      (c : CommandSpec) → command_named name (live_specs is_enabled commands) ≡ some c → IsLive c
  unfolding live_specs
  named-IsLive c h =
      let (i, k) = command_named-IsIn name (live_specs is_enabled commands) c h in
      let (j, e) =
        IsIn-of_filter (λ (c : CommandSpec). is_enabled (command_owner c.name)) c commands i in
      (j, k, subst (λ n. is_enabled (command_owner n) ≡ true) ((eq_iff c.name name).0 k) e)

  live_specs-none :
      command_named name (live_specs is_enabled commands) ≡ none
      → any (λ (c : CommandSpec). is_enabled (command_owner c.name) && c.name == name) commands
        ≡ false
  unfolding live_specs
  live_specs-none h =
      sym (
        any-filter (λ (c : CommandSpec). is_enabled (command_owner c.name))
          (λ (c : CommandSpec). c.name == name) commands)
      ∙ command_named-none name (live_specs is_enabled commands) h

  -- `invoke` runs a command only if its cube is enabled, the caller holds its permission, and no
  -- more arguments are given than it takes; a refusal runs nothing, and says which of these fails.
  pub invoke-InvokeEnds : InvokeEnds (invoke run is_enabled commands name args permissions w)
  unfolding invoke
  invoke-InvokeEnds = elim (Option-cases (command_named name (live_specs is_enabled commands))) [
    | inl missing ↦ rw missing (refl, live_specs-none missing)
    | inr (c, found) ↦ elim (Bool-cases (contains permissions c.permission)) [
      | inr denied ↦ rw (found, denied) (refl, (c, named-IsLive c found, refl, denied))
      | inl may ↦ elim (Bool-cases (ltb (or_else c.max_args 0) (length args))) [
        | inl many ↦
            rw (found, may, many) (refl, (c, named-IsLive c found, may), ground arith, refl)
        | inr few ↦ rw (found, may, few) (c, named-IsLive c found, may, ground arith, refl)
      ]
    ]
  ]
