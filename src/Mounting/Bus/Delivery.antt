-- ===== src/Mounting/Bus/Delivery.antt =====
-- core/src/kernel/bus.ts, publishFrom: when an event is refused, and whom it reaches.
use qwbe.Prelude.{
  ◌↔◌, IsIn-of_filter, String, Bool, true, false, not, ◌≡◌, refl, ◌&&◌, inl, inr, Option, List, [],
  ◌∷◌, ◌==◌, arith, IsIn, IsIn-filter, Bool-cases,
}
use qwbe.Mounting.Bus.{
  Bus, Subscriber, Published, during_mount, reserved, undeclared, delivered, is_declared,
  impersonates, targets, deliver, publish,
}

module _ {P W : Type 0} where
  -- The listeners run one after another, each on what those before it left.
  pub data AllHear (payload : P) : List (Subscriber P W) → W → W → Type 0 where
    nobody : (w : W) → AllHear payload [] w w
    hears :
        (s : Subscriber P W) (rest : List (Subscriber P W)) (w w' : W)
        → AllHear payload rest (s.handle payload w).0 w'
        → AllHear payload (s ∷ rest) w w'

  deliver-AllHear :
      (payload : P) (xs : List (Subscriber P W)) (w : W)
      → AllHear payload xs w (deliver payload xs w).0
  unfolding deliver
  deliver-AllHear payload [] w = nobody w
  deliver-AllHear payload (s ∷ rest) w =
      hears s rest w (deliver payload rest (s.handle payload w).0).0
        (deliver-AllHear payload rest (s.handle payload w).0)

  module _ (is_enabled : String → Bool) (now by : String) (declared : Option (List String))
      (event : String) (payload : P) where
    abbrev pub may_publish : Bus P W → Bool
    may_publish b = b.sealed && (not (impersonates by event) && is_declared declared event)

    -- The subscription is to the event, and of a cube that is enabled.
    abbrev pub is_listener : Subscriber P W → Bool
    is_listener s = s.event == event && is_enabled s.cube

    -- Exactly the listeners among the subscriptions hear of it.
    abbrev pub AreListeners : List (Subscriber P W) → List (Subscriber P W) → Type 0
    AreListeners subscriptions heard =
        (s : Subscriber P W) → (IsIn s subscriptions × (is_listener s ≡ true)) ↔ IsIn s heard

    abbrev pub PublishEnds : Bus P W → W → Published × Bus P W × W → Type 0
    PublishEnds b w (delivered failed, b', w') =
        (may_publish b ≡ true)
        × ((heard : List (Subscriber P W)) × AreListeners b.subscriptions heard
            × AllHear payload heard w w')
        × (b'.subscriptions ≡ b.subscriptions)
    PublishEnds b w (during_mount, b', w') = (may_publish b ≡ false) × (b' ≡ b) × (w' ≡ w)
    PublishEnds b w (reserved, b', w') = (may_publish b ≡ false) × (b' ≡ b) × (w' ≡ w)
    PublishEnds b w (undeclared, b', w') = (may_publish b ≡ false) × (b' ≡ b) × (w' ≡ w)

    targets-AreListeners :
        (xs : List (Subscriber P W)) → AreListeners xs (targets is_enabled event xs)
    targets-AreListeners xs s =
        (λ (i, h). IsIn-filter is_listener s xs i h, λ i. IsIn-of_filter is_listener s xs i)

    -- `publish` is refused before the bus is sealed, for a `qwbe/` event of anyone but the kernel,
    -- and for an event that the publisher did not declare, and then nothing happens; otherwise
    -- exactly the listeners of enabled cubes to the event run on the payload, one after another,
    -- whichever of them fails.
    pub publish-PublishEnds :
        (b : Bus P W) (w : W)
        → PublishEnds b w (publish is_enabled now by declared event payload b w)
    unfolding publish
    publish-PublishEnds b w = elim (Bool-cases b.sealed) [
      | inr open_bus ↦ rw open_bus (refl, refl, refl)
      | inl sealed ↦ elim (Bool-cases (impersonates by event)) [
        | inl foreign ↦ rw (sealed, foreign) (ground (arith, foreign), refl, refl)
        | inr own ↦ elim (Bool-cases (is_declared declared event)) [
          | inr silent ↦ rw (sealed, own, silent) (ground (arith, own, silent), refl, refl)
          | inl said ↦
              rw (sealed, own, said)
                (
                  ground (arith, own, said),
                  (
                    targets is_enabled event b.subscriptions,
                    targets-AreListeners b.subscriptions,
                    deliver-AllHear payload (targets is_enabled event b.subscriptions) w,
                  ),
                  refl,
                )
        ]
      ]
    ]
