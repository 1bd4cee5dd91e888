-- ===== src/Mounting/Bus/Journal.antt =====
-- core/src/kernel/bus.ts: what the journal can hold, whatever is published.
use qwbe.Prelude.{
  ◌≤◌, String, Bool, true, not, ◌≡◌, refl, ◌&&◌, Option, List, [], ◌∷◌, ◌++◌, arith, all, length,
  length-append,
}
use qwbe.Mounting.Bus.{
  Bus, Subscriber, JournalEntry, impersonates, shifted, targets, publish, seal, subscribe,
}

-- The entry is not of the kernel's own channel, or the kernel published it.
abbrev pub is_honest : JournalEntry → Bool
is_honest e = not (impersonates e.published_by e.event)

shifted-length : (es : List JournalEntry) → length es ≤ 201 → length (shifted es) ≤ 200
unfolding shifted
shifted-length [] h = omega arith
shifted-length (e ∷ es) h = ground arith

shifted-all :
    (p : JournalEntry → Bool) (es : List JournalEntry) → all p es ≡ true → all p (shifted es) ≡ true
unfolding shifted
shifted-all p [] h = refl
shifted-all p (e ∷ es) h = ground arith

all-concat :
    (p : JournalEntry → Bool) (es : List JournalEntry) (e : JournalEntry)
    → all p (es ++ e ∷ []) ≡ (all p es && p e)
all-concat p [] e = ground arith
all-concat p (x ∷ es) e = ground (arith, all-concat p es e)

module _ {P W : Type 0} where
  abbrev pub IsJournalled : Bus P W → Type 0
  IsJournalled b = (length b.journal ≤ 200) × (all is_honest b.journal ≡ true)

  -- What happens to a bus: cubes subscribe, the kernel seals it, and anyone publishes.
  pub data Step : Bus P W → Bus P W → Type 0 where
    subscribes : (s : Subscriber P W) (b : Bus P W) → Step b (subscribe s b)
    seals : (b : Bus P W) → Step b (seal b)
    publishes :
        (is_enabled : String → Bool) (now by : String) (declared : Option (List String))
        (event : String) (payload : P) (w : W) (b : Bus P W)
        → Step b (publish is_enabled now by declared event payload b w).1

  pub data Reaches (a : Bus P W) : Bus P W → Type 0 where
    here : Reaches a a
    next : {b c : Bus P W} → Reaches a b → Step b c → Reaches a c

  publish-IsJournalled :
      (is_enabled : String → Bool) (now by : String) (declared : Option (List String))
      (event : String) (payload : P) (w : W) (b : Bus P W)
      → IsJournalled b
      → IsJournalled (publish is_enabled now by declared event payload b w).1
  unfolding publish
  publish-IsJournalled is_enabled now by declared event payload w b (short, honest) =
      let entry : JournalEntry = record {
        event = event;
        published_by = by;
        at = now;
        listeners = length (targets is_enabled event b.subscriptions);
      } in
      ground (
        arith,
        length-append b.journal (entry ∷ []),
        shifted-length (b.journal ++ entry ∷ []),
        all-concat is_honest b.journal entry,
        shifted-all is_honest (b.journal ++ entry ∷ []),
      )

  Step-IsJournalled : {b c : Bus P W} → Step b c → IsJournalled b → IsJournalled c
  Step-IsJournalled (subscribes s b) h = h
  Step-IsJournalled (seals b) h = h
  Step-IsJournalled (publishes is_enabled now by declared event payload w b) h =
      publish-IsJournalled is_enabled now by declared event payload w b h

  -- From an empty journal, however cubes subscribe and publish: the journal has 200 entries at
  -- most, and an entry of a `qwbe/` event is by the kernel.
  pub Reaches-IsJournalled : {a b : Bus P W} → a.journal ≡ [] → Reaches a b → IsJournalled b
  Reaches-IsJournalled e here = rw e (omega arith, refl)
  Reaches-IsJournalled e (next r st) = Step-IsJournalled st (Reaches-IsJournalled e r)
