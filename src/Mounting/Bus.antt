-- ===== src/Mounting/Bus.antt =====
-- core/src/kernel/bus.ts: events by name, from the cubes that publish to those that listen. What
-- a listener does to the world outside, and whether it fails, is its own; the kernel's log of
-- failures is the list of the cubes that failed.
pub mod Delivery
pub mod Journal
use qwbe.Prelude.{
  ℕ, String, Bool, true, false, not, ◌&&◌, ◌||◌, Option, none, some, List, [], ◌∷◌, ◌++◌, ◌==◌,
  filter, map, contains, length, ltb, starts_with, if◌then◌else◌,
}

-- `JournalEntry`
pub record JournalEntry : Type 0 where
  pub event : String
  pub published_by : String
  pub at : String
  pub listeners : ℕ

-- The subscription of a cube: a listener gives the new world, and whether it came to its end.
pub record Subscriber (P W : Type 0) : Type 0 where
  pub cube : String
  pub event : String
  pub handle : P → W → W × Bool

-- The journal is kept with its oldest entry first.
pub record Bus (P W : Type 0) : Type 0 where
  pub subscriptions : List (Subscriber P W)
  pub journal : List JournalEntry
  pub sealed : Bool

-- A defect, or the cubes whose listeners failed.
pub data Published : Type 0 where
  during_mount reserved undeclared : Published
  delivered : List String → Published

-- `journal.shift()` past 200 entries
unfoldable pub shifted : List JournalEntry → List JournalEntry
shifted [] = []
shifted (e ∷ es) = if ltb 200 (length (e ∷ es)) then es else e ∷ es

-- an event of the kernel's own channel, from anyone else
unfoldable pub impersonates : String → String → Bool
impersonates by event = starts_with event "qwbe/" && not (by == "qwbe")

unfoldable pub is_declared : Option (List String) → String → Bool
is_declared none event = true
is_declared (some events) event = contains events event

module _ {P W : Type 0} where
  abbrev pub targets : (String → Bool) → String → List (Subscriber P W) → List (Subscriber P W)
  targets is_enabled event = filter (λ (s : Subscriber P W). s.event == event && is_enabled s.cube)

  -- the loop over the targets: a failure is logged, and the next listener runs
  unfoldable pub deliver : P → List (Subscriber P W) → W → W × List String
  deliver payload [] w = (w, [])
  deliver payload (s ∷ rest) w =
      let (w', ended) = s.handle payload w in
      let (last, failed) = deliver payload rest w' in
      (last, if ended then failed else s.cube ∷ failed)

  abbrev pub announce :
      (String → Bool) → String → String → String → P → Bus P W → W → Published × Bus P W × W
  announce is_enabled now by event payload b w =
      let found = targets is_enabled event b.subscriptions in
      let entry : JournalEntry = record {
        event = event;
        published_by = by;
        at = now;
        listeners = length found;
      } in
      let (w', failed) = deliver payload found w in
      (delivered failed, record b { journal = shifted (b.journal ++ entry ∷ []) }, w')

  -- `publishFrom`: the publisher and what it declared are fixed by the kernel
  unfoldable pub publish :
      (String → Bool)
      → String
      → String
      → Option (List String)
      → String
      → P
      → Bus P W
      → W
      → Published × Bus P W × W
  unfolding deliver shifted
  publish is_enabled now by declared event payload b w =
      if not b.sealed
      then (during_mount, b, w)
      else if impersonates by event
      then (reserved, b, w)
      else if not (is_declared declared event)
      then (undeclared, b, w)
      else announce is_enabled now by event payload b w

  -- `seal`
  abbrev pub seal : Bus P W → Bus P W
  seal b = record b { sealed = true }

  -- `subscriptions.push`, while the cubes are created
  abbrev pub subscribe : Subscriber P W → Bus P W → Bus P W
  subscribe s b = record b { subscriptions = b.subscriptions ++ s ∷ [] }
