-- ===== src/Kernel/Platform.antt =====
-- What the program takes from outside: drawn ids, the clock, and two answers of Postgres.
use qwbe.Prelude.{ℕ, String, Bool}

pub record Platform : Type 0 where
  -- `newId`: the id that the n-th draw of random bytes gives, behind a prefix.
  pub new_id : String → ℕ → String
  -- `DateTime.formatIso(yield* DateTime.now)` at the n-th draw.
  pub now : ℕ → String
  -- the text that `body ->> field` shows for a JSON number
  pub number_text : ℕ → String
  -- whether a text is `ILIKE` a pattern
  pub ilike : (pattern text : String) → Bool
