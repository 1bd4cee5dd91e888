-- ===== src/Staging/Units.antt =====
-- Texts of imported files as the code units that `text[i]` reads, and what the parsers ask of them.
use qwbe.Prelude.{
  ℕ, zero, suc, ◌+◌, ◌/◌, ◌%◌, Bool, true, false, ◌&&◌, List, [], ◌∷◌, ◌++◌, is_space, nat_eq, ltb,
  all,
}

abbrev pub Units : Type 0
Units = List ℕ

abbrev pub quote : ℕ
quote = 34

abbrev pub comma : ℕ
comma = 44

abbrev pub line_feed : ℕ
line_feed = 10

abbrev pub carriage_return : ℕ
carriage_return = 13

-- `a === b`
abbrev pub same_units : Units → Units → Bool
same_units [] [] = true
same_units [] (d ∷ b) = false
same_units (c ∷ a) [] = false
same_units (c ∷ a) (d ∷ b) = nat_eq c d && same_units a b

-- `text.trim() === ""`
unfoldable pub is_blank : Units → Bool
is_blank text = all is_space text

trim_start : Units → Units
trim_start [] = []
trim_start (c ∷ s) = elim (is_space c) [ true ↦ trim_start s | false ↦ c ∷ s ]

abbrev cons_unless_blank : Bool → ℕ → Units → Units
cons_unless_blank true c [] = []
cons_unless_blank true c (d ∷ s) = c ∷ d ∷ s
cons_unless_blank false c s = c ∷ s

trim_end : Units → Units
trim_end [] = []
trim_end (c ∷ s) = cons_unless_blank (is_space c) c (trim_end s)

-- `text.trim()`
unfoldable pub trim_units : Units → Units
unfolding trim_start trim_end
trim_units s = trim_end (trim_start s)

-- the decimal digits of a number, with fuel for them
digits : ℕ → ℕ → Units
digits zero n = []
digits (suc fuel) n = elim (ltb n 10) [
  | true ↦ (48 + n) ∷ []
  | false ↦ digits fuel (n / 10) ++ (48 + n % 10) ∷ []
]

-- a number in a template string; a number below 10 ^ k has at most k digits, so n + 1 is enough fuel
unfoldable pub decimal : ℕ → Units
unfolding digits
decimal n = digits (suc n) n

-- how many line ends a text holds
abbrev pub line_feeds : Units → ℕ
line_feeds [] = 0
line_feeds (c ∷ s) = (elim (nat_eq c line_feed) [ true ↦ 1 | false ↦ 0 ]) + line_feeds s

split_from : Units → Units → List Units
split_from part [] = part ∷ []
split_from part (c ∷ s) = elim (nat_eq c line_feed) [
  | true ↦ part ∷ split_from [] s
  | false ↦ split_from (part ++ c ∷ []) s
]

-- `text.split("\n")`
unfoldable pub lines_of : Units → List Units
unfolding split_from
lines_of s = split_from [] s
