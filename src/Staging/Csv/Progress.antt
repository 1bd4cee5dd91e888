-- ===== src/Staging/Csv/Progress.antt =====
-- A CSV record uses up text and counts the line ends it uses up.
use qwbe.Prelude.{ℕ, ◌+◌, ◌-◌, ◌≤◌, false, ◌≡◌, refl, ◌⊎◌, inl, inr, [], ◌∷◌, length, arith}
use mathlib.Core.Path.{subst}
use qwbe.Staging.Units.{Units, line_feeds}
use qwbe.Staging.Csv.{CsvRecord, Scan, Next, on, skip, ends, ends_pair, next_of, scan, csv_record}

-- What a step counts: the line ends among the code units that it passes.
abbrev Counts : Scan → ℕ → ℕ → Next → Type 0
Counts st c d (on st') = st'.newlines ≡ st.newlines + line_feeds (c ∷ [])
Counts st c d (skip st') = st'.newlines ≡ st.newlines + line_feeds (c ∷ d ∷ [])
Counts st c d (ends st') = st'.newlines ≡ st.newlines + line_feeds (c ∷ [])
Counts st c d (ends_pair st') = st'.newlines ≡ st.newlines + line_feeds (c ∷ d ∷ [])

next_of-Counts : (st : Scan) (c d : ℕ) (rest : Units) → Counts st c d (next_of st c (d ∷ rest))
next_of-Counts st c d rest = ground arith

-- At the last code unit no step looks further.
abbrev EndsAt : Scan → ℕ → Next → Type 0
EndsAt st c (on st') = st'.newlines ≡ st.newlines + line_feeds (c ∷ [])
EndsAt st c (skip st') = ⊥
EndsAt st c (ends st') = st'.newlines ≡ st.newlines + line_feeds (c ∷ [])
EndsAt st c (ends_pair st') = ⊥

next_of-EndsAt : (st : Scan) (c : ℕ) → EndsAt st c (next_of st c [])
next_of-EndsAt st c = ground arith

abbrev Passed : Scan → Units → CsvRecord → Type 0
Passed st text r =
    (r.newlines + line_feeds r.rest ≡ st.newlines + line_feeds text)
    × (length r.rest ≤ length text - 1)

-- Which step it is, with the state that it leads to.
abbrev IsStep : Next → Type 0
IsStep n =
    ((st : Scan) × (n ≡ on st))
    ⊎ ((st : Scan) × (n ≡ skip st))
    ⊎ ((st : Scan) × (n ≡ ends st))
    ⊎ ((st : Scan) × (n ≡ ends_pair st))

IsStep-of : (n : Next) → IsStep n
IsStep-of (on st) = inl (st, refl)
IsStep-of (skip st) = inr (inl (st, refl))
IsStep-of (ends st) = inr (inr (inl (st, refl)))
IsStep-of (ends_pair st) = inr (inr (inr (st, refl)))

scan-Passed : (st : Scan) (text : Units) → Passed st text (scan st text)
unfolding scan
scan-Passed st [] = ground arith
scan-Passed st (c ∷ []) =
    let counted = next_of-EndsAt st c in
    elim (IsStep-of (next_of st c [])) [
      | inl (st', e) ↦ rw (scan, e) (ground (arith, subst (EndsAt st c) e counted))
      | inr (inl (st', e)) ↦ absurd (subst (EndsAt st c) e counted)
      | inr (inr (inl (st', e))) ↦ rw (scan, e) (ground (arith, subst (EndsAt st c) e counted))
      | inr (inr (inr (st', e))) ↦ absurd (subst (EndsAt st c) e counted)
    ]
scan-Passed st (c ∷ d ∷ rest) =
    let counted = next_of-Counts st c d rest in
    elim (IsStep-of (next_of st c (d ∷ rest))) [
      | inl (st', e) ↦
          rw (scan, e) (ground (arith, subst (Counts st c d) e counted, scan-Passed st' (d ∷ rest)))
      | inr (inl (st', e)) ↦
          rw (scan, e) (ground (arith, subst (Counts st c d) e counted, scan-Passed st' rest))
      | inr (inr (inl (st', e))) ↦ rw (scan, e) (ground (arith, subst (Counts st c d) e counted))
      | inr (inr (inr (st', e))) ↦ rw (scan, e) (ground (arith, subst (Counts st c d) e counted))
    ]

-- The record that `csvRecord` reads counts exactly the line ends that it uses up, and of a text that
-- is not empty it leaves less: the loops over records end.
pub csv_record-IsRead :
    (text : Units)
    → ((csv_record text).newlines + line_feeds (csv_record text).rest ≡ line_feeds text)
      × (length (csv_record text).rest ≤ length text - 1)
unfolding csv_record
csv_record-IsRead text =
    let passed =
      scan-Passed (record { fields = []; field = []; quoted = false; newlines = 0 }) text in
    (omega (arith, passed.0), passed.1)
