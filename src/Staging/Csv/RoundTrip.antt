-- ===== src/Staging/Csv/RoundTrip.antt =====
-- Fields written as RFC 4180 has them are read back.
use mathlib.Core.List.{append_assoc, append-nil}
use qwbe.Prelude.{
  ℕ, suc, ◌+◌, true, false, ◌≡◌, refl, sym, ap, ◌∙◌, inl, inr, List, [], ◌∷◌, ◌++◌, arith, nat_eq,
  nat_eq_iff, Bool-cases, if◌then◌else◌,
}
use qwbe.Staging.Units.{Units, line_feeds, line_feed, quote, comma}
use qwbe.Staging.Csv.{
  CsvRecord, Scan, on, skip, ends, finish, next_of, scan, csv_record, count_line,
}

-- the text of a field behind its opening quote: each quote doubled, then the closing one
unfoldable pub escaped : Units → Units → Units
escaped [] tail = quote ∷ tail
escaped (c ∷ field) tail =
    let more = escaped field tail in if nat_eq c quote then quote ∷ quote ∷ more else c ∷ more

-- One record: every field in quotes, commas between them, and a line feed.
unfoldable pub printed : List Units → Units → Units
unfolding escaped
printed [] tail = tail
printed (f ∷ []) tail = quote ∷ escaped f (line_feed ∷ tail)
printed (f ∷ g ∷ fields) tail = quote ∷ escaped f (comma ∷ printed (g ∷ fields) tail)

plus_zero : (n : ℕ) → n ≡ n + 0
plus_zero n = omega arith

scan-on :
    (st st' : Scan) (c : ℕ) (rest : Units)
    → next_of st c rest ≡ on st'
    → scan st (c ∷ rest) ≡ scan st' rest
unfolding scan
scan-on st st' c [] e = rw (scan, e) refl
scan-on st st' c (d ∷ rest) e = rw (scan, e) refl

abbrev quoted_in : List Units → Units → ℕ → Scan
quoted_in fields field n = record { fields = fields; field = field; quoted = true; newlines = n }

abbrev plain_in : List Units → Units → ℕ → Scan
plain_in fields field n = record { fields = fields; field = field; quoted = false; newlines = n }

scan-skip :
    (st st' : Scan) (c d : ℕ) (rest : Units)
    → next_of st c (d ∷ rest) ≡ skip st'
    → scan st (c ∷ d ∷ rest) ≡ scan st' rest
unfolding scan
scan-skip st st' c d rest e = rw (scan, e) refl

scan-ends :
    (st st' : Scan) (c : ℕ) (rest : Units)
    → next_of st c rest ≡ ends st'
    → scan st (c ∷ rest) ≡ finish st' rest
unfolding scan
scan-ends st st' c [] e = rw (scan, e) refl
scan-ends st st' c (d ∷ rest) e = rw (scan, e) refl

go_on :
    (fields : List Units) (text : Units) {a b : Units} {m n : ℕ}
    → a ≡ b
    → m ≡ n
    → scan (plain_in fields a m) text ≡ scan (plain_in fields b n) text
go_on fields text e h = cc (e, h)

-- Inside quotes the text of a field is read up to the closing quote.
scan-escaped :
    (fields : List Units) (a f : Units) (n d : ℕ) (tail : Units)
    → nat_eq d quote ≡ false
    → scan (quoted_in fields a n) (escaped f (d ∷ tail))
      ≡ scan (plain_in fields (a ++ f) (n + line_feeds f)) (d ∷ tail)
unfolding escaped
scan-escaped fields a [] n d tail h =
    scan-on (quoted_in fields a n) (plain_in fields a n) quote (d ∷ tail) (rw h refl)
    ∙ cc (append-nil a, plus_zero n)
scan-escaped fields a (c ∷ f) n d tail h = elim (Bool-cases (nat_eq c quote)) [
  | inl q ↦
      let same = (nat_eq_iff c quote).0 q in
      rw q (
        scan-skip (quoted_in fields a n) (quoted_in fields (a ++ quote ∷ []) n) quote quote
          (escaped f (d ∷ tail)) refl
        ∙ scan-escaped fields (a ++ quote ∷ []) f n d tail h
        ∙ go_on fields (d ∷ tail) (append_assoc a (quote ∷ []) f ∙ ap (λ x. a ++ x ∷ f) (sym same))
            (ground (arith, same)))
  | inr o ↦ rw o (
      scan-on (quoted_in fields a n) (quoted_in fields (a ++ c ∷ []) (count_line c n)) c
        (escaped f (d ∷ tail)) (rw o refl)
      ∙ scan-escaped fields (a ++ c ∷ []) f (count_line c n) d tail h
      ∙ go_on fields (d ∷ tail) (append_assoc a (c ∷ []) f) (ground arith))
]

-- how many line ends the fields hold
abbrev pub field_lines : List Units → ℕ
field_lines [] = 0
field_lines (f ∷ fields) = line_feeds f + field_lines fields

same_record :
    (rest : Units) {xs ys : List Units} {m n : ℕ}
    → xs ≡ ys
    → m ≡ n
    → let with_fields : List Units → ℕ → CsvRecord =
        λ fields newlines. record { fields = fields; rest = rest; newlines = newlines } in
      with_fields xs m ≡ with_fields ys n
same_record rest e h = cc (e, h)

scan-printed :
    (done fields : List Units) (f : Units) (n : ℕ) (tail : Units)
    → scan (plain_in done [] n) (printed (f ∷ fields) tail) ≡ record {
      fields = done ++ f ∷ fields;
      rest = tail;
      newlines = n + field_lines (f ∷ fields) + 1;
    }
unfolding printed
scan-printed done [] f n tail =
    scan-on (plain_in done [] n) (quoted_in done [] n) quote (escaped f (line_feed ∷ tail)) refl
    ∙ scan-escaped done [] f n line_feed tail refl
    ∙ scan-ends (plain_in done f (n + line_feeds f)) (plain_in done f (suc (n + line_feeds f)))
        line_feed tail refl
    ∙ same_record tail refl (omega arith)
scan-printed done (g ∷ fields) f n tail =
    scan-on (plain_in done [] n) (quoted_in done [] n) quote
      (escaped f (comma ∷ printed (g ∷ fields) tail)) refl
    ∙ scan-escaped done [] f n comma (printed (g ∷ fields) tail) refl
    ∙ scan-on (plain_in done f (n + line_feeds f)) (plain_in (done ++ f ∷ []) [] (n + line_feeds f))
        comma (printed (g ∷ fields) tail) refl
    ∙ scan-printed (done ++ f ∷ []) fields g (n + line_feeds f) tail
    ∙ same_record tail (append_assoc done (f ∷ []) (g ∷ fields)) (omega arith)

-- Whatever the fields hold, commas, quotes and line ends included: what `csvRecord` reads of their
-- quoted text is the fields, up to the text behind it, and the line ends are counted.
pub csv_record-printed :
    (f : Units) (fields : List Units) (tail : Units)
    → csv_record (printed (f ∷ fields) tail)
      ≡ record { fields = f ∷ fields; rest = tail; newlines = field_lines (f ∷ fields) + 1 }
unfolding csv_record
csv_record-printed f fields tail =
    scan-printed [] fields f 0 tail ∙ same_record tail refl (omega arith)
