-- ===== src/Kernel/SortKey/Order.antt =====
-- core/src/kernel/sort-key.ts: comparing two sort keys as texts compares the values.
use qwbe.Prelude.{
  ℕ, ◌+◌, ◌*◌, ◌%◌, ◌<◌, String, Bool, true, false, not, ◌≡◌, refl, ◌∙◌, ◌&&◌, ◌||◌, List, [], ◌∷◌,
  arith, nat_eq, ltb, take, if◌then◌else◌, zero, suc,
}
use qwbe.Kernel.SortKey.{
  Double, SortValue, missing, boolean, number, text, other, string_bytes, word_bytes, plus_zero,
  is_negative, key_words, number_key, string_key, sort_key,
}
use qwbe.Kernel.SortKey.Hex.{text_lt, are_bytes, text_lt-hex, text_lt-words}

-- The words are words.
abbrev pub IsDouble : Double → Type 0
IsDouble d = (d.hi < 0x100000000) × (d.lo < 0x100000000)

-- what stands behind the sign: the order of the doubles of one sign, by IEEE 754
abbrev pub magnitude : Double → ℕ
magnitude d = d.hi % 0x80000000 * 0x100000000 + d.lo

-- The order of the numbers: two zeros are one.
abbrev pub number_lt : Double → Double → Bool
number_lt a b =
    if is_negative a
    then (if is_negative b
        then ltb (magnitude b) (magnitude a)
        else not (nat_eq (magnitude a) 0 && nat_eq (magnitude b) 0))
    else (if is_negative b then false else ltb (magnitude a) (magnitude b))

words_lt :
    (a b : Double)
    → IsDouble a
    → IsDouble b
    → (let k = key_words (plus_zero a) in
        let l = key_words (plus_zero b) in ltb k.hi l.hi || (nat_eq k.hi l.hi && ltb k.lo l.lo))
      ≡ number_lt a b
unfolding key_words plus_zero
words_lt a b h k = ground arith

word_bytes-are_bytes :
    (w : ℕ) (rest : List ℕ) → are_bytes rest ≡ true → are_bytes (word_bytes w rest) ≡ true
word_bytes-are_bytes w rest h = ground arith

-- The words of a key are words.
key_words-IsDouble : (d : Double) → IsDouble d → IsDouble (key_words (plus_zero d))
unfolding key_words plus_zero
key_words-IsDouble d h = ground arith

number_key-lt :
    (a b : Double) → IsDouble a → IsDouble b → text_lt (number_key a) (number_key b) ≡ number_lt a b
unfolding number_key
number_key-lt a b h k =
    let v = key_words (plus_zero a) in
    let w = key_words (plus_zero b) in
    let hv = key_words-IsDouble a h in
    let hw = key_words-IsDouble b k in
    text_lt-hex (word_bytes v.hi (word_bytes v.lo [])) (word_bytes w.hi (word_bytes w.lo []))
      (word_bytes-are_bytes v.hi (word_bytes v.lo []) (word_bytes-are_bytes v.lo [] refl))
      (word_bytes-are_bytes w.hi (word_bytes w.lo []) (word_bytes-are_bytes w.lo [] refl))
    ∙ text_lt-words v.hi v.lo w.hi w.lo hv.0 hv.1 hw.0 hw.1
    ∙ words_lt a b h k

module _ (folded_bytes : String → List ℕ) where
  -- what a list compares of a text: the first bytes of the folded one
  abbrev pub prefix_of : String → List ℕ
  prefix_of s = take string_bytes (folded_bytes s)

  -- The order of the values: what is missing, false and true, numbers, and then texts, arrays and objects by their
  -- prefixes.
  abbrev pub value_lt : SortValue → SortValue → Bool
  value_lt missing missing = false
  value_lt missing (boolean c) = true
  value_lt missing (number e) = true
  value_lt missing (text t) = true
  value_lt missing (other t) = true
  value_lt (boolean b) missing = false
  value_lt (boolean b) (boolean c) = not b && c
  value_lt (boolean b) (number e) = true
  value_lt (boolean b) (text t) = true
  value_lt (boolean b) (other t) = true
  value_lt (number d) missing = false
  value_lt (number d) (boolean c) = false
  value_lt (number d) (number e) = number_lt d e
  value_lt (number d) (text t) = true
  value_lt (number d) (other t) = true
  value_lt (text s) missing = false
  value_lt (text s) (boolean c) = false
  value_lt (text s) (number e) = false
  value_lt (text s) (text t) = text_lt (prefix_of s) (prefix_of t)
  value_lt (text s) (other t) = text_lt (prefix_of s) (prefix_of t)
  value_lt (other s) missing = false
  value_lt (other s) (boolean c) = false
  value_lt (other s) (number e) = false
  value_lt (other s) (text t) = text_lt (prefix_of s) (prefix_of t)
  value_lt (other s) (other t) = text_lt (prefix_of s) (prefix_of t)

  -- A number is a double.
  abbrev pub IsValue : SortValue → Type 0
  IsValue (number d) = IsDouble d
  IsValue v = Unit

  take-are_bytes : (n : ℕ) (xs : List ℕ) → are_bytes xs ≡ true → are_bytes (take n xs) ≡ true
  take-are_bytes zero xs h = refl
  take-are_bytes (suc n) [] h = refl
  take-are_bytes (suc n) (x ∷ xs) h = ground (arith, take-are_bytes n xs)

  string_key-lt :
      ((s : String) → are_bytes (folded_bytes s) ≡ true)
      → (s t : String)
      → text_lt (string_key folded_bytes s) (string_key folded_bytes t)
        ≡ text_lt (prefix_of s) (prefix_of t)
  unfolding string_key
  string_key-lt h s t =
      text_lt-hex (prefix_of s) (prefix_of t) (take-are_bytes string_bytes (folded_bytes s) (h s))
        (take-are_bytes string_bytes (folded_bytes t) (h t))

  -- Sort keys compared as texts stand in the order of the values, where a text is folded to bytes.
  pub sort_key-value_lt :
      ((s : String) → are_bytes (folded_bytes s) ≡ true)
      → (a b : SortValue) → IsValue a
      → IsValue b
      → text_lt (sort_key folded_bytes a) (sort_key folded_bytes b) ≡ value_lt a b
  unfolding sort_key
  sort_key-value_lt h missing missing i j = refl
  sort_key-value_lt h missing (boolean true) i j = refl
  sort_key-value_lt h missing (boolean false) i j = refl
  sort_key-value_lt h missing (number e) i j = refl
  sort_key-value_lt h missing (text t) i j = refl
  sort_key-value_lt h missing (other t) i j = refl
  sort_key-value_lt h (boolean true) missing i j = refl
  sort_key-value_lt h (boolean true) (boolean true) i j = refl
  sort_key-value_lt h (boolean true) (boolean false) i j = refl
  sort_key-value_lt h (boolean true) (number e) i j = refl
  sort_key-value_lt h (boolean true) (text t) i j = refl
  sort_key-value_lt h (boolean true) (other t) i j = refl
  sort_key-value_lt h (boolean false) missing i j = refl
  sort_key-value_lt h (boolean false) (boolean true) i j = refl
  sort_key-value_lt h (boolean false) (boolean false) i j = refl
  sort_key-value_lt h (boolean false) (number e) i j = refl
  sort_key-value_lt h (boolean false) (text t) i j = refl
  sort_key-value_lt h (boolean false) (other t) i j = refl
  sort_key-value_lt h (number d) missing i j = refl
  sort_key-value_lt h (number d) (boolean true) i j = refl
  sort_key-value_lt h (number d) (boolean false) i j = refl
  sort_key-value_lt h (number d) (number e) i j = number_key-lt d e i j
  sort_key-value_lt h (number d) (text t) i j = refl
  sort_key-value_lt h (number d) (other t) i j = refl
  sort_key-value_lt h (text s) missing i j = refl
  sort_key-value_lt h (text s) (boolean true) i j = refl
  sort_key-value_lt h (text s) (boolean false) i j = refl
  sort_key-value_lt h (text s) (number e) i j = refl
  sort_key-value_lt h (text s) (text t) i j = string_key-lt h s t
  sort_key-value_lt h (text s) (other t) i j = string_key-lt h s t
  sort_key-value_lt h (other s) missing i j = refl
  sort_key-value_lt h (other s) (boolean true) i j = refl
  sort_key-value_lt h (other s) (boolean false) i j = refl
  sort_key-value_lt h (other s) (number e) i j = refl
  sort_key-value_lt h (other s) (text t) i j = string_key-lt h s t
  sort_key-value_lt h (other s) (other t) i j = string_key-lt h s t
