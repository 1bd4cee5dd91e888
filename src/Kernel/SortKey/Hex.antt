-- ===== src/Kernel/SortKey/Hex.antt =====
-- core/src/kernel/sort-key.ts: hexadecimal texts are ordered as what they stand for.
use qwbe.Prelude.{
  ℕ, ◌/◌, ◌%◌, ◌<◌, Bool, true, false, ◌≡◌, refl, ap, ◌∙◌, ◌&&◌, ◌||◌, List, [], ◌∷◌, arith, all,
  nat_eq, ltb,
}
use qwbe.Kernel.SortKey.{hex_digit, hex, word_bytes}

-- Texts compared code by code: a text stands before its continuations.
abbrev pub text_lt : List ℕ → List ℕ → Bool
text_lt [] [] = false
text_lt [] (y ∷ ys) = true
text_lt (x ∷ xs) [] = false
text_lt (x ∷ xs) (y ∷ ys) = ltb x y || (nat_eq x y && text_lt xs ys)

abbrev pub are_bytes : List ℕ → Bool
are_bytes = all (λ b. ltb b 256)

hex_digit-lt : (m n : ℕ) → m < 16 → n < 16 → ltb (hex_digit m) (hex_digit n) ≡ ltb m n
unfolding hex_digit
hex_digit-lt m n h k = ground arith

hex_digit-eq : (m n : ℕ) → m < 16 → n < 16 → nat_eq (hex_digit m) (hex_digit n) ≡ nat_eq m n
unfolding hex_digit
hex_digit-eq m n h k = ground arith

one_byte :
    (x y : ℕ) (rest : Bool)
    → x < 256
    → y < 256
    → (ltb (x / 16) (y / 16)
        || (nat_eq (x / 16) (y / 16)
            && (ltb (x % 16) (y % 16) || (nat_eq (x % 16) (y % 16) && rest))))
      ≡ (ltb x y || (nat_eq x y && rest))
one_byte x y true h k = ground arith
one_byte x y false h k = ground arith

-- Two hexadecimal texts are ordered as their bytes.
pub text_lt-hex :
    (xs ys : List ℕ)
    → are_bytes xs ≡ true
    → are_bytes ys ≡ true
    → text_lt (hex xs) (hex ys) ≡ text_lt xs ys
unfolding hex
text_lt-hex [] [] h k = refl
text_lt-hex [] (y ∷ ys) h k = refl
text_lt-hex (x ∷ xs) [] h k = refl
text_lt-hex (x ∷ xs) (y ∷ ys) h k = ground (
  arith,
  text_lt-hex xs ys,
  hex_digit-lt (x / 16) (y / 16),
  hex_digit-eq (x / 16) (y / 16),
  hex_digit-lt (x % 16) (y % 16),
  hex_digit-eq (x % 16) (y % 16),
  one_byte x y (text_lt xs ys),
)

-- one more byte, the last one of a number
next_byte :
    (x y : ℕ) (rest : Bool)
    → (ltb (x / 256) (y / 256)
        || (nat_eq (x / 256) (y / 256)
            && (ltb (x % 256) (y % 256) || (nat_eq (x % 256) (y % 256) && rest))))
      ≡ (ltb x y || (nat_eq x y && rest))
next_byte x y true = ground arith
next_byte x y false = ground arith

first_byte : (a : ℕ) → a < 0x100000000 → (a / 0x1000000 % 256) ≡ a / 0x10000 / 256
first_byte a h = omega arith

second_byte : (a : ℕ) → (a / 0x10000) ≡ a / 0x100 / 256
second_byte a = omega arith

abbrev before : ℕ → ℕ → Bool → Bool
before x y rest = ltb x y || (nat_eq x y && rest)

-- Four bytes are ordered as the word that they write, and then as what follows.
word_bytes-lt :
    (a c : ℕ) (xs ys : List ℕ)
    → a < 0x100000000
    → c < 0x100000000
    → text_lt (word_bytes a xs) (word_bytes c ys) ≡ before a c (text_lt xs ys)
word_bytes-lt a c xs ys h k =
    let last = before (a % 256) (c % 256) (text_lt xs ys) in
    let third = before (a / 0x100 % 256) (c / 0x100 % 256) last in
    let second = before (a / 0x10000 % 256) (c / 0x10000 % 256) third in
    ap (λ n. before n (c / 0x1000000 % 256) second) (first_byte a h)
    ∙ ap (λ n. before (a / 0x10000 / 256) n second) (first_byte c k)
    ∙ next_byte (a / 0x10000) (c / 0x10000) third
    ∙ ap (λ n. before n (c / 0x10000) third) (second_byte a)
    ∙ ap (λ n. before (a / 0x100 / 256) n third) (second_byte c)
    ∙ next_byte (a / 0x100) (c / 0x100) last
    ∙ next_byte a c (text_lt xs ys)

-- Eight bytes are ordered as the two words that they write.
pub text_lt-words :
    (a b c d : ℕ)
    → a < 0x100000000
    → b < 0x100000000
    → c < 0x100000000
    → d < 0x100000000
    → text_lt (word_bytes a (word_bytes b [])) (word_bytes c (word_bytes d []))
      ≡ (ltb a c || (nat_eq a c && ltb b d))
text_lt-words a b c d ha hb hc hd =
    word_bytes-lt a c (word_bytes b []) (word_bytes d []) ha hc
    ∙ ap (before a c) (word_bytes-lt b d [] [] hb hd ∙ ground arith)
