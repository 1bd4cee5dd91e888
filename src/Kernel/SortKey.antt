-- ===== src/Kernel/SortKey.antt =====
-- core/src/kernel/sort-key.ts: the texts by which lists are ordered, as lists of character codes,
-- which a store compares code by code. A number is the two words of its double; how a text is folded
-- and encoded, and what JSON an array or an object is written as, is the language's library.
pub mod Hex
pub mod Order
use qwbe.Prelude.{
  ℕ, ◌+◌, ◌-◌, ◌*◌, ◌/◌, ◌%◌, ◌^◌, String, Bool, true, false, not, ◌&&◌, Option, none, some, List,
  [], ◌∷◌, ◌++◌, ◌==◌, filter, is_some, nat_eq, leb, ltb, take, if◌then◌else◌,
}

-- The big-endian words of a float64.
pub record Double : Type 0 where
  pub hi : ℕ
  pub lo : ℕ

pub data SortValue : Type 0 where
  missing : SortValue
  boolean : Bool → SortValue
  number : Double → SortValue
  text : String → SortValue
  -- an array or an object, with its JSON text
  other : String → SortValue

-- `SORT_KEY_VERSION`, `SORT_KEYS`, `STRING_BYTES`
abbrev pub sort_key_version : ℕ
sort_key_version = 1

abbrev pub sort_keys_name : String
sort_keys_name = "_sort"

abbrev pub string_bytes : ℕ
string_bytes = 32

-- a digit of `toString("hex")`
unfoldable pub hex_digit : ℕ → ℕ
hex_digit n = if ltb n 10 then n + b'0' else n + 87

-- `hex`: two digits for each byte
unfoldable pub hex : List ℕ → List ℕ
hex [] = []
hex (byte ∷ bytes) = hex_digit (byte / 16) ∷ hex_digit (byte % 16) ∷ hex bytes

-- the bytes of a word, as `setUint32` writes them
abbrev pub word_bytes : ℕ → List ℕ → List ℕ
word_bytes w rest =
    (w / 0x1000000 % 256) ∷ (w / 0x10000 % 256) ∷ (w / 0x100 % 256) ∷ (w % 256) ∷ rest

-- `n + 0`: the negative zero becomes the positive one
unfoldable pub plus_zero : Double → Double
plus_zero d = if nat_eq d.hi 0x80000000 && nat_eq d.lo 0 then record { hi = 0; lo = 0 } else d

-- `hi >>> 31 === 1`
abbrev pub is_negative : Double → Bool
is_negative d = nat_eq (d.hi / 0x80000000) 1

-- `~w >>> 0`
abbrev pub inverted : ℕ → ℕ
inverted w = 0xffffffff - w

-- the words with the sign bit flipped, or all bits inverted; `hi ^ 0x80000000` sets a bit that is not
-- set
unfoldable pub key_words : Double → Double
key_words d =
    if is_negative d
    then record { hi = inverted d.hi; lo = inverted d.lo }
    else record { hi = d.hi + 0x80000000; lo = d.lo }

-- `numberKey`
unfoldable pub number_key : Double → List ℕ
unfolding plus_zero key_words hex
number_key d = let k = key_words (plus_zero d) in hex (word_bytes k.hi (word_bytes k.lo []))

module _ (folded_bytes : String → List ℕ) where
  -- `stringKey`
  unfoldable pub string_key : String → List ℕ
  unfolding hex
  string_key s = hex (take string_bytes (folded_bytes s))

  -- `sortKey`
  unfoldable pub sort_key : SortValue → List ℕ
  unfolding number_key string_key
  sort_key missing = b'0' ∷ []
  sort_key (boolean true) = b'1' ∷ b'1' ∷ []
  sort_key (boolean false) = b'1' ∷ b'0' ∷ []
  sort_key (number d) = b'2' ∷ number_key d
  sort_key (text s) = b'3' ∷ string_key s
  sort_key (other json) = b'3' ∷ string_key json

  -- `SortKeys`
  pub record SortKeys : Type 0 where
    pub v : ℕ
    pub k : List (String × List ℕ)

  -- `body[field]`
  unfoldable pub value_of : List (String × SortValue) → String → Option SortValue
  value_of [] field = none
  value_of ((key, value) ∷ body) field = if key == field then some value else value_of body field

  abbrev keyed : String → Option SortValue → List (String × List ℕ) → List (String × List ℕ)
  keyed field none rest = rest
  keyed field (some value) rest = (field, sort_key value) ∷ rest

  -- the key of each field that the body carries
  unfoldable pub keys_of : List (String × SortValue) → List String → List (String × List ℕ)
  unfolding value_of sort_key
  keys_of body [] = []
  keys_of body (field ∷ fields) = keyed field (value_of body field) (keys_of body fields)

  abbrev some_keys : List (String × List ℕ) → Option SortKeys
  some_keys [] = none
  some_keys (k ∷ ks) = some (record { v = sort_key_version; k = k ∷ ks })

  -- `sortKeysFor`
  unfoldable pub sort_keys_for : List (String × SortValue) → List String → Option SortKeys
  unfolding keys_of
  sort_keys_for body fields = some_keys (keys_of body fields)

  -- `withSortKeys`: the body without a `_sort` of its own, and the keys that stand there instead
  unfoldable pub with_sort_keys :
      List (String × SortValue) → List String → List (String × SortValue) × Option SortKeys
  unfolding sort_keys_for
  with_sort_keys body fields =
      let rest = filter (λ (e : String × SortValue). not (e.0 == sort_keys_name)) body in
      (rest, sort_keys_for rest fields)
