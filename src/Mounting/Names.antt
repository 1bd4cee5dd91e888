-- ===== src/Mounting/Names.antt =====
-- core/src/kernel/manifest-validation.ts: the names of a cube, and what paths are derived from them.
use Prim.Native.Char.{code}
use Prim.Native.String
use qwbe.Prelude.{
  ℕ, String, Bool, true, false, not, ◌&&◌, ◌||◌, Option, none, some, or_else, List, [], ◌∷◌, ◌==◌,
  filter, head, split, lacks, leb, nat_eq, if◌then◌else◌,
}

abbrev is_lower : ℕ → Bool
is_lower c = leb b'a' c && leb c b'z'

abbrev is_slug_char : ℕ → Bool
is_slug_char c = is_lower c || ((leb b'0' c && leb c b'9') || nat_eq c b'-')

unfoldable pub all_slug : String → Bool
all_slug String.[] = true
all_slug (String.◌∷◌ c s) = is_slug_char (code c) && all_slug s

-- `NAME_PATTERN.test(name)`
unfoldable pub is_name : String → Bool
unfolding all_slug
is_name String.[] = false
is_name (String.◌∷◌ c s) = is_lower (code c) && all_slug s

abbrev under : Option String → String → String
under none name = name
under (some parent) name = if parent == "" then name else String.◌++◌ parent (String.◌++◌ "/" name)

-- `fullName` of a name and a parent
unfoldable pub full_name : String → Option String → String
full_name name parent = under parent name

abbrev second : List String → String
second (a ∷ b ∷ rest) = b
second (a ∷ []) = ""
second [] = ""

-- `leafOf`
unfoldable pub leaf_of : String → String
leaf_of full = if lacks b'/' full then full else second (split b'/' full)

-- `parentOf`
unfoldable pub parent_of : String → Option String
parent_of full = if lacks b'/' full then none else head (split b'/' full)

-- `pathPrefix`
unfoldable pub path_prefix : String → Option String
path_prefix path = head (filter (λ s. not (s == "")) (split b'/' path))

-- `dashForm`: only the first slash is replaced
unfoldable pub dash_form : String → String
dash_form String.[] = String.[]
dash_form (String.◌∷◌ c s) =
    let rest = dash_form s in if nat_eq (code c) b'/' then String.◌∷◌ "-" s else String.◌∷◌ c rest

-- the cube that a command's name is split to
unfoldable pub command_owner : String → String
command_owner name = or_else (head (split b':' name)) ""

-- `readPermissionOf`
abbrev pub read_permission_of : String → String
read_permission_of cube = String.◌++◌ cube ":read"
