-- ===== src/Names.antt =====
-- 8.3 names: `encode_name` and `entry_to_name` of tools/decb.py, on lists of code points up to 0xFF.
pub mod Fields
mod Tests
use xroar_dev.Base.{
  ℕ, ◌-◌, Bool, true, not, ◌&&◌, ◌||◌, Option, none, some, List, [], ◌∷◌, ◌++◌, ltb, leb, ◌==◌,
  if◌then◌else◌, length, take, drop, replicate,
}
use xroar_dev.Error.{Result, encode_error, name_too_long, ok, err}

-- `str.upper` on one code point of Latin-1: two of them leave Latin-1, and 0xDF becomes two letters.
unfoldable pub upper_char : ℕ → List ℕ
upper_char c =
    if (leb b'a' c && leb c b'z') || (leb 0xE0 c && leb c 0xFE && not (c == 0xF7))
    then (c - 32) ∷ []
    else if c == 0xB5
    then 0x39C ∷ []
    else if c == 0xDF
    then b'S' ∷ b'S' ∷ []
    else if c == 0xFF
    then 0x178 ∷ []
    else c ∷ []

-- `name.upper().replace("/", "").replace("\\", "")`
unfoldable pub drop_slashes : List ℕ → List ℕ
drop_slashes [] = []
drop_slashes (c ∷ cs) = if (c == b'/') || (c == 0x5C) then drop_slashes cs else c ∷ drop_slashes cs

unfoldable pub upper : List ℕ → List ℕ
unfolding upper_char
upper [] = []
upper (c ∷ cs) = upper_char c ++ upper cs

-- `name.rpartition(".")`, without the dot; `none` if there is no dot.
unfoldable pub rpartition : ℕ → List ℕ → Option (List ℕ × List ℕ)
rpartition sep [] = none
rpartition sep (c ∷ cs) = elim (rpartition sep cs) [
  | some (before, after) ↦ some (c ∷ before, after)
  | none ↦ if c == sep then some ([], cs) else none
]

unfoldable pub split_name : List ℕ → List ℕ × List ℕ
unfolding rpartition
split_name name = elim (rpartition b'.' name) [ some (base, ext) ↦ (base, ext) | none ↦ (name, []) ]

-- `s.ljust(n)`
unfoldable pub ljust : ℕ → List ℕ → List ℕ
ljust n s = s ++ replicate (n - length s) b' '

-- `s.encode("latin1")`
unfoldable pub all_latin1 : List ℕ → Bool
all_latin1 [] = true
all_latin1 (c ∷ cs) = ltb c 256 && all_latin1 cs

unfoldable pub encode_latin1 : List ℕ → Result (List ℕ)
unfolding all_latin1
encode_latin1 s = if all_latin1 s then ok s else err encode_error

unfoldable pub encode_name : List ℕ → Result (List ℕ)
unfolding upper drop_slashes split_name ljust encode_latin1
encode_name name =
    let (base, ext) = split_name (drop_slashes (upper name)) in
    if ltb 8 (length base) || ltb 3 (length ext)
    then err name_too_long
    else encode_latin1 (ljust 8 base ++ ljust 3 ext)

-- `s.rstrip(" ")`
unfoldable pub rstrip : List ℕ → List ℕ
rstrip [] = []
rstrip (c ∷ cs) = elim (rstrip cs) [ [] ↦ if c == b' ' then [] else c ∷ [] | x ∷ xs ↦ c ∷ x ∷ xs ]

unfoldable pub entry_to_name : List ℕ → List ℕ
unfolding rstrip
entry_to_name entry =
    let base = rstrip (take 8 entry) in
    let ext = rstrip (take 3 (drop 8 entry)) in
    elim ext [ [] ↦ base | x ∷ xs ↦ base ++ b'.' ∷ x ∷ xs ]
