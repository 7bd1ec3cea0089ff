-- ===== src/Text.antt =====
-- Python's `str` operations that the command lines of tools/decb.py go through, on lists of code
-- points up to 0xFF.
pub mod Parts
mod Tests
use xroar_dev.Base.{
  ℕ, zero, suc, ◌+◌, ◌-◌, ◌*◌, Bool, true, false, not, ◌&&◌, ◌||◌, Option, none, some, List, [],
  ◌∷◌, ltb, leb, ◌==◌, if◌then◌else◌,
}
use xroar_dev.Basic.{is_digit}

-- An integer; `negsuc n` is -(n + 1).
pub data ℤ : Type 0 where
  pos : ℕ → ℤ
  negsuc : ℕ → ℤ

abbrev pub negate : ℕ → ℤ
negate zero = pos 0
negate (suc n) = negsuc n

-- `s.partition(sep)` without the separator; `none` if it is not there.
unfoldable pub partition : ℕ → List ℕ → Option (List ℕ × List ℕ)
partition sep [] = none
partition sep (c ∷ cs) =
    let rest = partition sep cs in
    if c == sep
    then some ([], cs)
    else elim rest [ none ↦ none | some (before, after) ↦ some (c ∷ before, after) ]

-- `str.isspace` on one code point of Latin-1.
abbrev pub is_space : ℕ → Bool
is_space c = (leb 9 c && leb c 13) || (leb 28 c && leb c 32) || (c == 0x85) || (c == 0xA0)

unfoldable pub lstrip_space : List ℕ → List ℕ
lstrip_space [] = []
lstrip_space (c ∷ cs) = if is_space c then lstrip_space cs else c ∷ cs

unfoldable pub rstrip_space : List ℕ → List ℕ
rstrip_space [] = []
rstrip_space (c ∷ cs) = elim (rstrip_space cs) [
  | [] ↦ if is_space c then [] else c ∷ []
  | x ∷ xs ↦ c ∷ x ∷ xs
]

-- `s.strip()`
abbrev pub strip_space : List ℕ → List ℕ
strip_space s = lstrip_space (rstrip_space s)

-- The value of a digit in bases up to 36; 99 for what is no digit.
unfoldable pub digit_value : ℕ → ℕ
digit_value c =
    if leb b'0' c && leb c b'9'
    then c - b'0'
    else if leb b'a' c && leb c b'z'
    then c - 87
    else if leb b'A' c && leb c b'Z'
    then c - 55
    else 99

-- The digits of `int(s, base)`: single underscores may stand between digits. `after_digit` says that
-- a digit stands before.
unfoldable pub digits : ℕ → ℕ → Bool → List ℕ → Option ℕ
unfolding digit_value
digits base acc after_digit [] = if after_digit then some acc else none
digits base acc after_digit (c ∷ cs) =
    let under = c == b'_' in
    let v = digit_value c in
    let rest = digits base (if under then acc else acc * base + v) (not under) cs in
    if (if under then after_digit else ltb v base) then rest else none

-- The sign, and the text behind it.
abbrev pub split_sign : List ℕ → Bool × List ℕ
split_sign [] = (false, [])
split_sign (c ∷ cs) =
    if c == b'-' then (true, cs) else if c == b'+' then (false, cs) else (false, c ∷ cs)

abbrev pub with_sign : Bool → Option ℕ → Option ℤ
with_sign negative none = none
with_sign negative (some n) = some (if negative then negate n else pos n)

-- `int(s)`; `none` is a ValueError.
unfoldable pub int_10 : List ℕ → Option ℤ
unfolding digits lstrip_space rstrip_space
int_10 s =
    let (negative, body) = split_sign (strip_space s) in with_sign negative (digits 10 0 false body)

-- After the prefix of a base, one underscore may stand.
abbrev pub prefixed : ℕ → List ℕ → Option ℕ
prefixed base cs = digits base 0 true cs

abbrev pub nonempty : List ℕ → Bool
nonempty [] = false
nonempty (c ∷ cs) = true

-- A text that begins with 0 and has no base prefix: only zeros are allowed.
abbrev pub only_zero : Option ℕ → Option ℕ
only_zero none = none
only_zero (some n) = if n == 0 then some 0 else none

unfoldable pub magnitude_0 : List ℕ → Option ℕ
unfolding digits
magnitude_0 [] = none
magnitude_0 (c ∷ []) = digits 10 0 false (c ∷ [])
magnitude_0 (c ∷ x ∷ cs) =
    if not (c == b'0')
    then digits 10 0 false (c ∷ x ∷ cs)
    else if (x == b'x') || (x == b'X')
    then (if nonempty cs then prefixed 16 cs else none)
    else if (x == b'o') || (x == b'O')
    then (if nonempty cs then prefixed 8 cs else none)
    else if (x == b'b') || (x == b'B')
    then (if nonempty cs then prefixed 2 cs else none)
    else only_zero (digits 10 0 false (c ∷ x ∷ cs))

-- `int(s, 0)`
unfoldable pub int_0 : List ℕ → Option ℤ
unfolding magnitude_0 lstrip_space rstrip_space
int_0 s = let (negative, body) = split_sign (strip_space s) in with_sign negative (magnitude_0 body)

-- `s.isdigit()`, which also holds of the three superscript digits of Latin-1.
unfoldable pub all_digits : List ℕ → Bool
unfolding is_digit
all_digits [] = true
all_digits (c ∷ cs) = is_digit c && all_digits cs
