-- ===== src/Symbols.antt =====
-- tools/symread.py: the symbol file, its lookups by name, and the nearest symbol of an address. The
-- check of digests against the build is not modelled; `load_rows` takes the lines of the file.
pub mod Lines
pub mod Lookup
pub mod Nearest
mod Tests
use xroar_dev.Base.{
  ℕ, ◌-◌, false, ◌&&◌, ◌||◌, Option, none, some, List, [], ◌∷◌, ◌++◌, ltb, leb, ◌==◌, if◌then◌else◌,
  list_eq,
}
use xroar_dev.Error.{
  Result, ◌>>=◌, value_error, undefined_symbol, ambiguous_symbol, negative_base, err, ok,
}
use xroar_dev.Text.{
  ℤ, pos, negsuc, partition, is_space, lstrip_space, rstrip_space, strip_space, digits, split_sign,
  with_sign, int_10, prefixed, nonempty,
}

pub record Sym : Type 0 where
  pub name : List ℕ
  pub image : List ℕ
  pub logical : ℕ
  pub phys : ℕ

pub record DpVar : Type 0 where
  pub name : List ℕ
  pub offset : ℕ
  pub logical : ℕ
  pub phys : ℕ

-- `(org, phys_base, size, sha1)`
pub record ImageInfo : Type 0 where
  pub org : ℕ
  pub phys_base : ℕ
  pub size : ℕ
  pub digest : List ℕ

pub record SymbolFile : Type 0 where
  pub build : List ℕ
  pub images : List (List ℕ × ImageInfo)
  pub by_name : List (List ℕ × List Sym)
  pub dpvars : List (List ℕ × DpVar)
  pub equates : List (List ℕ × ℕ)
  pub code_ranges : List (ℕ × ℕ)

abbrev pub empty_file : SymbolFile
empty_file = record {
  build = b'u' ∷ b'n' ∷ b'k' ∷ b'n' ∷ b'o' ∷ b'w' ∷ b'n' ∷ [];
  images = [];
  by_name = [];
  dpvars = [];
  equates = [];
  code_ranges = [];
}

-- `d[key] = value` and `d.get(key)` of a dict.
unfoldable pub set_key : {A : Type 0} → List ℕ → A → List (List ℕ × A) → List (List ℕ × A)
set_key key value [] = (key, value) ∷ []
set_key key value ((k, v) ∷ entries) =
    if list_eq k key then (k, value) ∷ entries else (k, v) ∷ set_key key value entries

unfoldable pub get_key : {A : Type 0} → List ℕ → List (List ℕ × A) → Option A
get_key key [] = none
get_key key ((k, v) ∷ entries) = if list_eq k key then some v else get_key key entries

-- `by_name.setdefault(name, []).append(s)`
unfoldable pub add_sym : List ℕ → Sym → List (List ℕ × List Sym) → List (List ℕ × List Sym)
add_sym name s [] = (name, s ∷ []) ∷ []
add_sym name s ((k, group) ∷ groups) =
    if list_eq k name then (k, group ++ s ∷ []) ∷ groups else (k, group) ∷ add_sym name s groups

-- `by_name.get(name, ())`
unfoldable pub group_of : List ℕ → List (List ℕ × List Sym) → List Sym
unfolding get_key
group_of name groups = elim (get_key name groups) [ none ↦ [] | some group ↦ group ]

-- `s.split()`, with the word so far.
unfoldable pub words_from : List ℕ → List ℕ → List (List ℕ)
words_from word [] = if nonempty word then word ∷ [] else []
words_from word (c ∷ cs) =
    if is_space c
    then (if nonempty word then word ∷ words_from [] cs else words_from [] cs)
    else words_from (word ++ c ∷ []) cs

-- `int(s, 16)` and `int(s)`, of which the model takes what is not negative.
abbrev pub magnitude_16 : List ℕ → Option ℕ
magnitude_16 (c ∷ x ∷ cs) =
    if (c == b'0') && ((x == b'x') || (x == b'X'))
    then (if nonempty cs then prefixed 16 cs else none)
    else digits 16 0 false (c ∷ x ∷ cs)
magnitude_16 cs = digits 16 0 false cs

abbrev pub natural : Option ℤ → Result ℕ
natural none = err value_error
natural (some (pos n)) = ok n
natural (some (negsuc n)) = err negative_base

unfoldable pub int_16 : List ℕ → Option ℤ
unfolding digits lstrip_space rstrip_space
int_16 s =
    let (negative, body) = split_sign (strip_space s) in with_sign negative (magnitude_16 body)

abbrev pub hex : List ℕ → Result ℕ
hex s = natural (int_16 s)

abbrev pub read_image : SymbolFile → List (List ℕ) → Result SymbolFile
read_image f (name ∷ org ∷ base ∷ size ∷ digest ∷ []) = do
  o ← hex org
  b ← hex base
  n ← natural (int_10 size)
  let entry : ImageInfo = record { org = o; phys_base = b; size = n; digest = digest }
  ok (record f { images = set_key name entry f.images })
read_image f _ = err value_error

abbrev pub read_sym : SymbolFile → List (List ℕ) → Result SymbolFile
read_sym f (name ∷ image ∷ logical ∷ phys ∷ []) = do
  l ← hex logical
  p ← hex phys
  let s : Sym = record { name = name; image = image; logical = l; phys = p }
  ok (record f { by_name = add_sym name s f.by_name })
read_sym f _ = err value_error

abbrev pub read_dp : SymbolFile → List (List ℕ) → Result SymbolFile
read_dp f (name ∷ off ∷ logical ∷ phys ∷ []) = do
  o ← hex off
  l ← hex logical
  p ← hex phys
  let v : DpVar = record { name = name; offset = o; logical = l; phys = p }
  ok (record f { dpvars = set_key name v f.dpvars })
read_dp f _ = err value_error

abbrev pub read_equate : SymbolFile → List (List ℕ) → Result SymbolFile
read_equate f (name ∷ value ∷ []) = do
  v ← hex value
  ok (record f { equates = set_key name v f.equates })
read_equate f _ = err value_error

abbrev pub read_range : SymbolFile → List (List ℕ) → Result SymbolFile
read_range f (cls ∷ lo ∷ hi ∷ []) =
    if list_eq cls (b'C' ∷ [])
    then (do l ← hex lo; h ← hex hi; ok (record f { code_ranges = f.code_ranges ++ (l, h) ∷ [] }))
    else ok f
read_range f _ = err value_error

-- `row.partition(" ")`
abbrev pub kind_of : List ℕ → List ℕ × List ℕ
kind_of row = elim (partition b' ' row) [ none ↦ (row, []) | some (kind, rest) ↦ (kind, rest) ]

abbrev pub tag_build : List ℕ
tag_build = b'!' ∷ b'b' ∷ b'u' ∷ b'i' ∷ b'l' ∷ b'd' ∷ []

abbrev pub tag_image : List ℕ
tag_image = b'!' ∷ b'i' ∷ b'm' ∷ b'a' ∷ b'g' ∷ b'e' ∷ []

-- One line of the file, without its newline.
unfoldable pub read_row : SymbolFile → List ℕ → Result SymbolFile
unfolding partition words_from set_key add_sym int_16 int_10 lstrip_space rstrip_space
read_row f [] = ok f
read_row f (c ∷ cs) =
    let (kind, rest) = kind_of (c ∷ cs) in
    if list_eq kind tag_build
    then ok (record f { build = strip_space rest })
    else if list_eq kind tag_image
    then read_image f (words_from [] rest)
    else if list_eq kind (b'S' ∷ [])
    then read_sym f (words_from [] rest)
    else if list_eq kind (b'D' ∷ [])
    then read_dp f (words_from [] rest)
    else if list_eq kind (b'E' ∷ [])
    then read_equate f (words_from [] rest)
    else if list_eq kind (b'M' ∷ [])
    then read_range f (words_from [] rest)
    else ok f

unfoldable pub load_rows : SymbolFile → List (List ℕ) → Result SymbolFile
unfolding read_row
load_rows f [] = ok f
load_rows f (row ∷ rows) = do f' ← read_row f row; load_rows f' rows

abbrev pub before_dot : List ℕ → List ℕ
before_dot [] = []
before_dot (c ∷ cs) = if c == b'.' then [] else c ∷ before_dot cs

unfoldable pub in_image : List ℕ → List Sym → Result Sym
in_image image [] = err undefined_symbol
in_image image (s ∷ syms) =
    if list_eq s.image image || list_eq (before_dot s.image) image
    then ok s
    else in_image image syms

-- A bare name must have one definition.
abbrev pub only_one : List Sym → Result Sym
only_one [] = err undefined_symbol
only_one (s ∷ []) = ok s
only_one (s ∷ t ∷ syms) = err ambiguous_symbol

unfoldable pub sym_of : SymbolFile → List ℕ → Result Sym
unfolding partition in_image group_of
sym_of f name = elim (partition b':' name) [
  | some (image, bare) ↦ in_image image (group_of bare f.by_name)
  | none ↦ only_one (group_of name f.by_name)
]

unfoldable pub all_syms : List (List ℕ × List Sym) → List Sym
all_syms [] = []
all_syms ((k, group) ∷ groups) = group ++ all_syms groups

-- `sorted(...)` by physical address, which keeps the order of equal addresses.
unfoldable pub insert_sym : Sym → List Sym → List Sym
insert_sym s [] = s ∷ []
insert_sym s (t ∷ syms) = if leb t.phys s.phys then t ∷ insert_sym s syms else s ∷ t ∷ syms

unfoldable pub sorted_onto : List Sym → List Sym → List Sym
unfolding insert_sym
sorted_onto sorted [] = sorted
sorted_onto sorted (s ∷ syms) = sorted_onto (insert_sym s sorted) syms

-- The element before `bisect_right(..., phys)`.
unfoldable pub last_below : ℕ → List Sym → Option Sym → Option Sym
last_below phys [] best = best
last_below phys (s ∷ syms) best = if leb s.phys phys then last_below phys syms (some s) else best

abbrev pub within : ℕ → ℕ → Option Sym → Option (Sym × ℕ)
within phys max_distance none = none
within phys max_distance (some s) =
    if ltb max_distance (phys - s.phys) then none else some (s, phys - s.phys)

-- The nearest symbol at or below an address, and the distance to it.
unfoldable pub whereis : SymbolFile → ℕ → ℕ → Option (Sym × ℕ)
unfolding all_syms sorted_onto last_below
whereis f phys max_distance =
    within phys max_distance (last_below phys (sorted_onto [] (all_syms f.by_name)) none)
