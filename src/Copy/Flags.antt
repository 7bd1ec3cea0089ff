-- ===== src/Copy/Flags.antt =====
-- The options of the commands of tools/decb.py, and those of `cmd_copy`.
use xroar_dev.Base.{
  ℕ, ◌-◌, Bool, true, false, not, ◌&&◌, Option, none, some, List, [], ◌∷◌, ltb, leb, ◌==◌,
  if◌then◌else◌, length, get_or, drop, elem,
}
use xroar_dev.Error.{Result, ◌>>=◌, unknown_option, err, ok}

-- `a.startswith("-") and "," not in a and len(a) > 1`
unfoldable pub is_option : List ℕ → Bool
is_option a = (get_or a 0 0 == b'-') && ltb 1 (length a) && not (elem b',' a)

-- `None` inherits from an image, or stands for the default.
pub record Options : Type 0 where
  pub ftype : Option ℕ
  pub ascii_flag : Option ℕ
  pub rewrite : Bool
  pub tokenize : Bool
  pub eol : Bool
  pub from_deleted : Bool
  pub concat_segments : Bool

abbrev pub no_options : Options
no_options = record {
  ftype = none;
  ascii_flag = none;
  rewrite = false;
  tokenize = false;
  eol = false;
  from_deleted = false;
  concat_segments = false;
}

-- One letter of an option.
unfoldable pub copy_flag : ℕ → Options → Result Options
copy_flag c o =
    if leb b'0' c && leb c b'3'
    then ok (record o { ftype = some (c - b'0') })
    else if c == b'a'
    then ok (record o { ascii_flag = some 0xFF })
    else if c == b'b'
    then ok (record o { ascii_flag = some 0x00 })
    else if c == b'r'
    then ok (record o { rewrite = true })
    else if c == b't'
    then ok (record o { tokenize = true })
    else if c == b'l'
    then ok (record o { eol = true })
    else if c == b'd'
    then ok (record o { from_deleted = true })
    else if c == b'c'
    then ok (record o { concat_segments = true })
    else err (unknown_option c)

unfoldable pub copy_flags : List ℕ → Options → Result Options
unfolding copy_flag
copy_flags [] o = ok o
copy_flags (c ∷ cs) o = do o' ← copy_flag c o; copy_flags cs o'

-- The options, and the other arguments in their order.
unfoldable pub copy_args : List (List ℕ) → Options → Result (Options × List (List ℕ))
unfolding copy_flags is_option
copy_args [] o = ok (o, [])
copy_args (a ∷ args) o = do
  o' ← (if is_option a then copy_flags (drop 1 a) o else ok o)
  (final, positional) ← copy_args args o'
  ok (final, if is_option a then positional else a ∷ positional)
