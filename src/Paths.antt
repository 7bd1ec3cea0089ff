-- ===== src/Paths.antt =====
-- Image paths on the command line of tools/decb.py: `split_image_path`, `parse_drive_suffix`,
-- `normalize_disk_arg` and `parse_dump_where`. A text is its code points, up to 0xFF.
pub mod Normal
mod Tests
use xroar_dev.Base.{
  ℕ, ◌+◌, ◌-◌, ◌*◌, Bool, true, false, ◌&&◌, Option, none, some, List, [], ◌∷◌, ◌++◌, ltb, leb,
  if◌then◌else◌,
}
use xroar_dev.Error.{Result, value_error, bad_location, off_disk, bad_drive_suffix, err, ok, ◌>>=◌}
use xroar_dev.Geometry.{sector, spt}
use xroar_dev.Names.{rpartition}
use xroar_dev.Text.{ℤ, pos, negsuc, negate, partition, int_10, nonempty, int_0, all_digits}

-- `int(s)` where a ValueError is not caught.
abbrev pub uncaught : Option ℤ → Result ℤ
uncaught none = err value_error
uncaught (some n) = ok n

-- The part of a number that is not negative.
abbrev pub nonnegative : ℤ → ℕ
nonnegative (pos n) = n
nonnegative (negsuc n) = 0

-- `int(ostr, 0) * SECTOR`
abbrev pub times_sector : ℤ → ℤ
times_sector (pos n) = pos (n * sector)
times_sector (negsuc n) = negate ((n + 1) * sector)

-- The drive number: all of it are digits, so it is not negative.
unfoldable pub drive_number : List ℕ → ℤ → Result (Option (ℕ × ℤ))
unfolding all_digits int_10
drive_number dstr off =
    if nonempty dstr && all_digits dstr
    then (do n ← uncaught (int_10 dstr); ok (some (nonnegative n, off)))
    else ok none

unfoldable pub parse_drive_suffix : List ℕ → Result (Option (ℕ × ℤ))
unfolding partition int_0 drive_number
parse_drive_suffix dstr = elim (partition b'+' dstr) [
  | none ↦ drive_number dstr (pos 0)
  | some (number, ostr) ↦ elim (int_0 ostr) [
    | none ↦ ok none
    | some off ↦ drive_number number (times_sector off)
  ]
]

-- `(disk, name, drive)`
pub record ImagePath : Type 0 where
  pub disk : List ℕ
  pub name : List ℕ
  pub drive : Option (ℕ × ℤ)

-- The name may carry a drive suffix.
unfoldable pub with_suffix : List ℕ → List ℕ → Result ImagePath
unfolding rpartition parse_drive_suffix
with_suffix disk name = elim (rpartition b':' name) [
  | none ↦ ok (record { disk = disk; name = name; drive = none })
  | some (before, dstr) ↦ do
    drive ← parse_drive_suffix dstr
    elim drive [
      | none ↦ err bad_drive_suffix
      | some d ↦ ok (record { disk = disk; name = before; drive = some d })
    ]
]

unfoldable pub split_image_path : List ℕ → Result (Option ImagePath)
unfolding partition with_suffix
split_image_path arg = elim (partition b',' arg) [
  | none ↦ ok none
  | some (disk, name) ↦ do path ← with_suffix disk name; ok (some path)
]

abbrev pub is_some : Option (ℕ × ℤ) → Bool
is_some none = false
is_some (some d) = true

unfoldable pub normalize_disk_arg : List ℕ → Result (List ℕ)
unfolding partition rpartition parse_drive_suffix
normalize_disk_arg p = elim (partition b',' p) [
  | some _ ↦ ok p
  | none ↦ elim (rpartition b':' p) [
    | none ↦ ok (p ++ b',' ∷ [])
    | some (before, after) ↦
        if nonempty before
        then (do
          drive ← parse_drive_suffix after
          ok (if is_some drive then before ++ b',' ∷ b':' ∷ after else p ++ b',' ∷ []))
        else ok (p ++ b',' ∷ [])
  ]
]

-- `die` for a location that is no number.
abbrev pub location : Option ℤ → Result ℤ
location none = err bad_location
location (some n) = ok n

-- `0 <= t < tracks and 1 <= s <= SPT`
abbrev pub on_track : ℤ → ℤ → ℕ → Result (ℕ × ℕ)
on_track (pos t) (pos s) tracks =
    if ltb t tracks && leb 1 s && leb s spt
    then ok (t * spt + s - 1, t * spt + s - 1)
    else err off_disk
on_track _ _ tracks = err off_disk

-- `0 <= a <= b < total`
abbrev pub in_range : ℤ → ℤ → ℕ → Result (ℕ × ℕ)
in_range (pos a) (pos b) total = if leb a b && ltb b total then ok (a, b) else err off_disk
in_range _ _ total = err off_disk

-- Two numbers, and the test for them.
abbrev pub two_numbers : List ℕ × List ℕ → (ℤ → ℤ → Result (ℕ × ℕ)) → Result (ℕ × ℕ)
two_numbers (a_s, b_s) test = do a ← location (int_10 a_s); b ← location (int_10 b_s); test a b

unfoldable pub parse_dump_where : List ℕ → ℕ → Result (ℕ × ℕ)
unfolding partition int_10
parse_dump_where w tracks = elim (partition b'.' w) [
  | some parts ↦ two_numbers parts (λ t s. on_track t s tracks)
  | none ↦ elim (partition b'-' w) [
    | some parts ↦ two_numbers parts (λ a b. in_range a b (tracks * spt))
    | none ↦ do n ← location (int_10 w); in_range n n (tracks * spt)
  ]
]
