-- ===== src/Handlers/Directory.antt =====
-- `cmd_dir` of tools/decb.py.
pub mod Listed
use xroar_dev.Base.{
  ℕ, zero, suc, ◌+◌, ◌*◌, Bool, true, not, ◌&&◌, ◌||◌, Option, none, some, List, [], ◌∷◌, ltb, leb,
  ◌==◌, if◌then◌else◌, get_or, take, drop,
}
use xroar_dev.Error.{Result, ◌>>=◌, out_of_fuel, unknown_option, err, ok}
use xroar_dev.Image.{Image, get, slice}
use xroar_dev.Geometry.{
  sector, dir_track, entry_size, free, deleted, track_offset, gat_offset, num_granules,
}
use xroar_dev.Directory.{dir_slots}
use xroar_dev.Dskini.{hdb_name_sector}
use xroar_dev.Commands.Recover.{Status, deleted_status}
use xroar_dev.Commands.Wipe.{any_set}

-- A line of the listing: the name's 11 bytes, the type and the flag, then the granules of a file, or
-- what is known of a deleted one.
pub data Shown : Type 0 where
  shown_file : List ℕ → ℕ → ℕ → ℕ → Shown
  shown_deleted : List ℕ → ℕ → ℕ → Status → Shown

-- The granules of a chain, counted up to the first that is off the drive or has no link.
unfoldable pub count_granules : Image → ℕ → ℕ → ℕ → ℕ → ℕ → Result ℕ
unfolding get
count_granules d gat total zero g gran_size = err out_of_fuel
count_granules d gat total (suc fuel) g gran_size =
    if ltb g total
    then (do
      b ← get d (gat + g)
      if ltb b 0xC0 && leb gran_size total
          then count_granules d gat total fuel b (gran_size + 1)
          else ok gran_size)
    else ok gran_size

unfoldable pub shown_entry : Image → ℕ → ℕ → Bool → ℕ → ℕ → Result (Option Shown)
unfolding slice deleted_status count_granules
shown_entry d gat base show_deleted total_grans off =
    let entry = slice d off entry_size in
    get d off >>= λ first.
    if first == free
    then ok none
    else if first == deleted
    then if not show_deleted || not (any_set (take 10 (drop 1 entry))) then ok none else (do
      why ← deleted_status d entry total_grans base
      ok (some (shown_deleted (take 11 entry) (get_or entry 11 0) (get_or entry 12 0) why)))
    else (do
      gran_size ← count_granules d gat total_grans (total_grans + 1) (get_or entry 13 0) 1
      ok (some (shown_file (take 11 entry) (get_or entry 11 0) (get_or entry 12 0) gran_size)))

abbrev pub cons_some : Option Shown → List Shown → List Shown
cons_some none lines = lines
cons_some (some line) lines = line ∷ lines

unfoldable pub shown_entries : Image → ℕ → ℕ → Bool → ℕ → List ℕ → Result (List Shown)
unfolding shown_entry
shown_entries d gat base show_deleted total_grans [] = ok []
shown_entries d gat base show_deleted total_grans (off ∷ offs) = do
  line ← shown_entry d gat base show_deleted total_grans off
  lines ← shown_entries d gat base show_deleted total_grans offs
  ok (cons_some line lines)

abbrev pub up_to_nul : List ℕ → List ℕ
up_to_nul [] = []
up_to_nul (b ∷ bytes) = if b == 0x00 then [] else b ∷ up_to_nul bytes

-- The name of an HDB-DOS disk, if it has one.
unfoldable pub shown_name : Image → ℕ → Result (Option (List ℕ))
unfolding track_offset get slice
shown_name d base = do
  let noff = track_offset dir_track base + hdb_name_sector * sector
  b ← get d noff
  ok (if b == 0xFF then none else some (up_to_nul (slice d noff sector)))

-- The disk name and the lines of a directory.
unfoldable pub dir_lines : Image → ℕ → ℕ → Bool → Result (Option (List ℕ) × List Shown)
unfolding shown_name shown_entries dir_slots gat_offset num_granules
dir_lines d base tracks show_deleted = do
  disk_name ← shown_name d base
  lines ← shown_entries d (gat_offset base) base show_deleted (num_granules tracks) (dir_slots base)
  ok (disk_name, lines)

unfoldable pub dir_flag : ℕ → Bool → Result Bool
dir_flag c show_deleted = if c == b'd' then ok true else err (unknown_option c)
