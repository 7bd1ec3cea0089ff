-- ===== src/Commands/Edit.antt =====
-- `cmd_kill`, `cmd_rename`, `cmd_attr`, `cmd_free` and `cmd_stat` of tools/decb.py, from the loaded
-- image on. An error leaves the image file alone, since nothing has been saved.
use mathlib.Core.List.{map}
use xroar_dev.Base.{
  ℕ, ◌+◌, ◌-◌, ◌*◌, ◌/◌, Option, none, some, List, ◌==◌, if◌then◌else◌, length, get_or, take,
}
use xroar_dev.Error.{Result, file_not_found, file_exists, ok, err, ◌>>=◌}
use xroar_dev.Image.{Image, get, put, slice, splice}
use xroar_dev.Geometry.{
  sector, entry_size, deleted, granule_offset, gat_offset, num_granules, granule_track,
}
use xroar_dev.Names.{encode_name, entry_to_name}
use xroar_dev.Directory.{find_entry}
use xroar_dev.Gat.{entry_geometry, free_list, free_chain}
use xroar_dev.Host.{last_or}

-- The slot of a file, or the error of the command that asked for it.
unfoldable pub require_entry : Image → List ℕ → ℕ → Result ℕ
unfolding find_entry
require_entry d name_field base = do
  found ← find_entry d name_field base
  elim found [ none ↦ err file_not_found | some off ↦ ok off ]

unfoldable pub kill_file : Image → List ℕ → ℕ → ℕ → Result Image
unfolding encode_name require_entry free_chain num_granules
kill_file d name base tracks = do
  name_field ← encode_name name
  off ← require_entry d name_field base
  first_gran ← get d (off + 13)
  d' ← put d off deleted
  free_chain d' first_gran (num_granules tracks) base

unfoldable pub rename_file : Image → List ℕ → List ℕ → ℕ → Result Image
unfolding encode_name require_entry find_entry
rename_file d old_name new_name base = do
  old_field ← encode_name old_name
  off ← require_entry d old_field base
  new_field ← encode_name new_name
  clash ← find_entry d new_field base
  elim clash [ some _ ↦ err file_exists | none ↦ ok (splice d off 11 new_field) ]

-- `data[i] = v` where an option gave `v`.
unfoldable pub put_option : Image → ℕ → Option ℕ → Result Image
put_option d i none = ok d
put_option d i (some v) = put d i v

-- The image, and the file type and the data type that are shown.
unfoldable pub attr_file : Image → List ℕ → Option ℕ → Option ℕ → ℕ → Result (Image × ℕ × ℕ)
unfolding encode_name require_entry put_option
attr_file d name ftype ascii_flag base = do
  name_field ← encode_name name
  off ← require_entry d name_field base
  typed ← put_option d (off + 11) ftype
  flagged ← put_option typed (off + 12) ascii_flag
  ft ← get flagged (off + 11)
  dt ← get flagged (off + 12)
  ok (flagged, ft, dt)

unfoldable pub free_granules : Image → ℕ → ℕ → Result ℕ
unfolding free_list gat_offset num_granules
free_granules d base tracks = do
  grans ← free_list d (gat_offset base) (num_granules tracks) 0
  ok (length grans)

-- What `stat` shows of a file: the bytes used in its last sector, and the count that the entry gives
-- for them; the chain with the table byte that ends it; the track and the first sector on the drive of
-- each granule.
pub record Stat : Type 0 where
  pub shown_name : List ℕ
  pub ftype : ℕ
  pub ascii_flag : ℕ
  pub size : ℕ
  pub sectors : ℕ
  pub used : ℕ
  pub lss : ℕ
  pub grans : List ℕ
  pub terminator : ℕ
  pub granule_map : List (ℕ × ℕ × ℕ)

unfoldable pub stat_file : Image → List ℕ → ℕ → ℕ → Result Stat
unfolding encode_name entry_to_name require_entry entry_geometry granule_offset granule_track
    gat_offset num_granules
stat_file d name base tracks = do
  name_field ← encode_name name
  off ← require_entry d name_field base
  let entry = slice d off entry_size
  (grans, sectors, size) ← entry_geometry d entry (num_granules tracks) base
  terminator ← get d (gat_offset base + last_or grans 0)
  ok (record {
    shown_name = entry_to_name (take 11 entry);
    ftype = get_or entry 11 0;
    ascii_flag = get_or entry 12 0;
    size = size;
    sectors = sectors;
    used = if sectors == 0 then 0 else size - (sectors - 1) * sector;
    lss = get_or entry 14 0 * 256 + get_or entry 15 0;
    grans = grans;
    terminator = terminator;
    granule_map = map (λ g. (g, granule_track g, (granule_offset g base - base) / sector)) grans;
  })
