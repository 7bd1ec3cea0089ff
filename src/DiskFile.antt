-- ===== src/DiskFile.antt =====
-- Files on a disk image: `read_file` and `write_file` of tools/decb.py.
pub mod Allocation
pub mod Lay
pub mod Write
pub mod Frame
pub mod Same
pub mod Outcome
pub mod Kept
pub mod Others
pub mod Entry
pub mod Stored
pub mod RoundTrip
pub mod Store
pub mod Size
mod Tests
use xroar_dev.Base.{
  ℕ, ◌+◌, ◌-◌, ◌*◌, ◌/◌, ◌%◌, Bool, not, ◌&&◌, none, some, List, [], ◌∷◌, ◌++◌, ltb, ◌==◌,
  if◌then◌else◌, length, get_or, take, drop, replicate,
}
use xroar_dev.Error.{Result, value_error, file_not_found, ok, err, die_if, ◌>>=◌, ◌>>◌}
use xroar_dev.Image.{Image, get, slice, splice}
use xroar_dev.Geometry.{
  sector, granule_sectors, granule, entry_size, granule_offset, gat_offset, num_granules,
}
use xroar_dev.Names.{encode_name}
use xroar_dev.Directory.{live, find_entry, find_dir_entry}
use xroar_dev.Gat.{entry_geometry, find_free_granules, free_chain, link_chain}

-- The granules of a chain, one after the other.
unfoldable pub read_granules : Image → ℕ → List ℕ → List ℕ
unfolding granule_offset
read_granules d base [] = []
read_granules d base (g ∷ grans) =
    slice d (granule_offset g base) granule ++ read_granules d base grans

unfoldable pub read_entry_payload : Image → List ℕ → ℕ → ℕ → Result (List ℕ)
unfolding entry_geometry read_granules num_granules
read_entry_payload d entry base tracks = do
  (grans, sectors, size) ← entry_geometry d entry (num_granules tracks) base
  ok (take size (read_granules d base grans))

-- The payload, the file type and the ASCII flag.
unfoldable pub read_file : Image → List ℕ → ℕ → ℕ → Result (List ℕ × ℕ × ℕ)
unfolding encode_name find_entry read_entry_payload
read_file d name base tracks = do
  name_field ← encode_name name
  found ← find_entry d name_field base
  elim found [
    | none ↦ err file_not_found
    | some off ↦ do
      let entry = slice d off entry_size
      payload ← read_entry_payload d entry base tracks
      ok (payload, get_or entry 11 0, get_or entry 12 0)
  ]

abbrev pub sectors_of : ℕ → ℕ
sectors_of size = (size + sector - 1) / sector

-- A full last granule is counted as the last one: `full_grans` and `last_gran_sectors`.
unfoldable pub granules_of : ℕ → ℕ × ℕ
granules_of total_sectors =
    let full_grans = total_sectors / granule_sectors in
    let last = total_sectors - full_grans * granule_sectors in
    if (last == 0) && ltb 0 full_grans
    then (full_grans - 1, granule_sectors)
    else (full_grans, last)

-- `gran_count` and `last_gran_sectors` of a file of `size` bytes.
unfoldable pub allocation : ℕ → ℕ × ℕ
unfolding granules_of
allocation size =
    let (full, last) = granules_of (sectors_of size) in
    let count = full + (if last == 0 then 0 else 1) in if count == 0 then (1, 0) else (count, last)

unfoldable pub last_sector_bytes : ℕ → ℕ
last_sector_bytes size = if size == 0 then 0 else size - (sectors_of size - 1) * sector

-- The file data, laid into the granules.
unfoldable pub lay : Image → ℕ → List ℕ → List ℕ → Image
unfolding granule_offset
lay d base [] payload = d
lay d base (g ∷ grans) payload =
    let chunk = take granule payload in
    lay (splice d (granule_offset g base) (length chunk) chunk) base grans (drop granule payload)

-- A bytearray of 32 bytes takes only bytes.
unfoldable pub build_entry : List ℕ → ℕ → ℕ → ℕ → ℕ → Result (List ℕ)
build_entry name_field ftype ascii_flag first lss = do
  die_if (not (ltb ftype 256 && ltb ascii_flag 256 && ltb first 256)) value_error
  ok (name_field ++ ftype ∷ ascii_flag ∷ first ∷ (lss / 256) % 256 ∷ lss % 256 ∷ replicate 16 0)

-- The old chain of a slot that is taken over is freed.
unfoldable pub clear_slot : Image → ℕ → ℕ → ℕ → Result Image
unfolding free_chain
clear_slot d off total_grans base = do
  old ← get d off
  if live old then (do first ← get d (off + 13); free_chain d first total_grans base) else ok d

unfoldable pub write_file : Image → List ℕ → List ℕ → ℕ → ℕ → Bool → ℕ → ℕ → Result Image
unfolding encode_name allocation last_sector_bytes find_dir_entry clear_slot find_free_granules
    link_chain lay build_entry num_granules gat_offset
write_file d name payload ftype ascii_flag rewrite base tracks = do
  let total_grans = num_granules tracks
  name_field ← encode_name name
  let (gran_count, last_gran_sectors) = allocation (length payload)
  dir_off ← find_dir_entry d name_field rewrite base
  cleared ← clear_slot d dir_off total_grans base
  grans ← find_free_granules cleared gran_count total_grans base
  linked ← link_chain cleared (gat_offset base) grans last_gran_sectors
  let laid = lay linked base grans payload
  entry ←
      build_entry name_field ftype ascii_flag (get_or grans 0 0)
        (last_sector_bytes (length payload))
  ok (splice laid dir_off entry_size entry)
