-- ===== src/Commands/Rawpack.antt =====
-- `cmd_rawpack` of tools/decb.py, from the parsed arguments and the bytes of the files on.
use xroar_dev.Base.{
  ℕ, zero, suc, ◌+◌, ◌-◌, ◌*◌, ◌/◌, ◌%◌, Bool, not, ◌&&◌, List, [], ◌∷◌, ◌++◌, ltb, ◌==◌,
  if◌then◌else◌, length, replicate,
}
use xroar_dev.Error.{
  Result, not_whole_tracks, overflows_disk, overlaps_directory, already_allocated, too_many_entries,
  value_error, ok, ◌>>=◌, ◌>>◌, die_if,
}
use xroar_dev.Image.{Image, get, put, splice}
use xroar_dev.Geometry.{
  sector, spt, dir_track, free, granule_offset, gat_offset, num_granules, disk_tracks,
}
use xroar_dev.DiskFile.{sectors_of}

abbrev pub rawmap_header_size : ℕ
rawmap_header_size = 4

abbrev pub rawmap_entry_size : ℕ
rawmap_entry_size = 8

abbrev pub rawpack_start_granule : ℕ
rawpack_start_granule = 34

-- A payload with its load address, its first sector and its sector count.
pub record Placed : Type 0 where
  pub payload : List ℕ
  pub addr : ℕ
  pub lsn : ℕ
  pub nsec : ℕ

-- The payloads one after the other from `next_lsn` on, and the sector behind the last.
unfoldable pub place : ℕ → ℕ → List (List ℕ × ℕ) → Result (List Placed × ℕ)
place total_sectors next_lsn [] = ok ([], next_lsn)
place total_sectors next_lsn ((payload, addr) ∷ entries) = do
  let nsec = sectors_of (length payload)
  die_if (not (nsec == 0) && ltb total_sectors (next_lsn + nsec)) overflows_disk
  (placed, end_lsn) ← place total_sectors (next_lsn + nsec) entries
  ok (record { payload = payload; addr = addr; lsn = next_lsn; nsec = nsec } ∷ placed, end_lsn)

-- The granules that the region touches, each of which must be free; `n` is how many are left.
unfoldable pub region : Image → ℕ → ℕ → ℕ → Result (List ℕ)
unfolding granule_offset gat_offset
region d end_lsn zero g = ok []
region d end_lsn (suc n) g = do
  let rest = region d end_lsn n (g + 1)
  if not (ltb (granule_offset g 0 / sector) end_lsn) then ok [] else do
    b ← get d (gat_offset 0 + g)
    die_if (not (b == free)) (already_allocated b)
    grans ← rest
    ok (g ∷ grans)

-- The entry of one payload in the map sector.
unfoldable pub map_entry : ℕ → Placed → List ℕ
map_entry module_id p =
    module_id
    ∷ (p.lsn / 256) % 256
    ∷ p.lsn % 256
    ∷ p.nsec % 256
    ∷ (length p.payload / 256) % 256
    ∷ length p.payload % 256
    ∷ (p.addr / 256) % 256
    ∷ p.addr % 256
    ∷ []

unfoldable pub map_entries : ℕ → List Placed → List ℕ
unfolding map_entry
map_entries module_id [] = []
map_entries module_id (p ∷ placed) = map_entry module_id p ++ map_entries (module_id + 1) placed

-- "RM", the version, the entry count, the entries, and zeroes up to a whole sector.
unfoldable pub map_sector : List Placed → List ℕ
unfolding map_entries
map_sector placed =
    let used = b'R' ∷ b'M' ∷ 1 ∷ length placed ∷ map_entries 0 placed in
    used ++ replicate (sector - length used) 0x00

unfoldable pub write_payloads : Image → List Placed → Image
write_payloads d [] = d
write_payloads d (p ∷ placed) =
    write_payloads
      (if p.nsec == 0 then d else splice d (p.lsn * sector) (length p.payload) p.payload) placed

unfoldable pub mark_used : Image → List ℕ → Result Image
unfolding gat_offset
mark_used d [] = ok d
mark_used d (g ∷ grans) = do d' ← put d (gat_offset 0 + g) 0x00; mark_used d' grans

-- The image after the command; `entries` are the payloads with their addresses.
unfoldable pub rawpack : Image → ℕ → Bool → List (List ℕ × ℕ) → Result Image
unfolding place region write_payloads map_sector mark_used granule_offset num_granules disk_tracks
rawpack d start_granule bare entries = do
  die_if (not bare && ltb ((sector - rawmap_header_size) / rawmap_entry_size) (length entries))
      too_many_entries
  die_if (not (d.size % (spt * sector) == 0)) not_whole_tracks
  let tracks = disk_tracks d
  let start_lsn = granule_offset start_granule 0 / sector
  (placed, end_lsn) ← place (tracks * spt) (start_lsn + (if bare then 0 else 1)) entries
  die_if (ltb start_lsn (dir_track * spt + spt) && ltb (dir_track * spt) end_lsn) overlaps_directory
  grans ← region d end_lsn (num_granules tracks - start_granule) start_granule
  die_if (ltb 255 (length entries)) value_error
  let packed = write_payloads d placed
  let mapped =
      (if bare then packed else splice packed (start_lsn * sector) sector (map_sector placed))
  mark_used mapped grans
