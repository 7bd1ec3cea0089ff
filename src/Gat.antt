-- ===== src/Gat.antt =====
-- The granule allocation table of tools/decb.py: walking, freeing and choosing granules. A table byte
-- is `free`, the number of the next granule, or a terminator of 0xC0 and up.
pub mod Chain
pub mod Free
pub mod Link
pub mod Nodup
pub mod Release
pub mod Total
mod Tests
use xroar_dev.Base.{
  ℕ, zero, suc, ◌+◌, ◌-◌, ◌*◌, ◌/◌, ◌%◌, ◌||◌, List, [], ◌∷◌, ltb, leb, ◌==◌, if◌then◌else◌, length,
  get_or, take,
}
use xroar_dev.Error.{Result, out_of_fuel, corrupt_chain, disk_full, ok, err, ◌>>=◌}
use xroar_dev.Image.{Image, get, put}
use xroar_dev.Geometry.{sector, granule_sectors, free, gat_offset}

-- The loop of `chain_granules`: `count` is `len(grans)`, the granules are consed instead of appended.
unfoldable pub walk : Image → ℕ → ℕ → ℕ → ℕ → ℕ → Result (List ℕ × ℕ)
walk d gat total zero count g = err out_of_fuel
walk d gat total (suc fuel) count g =
    if leb total g || ltb total count then err corrupt_chain else do
      nxt ← get d (gat + g)
      let rest = walk d gat total fuel (count + 1) nxt
      if leb 0xC0 nxt
          then ok (g ∷ [], nxt)
          else do (grans, terminator) ← rest; ok (g ∷ grans, terminator)

unfoldable pub chain_granules : Image → ℕ → ℕ → ℕ → Result (List ℕ × ℕ)
unfolding walk gat_offset
chain_granules d first_gran total_grans base =
    walk d (gat_offset base) total_grans (total_grans + 2) 0 first_gran

-- `(entry[14] << 8) | entry[15]`, with DECB's full sector for what cannot be a count.
unfoldable pub last_sector_size : ℕ → ℕ → ℕ
last_sector_size hi lo =
    let lss = hi * 256 + lo in if (lss == 0) || ltb sector lss then sector else lss

-- `entry` is a directory entry of 32 bytes.
unfoldable pub entry_geometry : Image → List ℕ → ℕ → ℕ → Result (List ℕ × ℕ × ℕ)
unfolding chain_granules last_sector_size
entry_geometry d entry total_grans base = do
  (grans, terminator) ← chain_granules d (get_or entry 13 0) total_grans base
  let total_sectors = (length grans - 1) * granule_sectors + terminator % 64
  if total_sectors == 0
      then ok (grans, 0, 0)
      else ok (
        grans,
        total_sectors,
        (total_sectors - 1) * sector + last_sector_size (get_or entry 14 0) (get_or entry 15 0),
      )

-- The list comprehension of `find_free_granules`, for `n` granules from `g`.
unfoldable pub free_list : Image → ℕ → ℕ → ℕ → Result (List ℕ)
free_list d gat zero g = ok []
free_list d gat (suc n) g = do
  b ← get d (gat + g)
  rest ← free_list d gat n (g + 1)
  ok (if b == free then g ∷ rest else rest)

unfoldable pub find_free_granules : Image → ℕ → ℕ → ℕ → Result (List ℕ)
unfolding free_list gat_offset
find_free_granules d count total_grans base = do
  grans ← free_list d (gat_offset base) total_grans 0
  if ltb (length grans) count then err (disk_full count (length grans)) else ok (take count grans)

-- The loop of `free_chain`, for `rounds` more values of `seen`; `nxt & 0xC0 == 0xC0` ends it.
unfoldable pub release : Image → ℕ → ℕ → ℕ → Result Image
release d gat zero g = ok d
release d gat (suc rounds) g = do
  nxt ← get d (gat + g)
  d' ← put d (gat + g) free
  let rest = release d' gat rounds nxt
  if (nxt / 64) % 4 == 3 then ok d' else rest

unfoldable pub free_chain : Image → ℕ → ℕ → ℕ → Result Image
unfolding release gat_offset
free_chain d first_gran total_grans base = release d (gat_offset base) (total_grans + 1) first_gran

-- `write_file`: the granule chain is written into the table.
unfoldable pub link_chain : Image → ℕ → List ℕ → ℕ → Result Image
link_chain d gat [] last_sectors = ok d
link_chain d gat (g ∷ []) last_sectors = put d (gat + g) (0xC0 + last_sectors % 64)
link_chain d gat (g ∷ h ∷ grans) last_sectors = do
  d' ← put d (gat + g) h
  link_chain d' gat (h ∷ grans) last_sectors
