-- ===== src/DiskFile/Allocation.antt =====
-- `allocation` takes as many granules and sectors as the size needs, and `entry_geometry` undoes it.
use xroar_dev.Base.{ℕ, ◌+◌, ◌-◌, ◌*◌, ◌/◌, ◌%◌, ◌≤◌, ◌<◌, ◌≡◌, ◌⊎◌, inl, inr, arith}
use xroar_dev.Geometry.{sector, granule_sectors, granule}
use xroar_dev.DiskFile.{sectors_of, granules_of, allocation, last_sector_bytes}
use xroar_dev.Gat.{last_sector_size}

-- `count` granules, `last` sectors in the last of them, for `size` bytes.
pub record Covers (size count last : ℕ) : Type 0 where
  pub some_granule : 0 < count
  pub room : size ≤ count * granule
  pub needed : ((count - 1) * granule < size) ⊎ ((size ≡ 0) × (count ≡ 1))
  pub sectors : (count - 1) * granule_sectors + last ≡ sectors_of size
  pub last_small : last ≤ granule_sectors

-- The granules have room for the payload, one fewer would be too few (an empty file takes one), and
-- the full granules and the last one's sectors add up to its sectors.
pub allocation-Covers : (size : ℕ) → Covers size (allocation size).0 (allocation size).1
unfolding allocation granules_of
allocation-Covers size = ground arith

-- The granules before the last are full.
pub before_last : {size count last : ℕ} → Covers size count last → (count - 1) * granule ≤ size
before_last {size} {count} {last} covers = elim covers.needed [
  | inl more ↦ omega arith
  | inr (empty, one) ↦ rw (one, empty) (omega arith)
]

-- The byte size that the sector count and the last sector's byte count stand for.
pub size_from_sectors :
    (size : ℕ)
    → 0 < size
    → (sectors_of size - 1) * sector
        + last_sector_size ((last_sector_bytes size / 256) % 256) (last_sector_bytes size % 256)
      ≡ size
unfolding last_sector_size last_sector_bytes
size_from_sectors size h = ground arith
