-- ===== src/Geometry/Bounds.antt =====
-- Granules lie in ascending order, apart from one another, off the directory track, on the disk.
use xroar_dev.Base.{ℕ, ◌+◌, ◌*◌, ◌/◌, ◌≤◌, ◌<◌, ◌⊎◌, inl, inr, arith, leb, Bool-cases}
use xroar_dev.Geometry.{granule, spt, sector, dir_track, granule_offset, track_offset, num_granules}

-- A granule ends before any granule of a higher number begins.
pub granules_apart :
    (g h base : ℕ) → g < h → granule_offset g base + granule ≤ granule_offset h base
unfolding granule_offset
granules_apart g h base lt = ground arith

-- No granule meets the directory track.
pub granule_off_dir_track :
    (g base : ℕ)
    → (granule_offset g base + granule ≤ track_offset dir_track base)
      ⊎ (track_offset (dir_track + 1) base ≤ granule_offset g base)
unfolding granule_offset track_offset
granule_off_dir_track g base = elim (Bool-cases (leb dir_track (g / 2))) [
  | inl high ↦ inr (ground arith)
  | inr low ↦ inl (ground arith)
]

-- The granules of a disk end on its last track.
pub granule_on_disk :
    (g base tracks : ℕ)
    → g < num_granules tracks
    → granule_offset g base + granule ≤ base + tracks * spt * sector
unfolding granule_offset num_granules
granule_on_disk g base tracks h = ground arith
