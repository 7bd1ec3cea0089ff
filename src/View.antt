-- ===== src/View.antt =====
-- A drive of an image as the commands see it: the part from `base` on, `tracks` tracks long.
use xroar_dev.Base.{ℕ, ◌+◌, ◌*◌, ◌≤◌, ◌<◌, ◌⊎◌, inl, inr, List, arith, All, All-map}
use xroar_dev.Image.{Image}
use xroar_dev.Geometry.{
  sector, spt, granule, dir_track, granule_offset, track_offset, gat_offset, num_granules,
}
use xroar_dev.Directory.Slots.{IsSlot}
use xroar_dev.Geometry.Bounds.{granule_off_dir_track, granule_on_disk}

-- The tracks lie inside the image, the directory track is one of them, and no granule number can be
-- mistaken for a terminator (at most 97 tracks).
pub record IsView (d : Image) (base tracks : ℕ) : Type 0 where
  pub fits : base + tracks * spt * sector ≤ d.size
  pub has_directory : dir_track < tracks
  pub links : num_granules tracks ≤ 0xC0

module _ (d : Image) (base tracks : ℕ) (v : IsView d base tracks) where
  pub gat_fits : gat_offset base + 256 ≤ d.size
  unfolding gat_offset
  gat_fits = let a = v.fits in let b = v.has_directory in omega arith

  pub slot_fits : (off : ℕ) → IsSlot base off → off + 32 ≤ d.size
  slot_fits off (k, lt, e) = omega (arith, v.fits, v.has_directory)

  pub slots_fit-All : (offs : List ℕ) → All (IsSlot base) offs → All (λ off. off < d.size) offs
  slots_fit-All offs h = All-map (λ x slot. omega (arith, slot_fits x slot)) offs h

  -- A granule of the drive lies in the image, apart from the table and the directory.
  pub granule_fits : (g : ℕ) → g < num_granules tracks → granule_offset g base + granule ≤ d.size
  granule_fits g lt = omega (arith, granule_on_disk g base tracks lt, v.fits)

pub granule_off_table :
    (g base : ℕ)
    → (granule_offset g base + granule ≤ gat_offset base)
      ⊎ (gat_offset base + 256 ≤ granule_offset g base)
unfolding gat_offset
granule_off_table g base = omega (arith, granule_off_dir_track g base)

pub granule_off_slot :
    (g base off : ℕ)
    → IsSlot base off
    → (granule_offset g base + granule ≤ off) ⊎ (off + 32 ≤ granule_offset g base)
granule_off_slot g base off (k, lt, e) = elim (granule_off_dir_track g base) [
  | inl low ↦ inl (unfold track_offset in omega arith)
  | inr high ↦ inr (unfold track_offset in omega arith)
]

pub slot_off_table : (base off : ℕ) → IsSlot base off → gat_offset base + 256 ≤ off
unfolding gat_offset
slot_off_table base off (k, lt, e) = omega arith
