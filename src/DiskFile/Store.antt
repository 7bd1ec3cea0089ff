-- ===== src/DiskFile/Store.antt =====
-- A file that is linked, laid and entered is read back.
use mathlib.Core.Path.{ap₂}
use xroar_dev.Base.{
  ℕ, ◌+◌, ◌≤◌, ◌<◌, ◌≡◌, refl, sym, ◌∙◌, ◌⊎◌, inl, List, [], ◌∷◌, ◌++◌, arith, length, All, All-map,
}
use xroar_dev.Error.{ok}
use xroar_dev.Image.{Image, slice, splice}
use xroar_dev.Geometry.{granule, granule_offset, gat_offset, num_granules}
use xroar_dev.View.{
  IsView, gat_fits, granule_fits, granule_off_table, granule_off_slot, slot_off_table,
}
use xroar_dev.DiskFile.{read_granules, lay}
use xroar_dev.Gat.{chain_granules}
use xroar_dev.Directory.Slots.{IsSlot}
use xroar_dev.DiskFile.Lay.{OffGranules, Fit, size-lay, slice-lay_outside, byte-lay_outside}
use xroar_dev.Gat.Chain.{IsChain, table, IsChain-ext, walk_complete}
use xroar_dev.Gat.Free.{IsAscending}
use xroar_dev.Image.Slices.{
  size-splice, byte-splice_outside, slice-splice_self, slice-splice_outside,
}

-- The image after the last step of `write_file`.
abbrev pub store : Image → ℕ → List ℕ → List ℕ → ℕ → List ℕ → Image
store d base grans payload off entry = splice (lay d base grans payload) off (length entry) entry

length-ascending :
    (lo hi : ℕ) (grans : List ℕ)
    → lo ≤ hi
    → All (λ g. (lo ≤ g) × (g < hi)) grans
    → IsAscending grans
    → lo + length grans ≤ hi
length-ascending lo hi [] le h asc = omega arith
length-ascending lo hi (g ∷ grans) le h asc =
    let above : All (λ x. (g + 1 ≤ x) × (x < hi)) grans = both grans asc.0 h.1 in
    omega (arith, length-ascending (g + 1) hi grans (omega (arith, h.0)) above asc.1, h.0)
  where
    both :
        (xs : List ℕ)
        → All (λ x. g < x) xs
        → All (λ x. (lo ≤ x) × (x < hi)) xs
        → All (λ x. (g + 1 ≤ x) × (x < hi)) xs
    both [] a b = tt
    both (x ∷ xs) a b = ((omega (arith, a.0), b.0.1), both xs a.1 b.1)

pub read_granules_ext :
    (d e : Image) (base : ℕ) (grans : List ℕ)
    → All
        (λ g. slice e (granule_offset g base) granule ≡ slice d (granule_offset g base) granule)
        grans
    → read_granules e base grans ≡ read_granules d base grans
unfolding read_granules
read_granules_ext d e base [] h = refl
read_granules_ext d e base (g ∷ grans) h =
    ap₂ (λ x y. x ++ y) h.0 (read_granules_ext d e base grans h.1)

-- The image `d` is a drive, whose table links the granules; `entry` goes into the slot at `off`.
module _ (d : Image) (base tracks g : ℕ) (grans payload : List ℕ) (off : ℕ) (entry : List ℕ)
    (view : IsView d base tracks) (below : All (λ x. x < num_granules tracks) (g ∷ grans))
    (asc : IsAscending (g ∷ grans)) (slot : IsSlot base off) (whole : length entry ≡ 32) where
  pub store-Fit : Fit d base (g ∷ grans)
  store-Fit = All-map (λ x lt. granule_fits d base tracks view x lt) (g ∷ grans) below

  size-laid : (lay d base (g ∷ grans) payload).size ≡ d.size
  size-laid = size-lay d base (g ∷ grans) payload store-Fit

  entry_fits : off + length entry ≤ (lay d base (g ∷ grans) payload).size
  entry_fits = omega (arith, size-laid, whole, view.fits, view.has_directory, slot.1, slot.2)

  pub size-store : (store d base (g ∷ grans) payload off entry).size ≡ d.size
  size-store = size-splice (lay d base (g ∷ grans) payload) off entry entry_fits ∙ size-laid

  -- The entry is in its slot.
  pub slice-store_entry :
      slice (store d base (g ∷ grans) payload off entry) off (length entry) ≡ entry
  slice-store_entry = slice-splice_self (lay d base (g ∷ grans) payload) off entry entry_fits

  -- The table is as it was linked.
  pub table-store :
      (x : ℕ)
      → x < 256
      → table (store d base (g ∷ grans) payload off entry) (gat_offset base) x
        ≡ table d (gat_offset base) x
  table-store x lt =
      byte-splice_outside (lay d base (g ∷ grans) payload) off entry entry_fits
        (gat_offset base + x) (inl (omega (arith, slot_off_table base off slot)))
      ∙ byte-lay_outside d base (g ∷ grans) payload (gat_offset base + x) store-Fit
          (All-map (λ y h. ground (arith, granule_off_table y base)) (g ∷ grans) below)

  -- A range off the granules and the slot is as it was.
  pub slice-store_outside :
      (at n : ℕ)
      → OffGranules base (g ∷ grans) at n
      → (at + n ≤ off) ⊎ (off + 32 ≤ at)
      → slice (store d base (g ∷ grans) payload off entry) at n ≡ slice d at n
  slice-store_outside at n out away =
      slice-splice_outside (lay d base (g ∷ grans) payload) off entry entry_fits at n
        (ground (arith, whole))
      ∙ slice-lay_outside d base (g ∷ grans) payload at n store-Fit out

  -- The granules read as they were laid.
  pub read_granules-store :
      read_granules (store d base (g ∷ grans) payload off entry) base (g ∷ grans)
      ≡ read_granules (lay d base (g ∷ grans) payload) base (g ∷ grans)
  read_granules-store =
      read_granules_ext (lay d base (g ∷ grans) payload)
        (store d base (g ∷ grans) payload off entry) base (g ∷ grans)
        (All-map
          (λ x lt.
            slice-splice_outside (lay d base (g ∷ grans) payload) off entry entry_fits
              (granule_offset x base) granule
              (ground (arith, whole, granule_off_slot x base off slot)))
          (g ∷ grans) below)

  pub chain-store :
      (t : ℕ)
      → IsChain (table d (gat_offset base)) (num_granules tracks) (g ∷ grans) t
      → chain_granules (store d base (g ∷ grans) payload off entry) g (num_granules tracks) base
        ≡ ok (g ∷ grans, t)
  unfolding chain_granules
  chain-store t chain =
      let total = num_granules tracks in
      let e = store d base (g ∷ grans) payload off entry in
      let few : 0 + length (g ∷ grans) ≤ total =
        length-ascending 0 total (g ∷ grans) (omega arith)
          (All-map (λ x lt. (omega arith, lt)) (g ∷ grans) below) asc in
      walk_complete e (gat_offset base) total (total + 2) 0 g grans t
        (omega (arith, size-store, gat_fits d base tracks view, view.links)) (omega arith)
        (omega arith)
        (IsChain-ext (table d (gat_offset base)) (table e (gat_offset base)) total (g ∷ grans) t
          (λ x lt. sym (table-store x (omega (arith, view.links)))) chain)
