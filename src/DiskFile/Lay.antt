-- ===== src/DiskFile/Lay.antt =====
-- What `lay` writes into the granules is what `read_granules` reads from them.
use mathlib.Core.Path.{ap₂}
use mathlib.Core.List.{append-nil, append_assoc}
use xroar_dev.Base.{
  ℕ, suc, ◌+◌, ◌-◌, ◌*◌, ◌≤◌, ◌<◌, ◌≡◌, refl, sym, ap, ◌∙◌, ◌⊎◌, inr, List, [], ◌∷◌, ◌++◌, arith,
  length, take, drop, take-append-drop, length-take, length-drop, take_all, All, All-map,
}
use xroar_dev.Image.{Image, slice, splice}
use xroar_dev.Geometry.{granule, granule_offset}
use xroar_dev.DiskFile.{read_granules, lay}
use xroar_dev.Geometry.Bounds.{granules_apart}
use xroar_dev.Gat.Free.{IsAscending}
use xroar_dev.Image.Slices.{
  size-splice, byte-splice_outside, slice-splice_outside, slice_add, slice-splice_self,
}

-- A range that meets none of the granules.
abbrev pub OffGranules : ℕ → List ℕ → ℕ → ℕ → Type 0
OffGranules base grans at n =
    All (λ g. (granule_offset g base + granule ≤ at) ⊎ (at + n ≤ granule_offset g base)) grans

-- The granules lie inside the image.
abbrev pub Fit : Image → ℕ → List ℕ → Type 0
Fit d base grans = All (λ g. granule_offset g base + granule ≤ d.size) grans

pub Fit-size :
    (d e : Image) (base : ℕ) (grans : List ℕ)
    → e.size ≡ d.size
    → Fit d base grans
    → Fit e base grans
Fit-size d e base grans same fit = All-map (λ x h. omega arith) grans fit

chunk_le : (payload : List ℕ) → length (take granule payload) ≤ granule
chunk_le payload = omega (arith, length-take granule payload)

pub size-lay :
    (d : Image) (base : ℕ) (grans payload : List ℕ)
    → Fit d base grans
    → (lay d base grans payload).size ≡ d.size
unfolding lay
size-lay d base [] payload fit = refl
size-lay d base (g ∷ grans) payload fit =
    let chunk = take granule payload in
    let same : (splice d (granule_offset g base) (length chunk) chunk).size ≡ d.size =
      size-splice d (granule_offset g base) chunk (omega (arith, chunk_le payload, fit.0)) in
    size-lay (splice d (granule_offset g base) (length chunk) chunk) base grans
      (drop granule payload) (rw same fit.1)
    ∙ same

-- Laying a file changes nothing outside its granules.
pub slice-lay_outside :
    (d : Image) (base : ℕ) (grans payload : List ℕ) (at n : ℕ)
    → Fit d base grans
    → OffGranules base grans at n
    → slice (lay d base grans payload) at n ≡ slice d at n
unfolding lay
slice-lay_outside d base [] payload at n fit off = refl
slice-lay_outside d base (g ∷ grans) payload at n fit off =
    let chunk = take granule payload in
    let in_bounds : granule_offset g base + length chunk ≤ d.size =
      omega (arith, chunk_le payload, fit.0) in
    let same : (splice d (granule_offset g base) (length chunk) chunk).size ≡ d.size =
      size-splice d (granule_offset g base) chunk in_bounds in
    slice-lay_outside (splice d (granule_offset g base) (length chunk) chunk) base grans
      (drop granule payload) at n (rw same fit.1) off.1
    ∙ slice-splice_outside d (granule_offset g base) chunk in_bounds at n
        (ground (arith, off.0, chunk_le payload))

pub byte-lay_outside :
    (d : Image) (base : ℕ) (grans payload : List ℕ) (k : ℕ)
    → Fit d base grans
    → OffGranules base grans k 1
    → (lay d base grans payload).byte k ≡ d.byte k
unfolding lay
byte-lay_outside d base [] payload k fit off = refl
byte-lay_outside d base (g ∷ grans) payload k fit off =
    let chunk = take granule payload in
    let in_bounds : granule_offset g base + length chunk ≤ d.size =
      omega (arith, chunk_le payload, fit.0) in
    let same : (splice d (granule_offset g base) (length chunk) chunk).size ≡ d.size =
      size-splice d (granule_offset g base) chunk in_bounds in
    byte-lay_outside (splice d (granule_offset g base) (length chunk) chunk) base grans
      (drop granule payload) k (rw same fit.1) off.1
    ∙ byte-splice_outside d (granule_offset g base) chunk in_bounds k
        (ground (arith, off.0, chunk_le payload))

-- Later granules of an ascending chain leave an earlier one alone.
earlier_off :
    (base g : ℕ) (grans : List ℕ)
    → All (λ h. g < h) grans
    → OffGranules base grans (granule_offset g base) granule
earlier_off base g grans h = All-map (λ x lt. inr (granules_apart g x base lt)) grans h

-- A full or a partial last chunk, read over a whole granule.
last_chunk :
    (d : Image) (off : ℕ) (payload : List ℕ)
    → length payload ≤ granule
    → off + granule ≤ d.size
    → let e = splice d off (length payload) payload in
      slice e off granule ≡ payload ++ slice e (off + length payload) (granule - length payload)
last_chunk d off payload room fit =
    let e = splice d off (length payload) payload in
    let whole : length payload + (granule - length payload) ≡ granule = omega arith in
    let in_bounds : off + length payload ≤ d.size = omega arith in
    let same : e.size ≡ d.size = size-splice d off payload in_bounds in
    ap (slice e off) (sym whole)
    ∙ slice_add e off (length payload) (granule - length payload) (rw same in_bounds)
    ∙ ap (λ t. t ++ slice e (off + length payload) (granule - length payload))
        (slice-splice_self d off payload in_bounds)

full_chunk :
    (d : Image) (off : ℕ) (chunk : List ℕ)
    → length chunk ≡ granule
    → off + granule ≤ d.size
    → slice (splice d off (length chunk) chunk) off granule ≡ chunk
full_chunk d off chunk full fit =
    ap (slice (splice d off (length chunk) chunk) off) (sym full)
    ∙ slice-splice_self d off chunk (omega arith)

-- The payload comes back, followed by the fill of the last granule.
pub read_granules-lay :
    (d : Image) (base g : ℕ) (grans payload : List ℕ)
    → IsAscending (g ∷ grans)
    → Fit d base (g ∷ grans)
    → length payload ≤ suc (length grans) * granule
    → length grans * granule ≤ length payload
    → (fill : List ℕ) × (read_granules (lay d base (g ∷ grans) payload) base (g ∷ grans)
        ≡ payload ++ fill)
unfolding read_granules lay
read_granules-lay d base g [] payload asc fit room needed =
    let all : take granule payload ≡ payload = take_all granule payload (omega arith) in
    let off = granule_offset g base in
    (
      slice (splice d off (length payload) payload) (off + length payload)
          (granule - length payload),
      rw all (append-nil _ ∙ last_chunk d off payload (omega arith) fit.0),
    )
read_granules-lay d base g (h ∷ grans) payload asc fit room needed =
    let off = granule_offset g base in
    let chunk = take granule payload in
    let rest = drop granule payload in
    let full : length chunk ≡ granule = omega (arith, length-take granule payload) in
    let d1 = splice d off (length chunk) chunk in
    let same : d1.size ≡ d.size = size-splice d off chunk (omega (arith, fit.0)) in
    let fit1 : Fit d1 base (h ∷ grans) = Fit-size d d1 base (h ∷ grans) same fit.1 in
    let (fill, r) =
      read_granules-lay d1 base h grans rest asc.1 fit1 (omega (arith, length-drop granule payload))
        (omega (arith, length-drop granule payload)) in
    let here : slice (lay d1 base (h ∷ grans) rest) off granule ≡ chunk =
      slice-lay_outside d1 base (h ∷ grans) rest off granule fit1
        (earlier_off base g (h ∷ grans) asc.0)
      ∙ full_chunk d off chunk full fit.0 in
    (
      fill,
      ap₂ (λ x y. x ++ y) here r
          ∙ sym (append_assoc chunk rest fill)
          ∙ ap (λ t. t ++ fill) (take-append-drop granule payload),
    )
