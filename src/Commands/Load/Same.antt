-- ===== src/Commands/Load/Same.antt =====
-- The view that `load_disk` selects depends on the size of the image and on its header.
use xroar_dev.Base.{
  ℕ, ◌+◌, ◌%◌, ◌<◌, ◌≡◌, refl, ap, inl, inr, not, ◌&&◌, Option, none, some, arith, leb, ◌==◌,
  Bool-cases,
}
use xroar_dev.Error.{◌>>=◌}
use xroar_dev.Image.{Image}
use xroar_dev.Geometry.{sector}
use xroar_dev.Text.{ℤ}
use xroar_dev.Commands.Load.{bad_header, load_disk, selected, load_view}

-- Images with the same header bytes.
abbrev pub SameHeader : Image → Image → Type 0
SameHeader d e = (k : ℕ) → k < d.size % sector → e.byte k ≡ d.byte k

field_same :
    (d e : Image) (hdr k want : ℕ)
    → ((i : ℕ) → i < hdr → e.byte i ≡ d.byte i)
    → (leb (k + 1) hdr && not (e.byte k == want)) ≡ (leb (k + 1) hdr && not (d.byte k == want))
field_same d e hdr k want same = elim (Bool-cases (leb (k + 1) hdr)) [
  | inl there ↦
      let is : e.byte k ≡ d.byte k = same k (ground arith) in
      ap (λ b. leb (k + 1) hdr && not (b == want)) is
  | inr out ↦ rw out refl
]

bad_header-same :
    (d e : Image) (hdr : ℕ)
    → ((i : ℕ) → i < hdr → e.byte i ≡ d.byte i)
    → bad_header e hdr ≡ bad_header d hdr
unfolding bad_header
bad_header-same d e hdr same =
    rw
      (
        field_same d e hdr 0 18 same,
        field_same d e hdr 1 1 same,
        field_same d e hdr 2 1 same,
        field_same d e hdr 3 1 same,
        field_same d e hdr 4 0 same,
      )
      refl

load_disk-same :
    (d e : Image) (drive : Option (ℕ × ℤ))
    → e.size ≡ d.size
    → SameHeader d e
    → load_disk e drive ≡ load_disk d drive
unfolding load_disk
load_disk-same d e none size same = rw (size, bad_header-same d e (d.size % sector) same) refl
load_disk-same d e (some (n, extra)) size same =
    rw (size, bad_header-same d e (d.size % sector) same) refl

pub load_view-same :
    (d e : Image) (drive : Option (ℕ × ℤ))
    → e.size ≡ d.size
    → SameHeader d e
    → load_view e drive ≡ load_view d drive
unfolding load_view
load_view-same d e drive size same = ap (λ r. r >>= selected) (load_disk-same d e drive size same)

-- An image without a JVC header is selected by its size alone.
pub load_view-size :
    (d e : Image) (drive : Option (ℕ × ℤ))
    → e.size ≡ d.size
    → d.size % sector ≡ 0
    → load_view e drive ≡ load_view d drive
load_view-size d e drive size whole = load_view-same d e drive size (λ k lt. absurd (omega arith))
