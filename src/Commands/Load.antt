-- ===== src/Commands/Load.antt =====
-- `load_disk` of tools/decb.py, from the bytes of the image file on.
pub mod Aligned
pub mod Fits
pub mod Same
use xroar_dev.Base.{
  ℕ, ◌+◌, ◌-◌, ◌*◌, ◌/◌, ◌%◌, Bool, not, ◌&&◌, ◌||◌, Option, none, some, ltb, leb, ◌==◌,
  if◌then◌else◌,
}
use xroar_dev.Error.{
  ◌>>=◌, Result, unsupported_header, drive_past_end, not_whole_tracks, ok, ◌>>◌, die_if,
  negative_base, err,
}
use xroar_dev.Image.{Image}
use xroar_dev.Geometry.{sector, spt, drive_size}
use xroar_dev.Text.{ℤ, pos, negsuc}

-- What `load_disk` returns beside the image: a sector offset below 0 can place the base before it.
pub record Located : Type 0 where
  pub base : ℤ
  pub tracks : ℕ

-- The part of an image that a command works on: `base` and `tracks`.
pub record Selected : Type 0 where
  pub base : ℕ
  pub tracks : ℕ

-- A JVC header of 1 to 255 bytes with another than the plain geometry.
unfoldable pub bad_header : Image → ℕ → Bool
bad_header d hdr =
    (leb 1 hdr && not (d.byte 0 == spt))
    || (leb 2 hdr && not (d.byte 1 == 1))
    || (leb 3 hdr && not (d.byte 2 == 1))
    || (leb 4 hdr && not (d.byte 3 == 1))
    || (leb 5 hdr && not (d.byte 4 == 0))

-- `hdr + n * DRIVE_SIZE + extra`
abbrev pub drive_base : ℕ → ℤ → ℤ
drive_base start (pos extra) = pos (start + extra)
drive_base start (negsuc k) =
    if leb (k + 1) start then pos (start - (k + 1)) else negsuc (k - start)

-- `base + DRIVE_SIZE > len(image)`
abbrev pub past_end : ℤ → ℕ → Bool
past_end (pos base) size = ltb size (base + drive_size)
past_end (negsuc k) size = ltb (size + k + 1) drive_size

-- `drive` is a drive number with the byte offset of a sector count.
unfoldable pub load_disk : Image → Option (ℕ × ℤ) → Result Located
unfolding bad_header
load_disk d (some (n, extra)) = do
  let hdr = d.size % sector
  die_if (bad_header d hdr) unsupported_header
  let base = drive_base (hdr + n * drive_size) extra
  die_if (past_end base d.size) drive_past_end
  ok (record { base = base; tracks = 35 })
load_disk d none = do
  let hdr = d.size % sector
  die_if (bad_header d hdr) unsupported_header
  let data_len = d.size - hdr
  die_if (not (data_len % (spt * sector) == 0)) not_whole_tracks
  ok (
      if ltb drive_size data_len && (data_len % drive_size == 0)
      then record { base = pos hdr; tracks = 35 }
      else record { base = pos hdr; tracks = data_len / (spt * sector) })

-- The commands are modelled on a base that is not negative. With a negative one the program counts
-- from the end of the image; the model stops there, with an error that the program does not give.
abbrev pub selected : Located → Result Selected
selected l = elim l.base [
  | pos base ↦ ok (record { base = base; tracks = l.tracks })
  | negsuc k ↦ err negative_base
]

unfoldable pub load_view : Image → Option (ℕ × ℤ) → Result Selected
unfolding load_disk
load_view d drive = do l ← load_disk d drive; selected l
