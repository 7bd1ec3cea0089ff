-- ===== src/Gat/Total.antt =====
-- Freeing granules never fails on a table inside an image of bytes.
use xroar_dev.Base.{
  ℕ, zero, suc, ◌+◌, ◌/◌, ◌%◌, ◌≤◌, ◌<◌, ◌≡◌, refl, inl, inr, arith, ◌==◌, Bool-cases,
}
use xroar_dev.Error.{ok}
use xroar_dev.Image.{Image, IsBytes}
use xroar_dev.Geometry.{free}
use xroar_dev.Gat.{release}
use xroar_dev.Image.Slices.{get_ok, put_ok}
use xroar_dev.Gat.Release.{update-IsBytes, with_free}

release_none : (d : Image) (gat g : ℕ) → (e : Image) × (release d gat zero g ≡ ok e)
unfolding release
release_none d gat g = (d, refl)

release_round :
    (d : Image) (gat rounds g : ℕ)
    → gat + g < d.size
    → (e : Image) → release (with_free d (gat + g)) gat rounds (d.byte (gat + g)) ≡ ok e
    → (e' : Image) × (release d gat (suc rounds) g ≡ ok e')
unfolding release
release_round d gat rounds g lt e rest =
    let read = get_ok d (gat + g) lt in
    let wrote = put_ok d (gat + g) free lt (omega arith) in
    elim (Bool-cases ((d.byte (gat + g) / 64) % 4 == 3)) [
      | inl end ↦ (with_free d (gat + g), rw (read, wrote, end))
      | inr more ↦ (e, rw (read, wrote, more, rest))
    ]

pub release_total :
    (d : Image) (gat rounds g : ℕ)
    → IsBytes d
    → gat + 256 ≤ d.size
    → g < 256
    → (e : Image) × (release d gat rounds g ≡ ok e)
release_total d gat zero g b fits lt = release_none d gat g
release_total d gat (suc rounds) g b fits lt =
    let i = gat + g in
    let nxt = d.byte i in
    let (e, rest) =
      release_total (with_free d i) gat rounds nxt (update-IsBytes d i free (omega arith) b) fits
        (b.at i) in
    release_round d gat rounds g (omega arith) e rest
