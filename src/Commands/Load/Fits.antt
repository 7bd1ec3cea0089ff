-- ===== src/Commands/Load/Fits.antt =====
-- The view that `load_disk` selects.
use xroar_dev.Base.{ℕ, ◌+◌, ◌-◌, ◌*◌, ◌%◌, ◌≤◌, ◌<◌, ◌≡◌, refl, ap, ◌∙◌, Option, none, some, arith}
use xroar_dev.Error.{ok, negative_base, err, ok-injective, bind-eq-ok}
use xroar_dev.Image.{Image}
use xroar_dev.Geometry.{sector, spt, drive_size}
use xroar_dev.Commands.Load.{Located, Selected, load_disk, selected, load_view}
use xroar_dev.Text.{ℤ, pos, negsuc}

-- A sector offset, if there is one, does not reach before the image.
abbrev pub IsInside : Image → Option (ℕ × ℤ) → Type 0
IsInside d none = Unit {0}
IsInside d (some (n, pos extra)) = Unit {0}
IsInside d (some (n, negsuc k)) = k < d.size % sector + n * drive_size

-- Where the base is not negative, the tracks lie inside the image.
load_disk_bound :
    (d : Image) (drive : Option (ℕ × ℤ)) (l : Located) (base : ℕ)
    → load_disk d drive ≡ ok l
    → l.base ≡ pos base
    → base + l.tracks * spt * sector ≤ d.size
unfolding load_disk
load_disk_bound d none l base h is = ground arith
load_disk_bound d (some (n, pos extra)) l base h is = ground arith
load_disk_bound d (some (n, negsuc k)) l base h is = ground arith

load_disk_base :
    (d : Image) (drive : Option (ℕ × ℤ)) (l : Located)
    → load_disk d drive ≡ ok l
    → IsInside d drive
    → (base : ℕ) × (l.base ≡ pos base)
unfolding load_disk
load_disk_base d none l h inside = (d.size % sector, ground arith)
load_disk_base d (some (n, pos extra)) l h inside =
    (d.size % sector + n * drive_size + extra, ground arith)
load_disk_base d (some (n, negsuc k)) l h inside =
    (d.size % sector + n * drive_size - (k + 1), ground arith)

-- The tracks of the drive that load_disk selects lie inside the image, with a drive number or without
-- one, JVC header or not, unless the sector offset of a drive suffix is negative and reaches before
-- the image.
pub load_disk_fits :
    (d : Image) (drive : Option (ℕ × ℤ)) (l : Located)
    → load_disk d drive ≡ ok l
    → IsInside d drive
    → (base : ℕ) × (l.base ≡ pos base) × (base + l.tracks * spt * sector ≤ d.size)
load_disk_fits d drive l h inside =
    let (base, is) = load_disk_base d drive l h inside in
    (base, is, load_disk_bound d drive l base h is)

pub selected-eq-ok :
    (l : Located) (s : Selected) → selected l ≡ ok s → (l.base ≡ pos s.base) × (l.tracks ≡ s.tracks)
selected-eq-ok l s h = go l.base refl h
  where
    go :
        (b : ℤ)
        → l.base ≡ b
        → (elim b [
          | pos base ↦ ok (record { base = base; tracks = l.tracks })
          | negsuc k ↦ err negative_base
        ])
          ≡ ok s
        → (l.base ≡ pos s.base) × (l.tracks ≡ s.tracks)
    go (pos b) is k = let e = ok-injective k in (is ∙ ap (λ x. pos x.base) e, ap (λ x. x.tracks) e)
    go (negsuc b) is k = cc k

-- The view that the commands work on lies inside the image.
pub load_view_fits :
    (d : Image) (drive : Option (ℕ × ℤ)) {s : Selected}
    → load_view d drive ≡ ok s
    → s.base + s.tracks * spt * sector ≤ d.size
unfolding load_view
load_view_fits d drive {s} h =
    let (l, located, view) = bind-eq-ok (load_disk d drive) _ h in
    let (base, tracks) = selected-eq-ok l s view in
    rw (← tracks) (load_disk_bound d drive l s.base located base)
