-- ===== src/Commands/Load/Aligned.antt =====
-- A drive suffix moves the base by whole sectors, so a drive begins behind the header.
use mathlib.Core.Path.{subst}
use xroar_dev.Base.{
  ℕ, zero, suc, ◌+◌, ◌*◌, ◌%◌, ◌≤◌, ◌≡◌, refl, inl, inr, ◌&&◌, Option, none, some, List, arith,
  Bool-cases,
}
use xroar_dev.Error.{◌>>=◌, err, ok, ok-injective, bind-eq-ok, bad_drive_suffix}
use xroar_dev.Image.{Image}
use xroar_dev.Geometry.{sector}
use xroar_dev.Text.{ℤ, pos, negsuc, partition, int_0, nonempty, all_digits, digits, negate, int_10}
use xroar_dev.Names.{rpartition}
use xroar_dev.Paths.{
  ImagePath, split_image_path, with_suffix, parse_drive_suffix, drive_number, times_sector,
  uncaught, nonnegative,
}
use xroar_dev.Commands.Load.{Located, Selected, load_disk, load_view}
use xroar_dev.Commands.Load.Fits.{selected-eq-ok}

abbrev pub IsSectors : ℤ → Type 0
IsSectors (pos n) = Unit {0}
IsSectors (negsuc k) = (q : ℕ) × (k + 1 ≡ q * sector)

abbrev pub IsAligned : Option (ℕ × ℤ) → Type 0
IsAligned none = Unit {0}
IsAligned (some (n, extra)) = IsSectors extra

negate-IsSectors : (m q : ℕ) → m ≡ q * sector → IsSectors (negate m)
negate-IsSectors zero q is = tt
negate-IsSectors (suc n) q is = (q, omega arith)

times_sector-IsSectors : (z : ℤ) → IsSectors (times_sector z)
times_sector-IsSectors (pos n) = tt
times_sector-IsSectors (negsuc n) = negate-IsSectors ((n + 1) * sector) (n + 1) refl

drive_number-IsAligned :
    (dstr : List ℕ) (off : ℤ) (r : Option (ℕ × ℤ))
    → IsSectors off
    → drive_number dstr off ≡ ok r
    → IsAligned r
unfolding drive_number
drive_number-IsAligned dstr off r h is = elim (Bool-cases (nonempty dstr && all_digits dstr)) [
  | inl digits ↦
      let (n, _, last) =
        bind-eq-ok (uncaught (int_10 dstr)) (λ n. ok (some (nonnegative n, off)))
          (rw digits at is) in
      subst IsAligned {x = some (nonnegative n, off)} (ok-injective last) h
  | inr other ↦ subst IsAligned {x = none} (ok-injective (rw other at is)) tt
]

parse_drive_suffix-IsAligned :
    (dstr : List ℕ) (r : Option (ℕ × ℤ)) → parse_drive_suffix dstr ≡ ok r → IsAligned r
unfolding parse_drive_suffix
parse_drive_suffix-IsAligned dstr r is = go (partition b'+' dstr) is
  where
    at_offset :
        (number : List ℕ) (o : Option ℤ)
        → elim o [ none ↦ ok none | some off ↦ drive_number number (times_sector off) ] ≡ ok r
        → IsAligned r
    at_offset number none k = subst IsAligned (ok-injective k) tt
    at_offset number (some off) k =
        drive_number-IsAligned number (times_sector off) r (times_sector-IsSectors off) k

    go :
        (p : Option (List ℕ × List ℕ))
        → elim p [
          | none ↦ drive_number dstr (pos 0)
          | some (number, ostr) ↦ elim (int_0 ostr) [
            | none ↦ ok none
            | some off ↦ drive_number number (times_sector off)
          ]
        ]
          ≡ ok r
        → IsAligned r
    go none k = drive_number-IsAligned dstr (pos 0) r tt k
    go (some (number, ostr)) k = at_offset number (int_0 ostr) k

with_suffix-IsAligned :
    (disk name : List ℕ) (path : ImagePath) → with_suffix disk name ≡ ok path → IsAligned path.drive
unfolding with_suffix
with_suffix-IsAligned disk name path is = go (rpartition b':' name) is
  where
    found :
        (before : List ℕ) (drive : Option (ℕ × ℤ))
        → IsAligned drive
        → elim drive [
          | none ↦ err bad_drive_suffix
          | some d ↦ ok (record { disk = disk; name = before; drive = some d })
        ]
          ≡ ok path
        → IsAligned path.drive
    found before none h k = cc k
    found before (some d) h k = subst (λ p. IsAligned p.drive) (ok-injective k) h

    go :
        (p : Option (List ℕ × List ℕ))
        → elim p [
          | none ↦ ok (record { disk = disk; name = name; drive = none })
          | some (before, dstr) ↦ parse_drive_suffix dstr >>= λ drive. elim drive [
            | none ↦ err bad_drive_suffix
            | some d ↦ ok (record { disk = disk; name = before; drive = some d })
          ]
        ]
          ≡ ok path
        → IsAligned path.drive
    go none k = subst (λ p. IsAligned p.drive) (ok-injective k) tt
    go (some (before, dstr)) k =
        let (drive, parsed, last) = bind-eq-ok (parse_drive_suffix dstr) _ k in
        found before drive (parse_drive_suffix-IsAligned dstr drive parsed) last

pub split_image_path-IsAligned :
    (arg : List ℕ) (path : ImagePath) → split_image_path arg ≡ ok (some path) → IsAligned path.drive
unfolding split_image_path
split_image_path-IsAligned arg path is = go (partition b',' arg) is
  where
    go :
        (p : Option (List ℕ × List ℕ))
        → elim p [
          | none ↦ ok none
          | some (disk, name) ↦ with_suffix disk name >>= λ path. ok (some path)
        ]
          ≡ ok (some path)
        → IsAligned path.drive
    go none k = cc k
    go (some (disk, name)) k =
        let (p, suffixed, last) = bind-eq-ok (with_suffix disk name) _ k in
        let is_path : p ≡ path = cc last in
        subst (λ p. IsAligned p.drive) is_path (with_suffix-IsAligned disk name p suffixed)

load_disk_behind :
    (d : Image) (drive : Option (ℕ × ℤ)) (l : Located) (base : ℕ)
    → IsAligned drive
    → load_disk d drive ≡ ok l
    → l.base ≡ pos base
    → d.size % sector ≤ base
unfolding load_disk
load_disk_behind d none l base aligned h is = ground arith
load_disk_behind d (some (n, pos extra)) l base aligned h is = ground arith
load_disk_behind d (some (n, negsuc k)) l base (q, aligned) h is = ground arith

-- The drive that a command works on begins behind the header.
pub load_view_behind :
    (d : Image) (drive : Option (ℕ × ℤ)) (s : Selected)
    → IsAligned drive
    → load_view d drive ≡ ok s
    → d.size % sector ≤ s.base
unfolding load_view
load_view_behind d drive s aligned h =
    let (l, located, view) = bind-eq-ok (load_disk d drive) _ h in
    load_disk_behind d drive l s.base aligned located (selected-eq-ok l s view).0
