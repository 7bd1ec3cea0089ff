-- ===== src/Paths/Normal.antt =====
-- What the commands that take a bare disk rely on: a normalized argument splits.
use xroar_dev.Base.{
  ℕ, ◌*◌, ◌≤◌, ◌<◌, ◌≡◌, refl, ◌⊎◌, inl, inr, Option, none, some, List, [], ◌∷◌, ◌++◌, arith,
  if◌then◌else◌, Bool-cases, Option-cases,
}
use xroar_dev.Geometry.{spt}
use xroar_dev.Paths.{
  parse_dump_where, split_image_path, normalize_disk_arg, location, in_range, on_track, two_numbers,
  parse_drive_suffix, ImagePath, with_suffix, is_some,
}
use xroar_dev.Error.{ok, bind-eq-ok, Result, ok-injective}
use xroar_dev.Text.{ℤ, pos, negsuc, partition, int_10, nonempty}
use xroar_dev.Text.Parts.{
  Lacks, Lacks-front, partition-append, partition-Lacks, rpartition-Lacks, rpartition_sound,
}
use xroar_dev.Names.{rpartition}
use mathlib.Core.Path.{subst}

-- A range of the `total` sectors of a disk.
abbrev IsRange : ℕ → ℕ × ℕ → Type 0
IsRange total (lo, hi) = (lo ≤ hi) × (hi < total)

in_range-IsRange : (a b : ℤ) (total : ℕ) (r : ℕ × ℕ) → in_range a b total ≡ ok r → IsRange total r
in_range-IsRange (pos a) (pos b) total r h = ground arith
in_range-IsRange (pos a) (negsuc b) total r h = cc h
in_range-IsRange (negsuc a) b total r h = cc h

on_track-IsRange :
    (t s : ℤ) (tracks : ℕ) (r : ℕ × ℕ) → on_track t s tracks ≡ ok r → IsRange (tracks * spt) r
on_track-IsRange (pos t) (pos s) tracks r h = ground arith
on_track-IsRange (pos t) (negsuc s) tracks r h = cc h
on_track-IsRange (negsuc t) s tracks r h = cc h

two_numbers-IsRange :
    (parts : List ℕ × List ℕ) (test : ℤ → ℤ → Result (ℕ × ℕ)) (total : ℕ) (r : ℕ × ℕ)
    → ((a b : ℤ) → test a b ≡ ok r → IsRange total r)
    → two_numbers parts test ≡ ok r
    → IsRange total r
two_numbers-IsRange (a_s, b_s) test total r sound h =
    let (a, _, h1) = bind-eq-ok (location (int_10 a_s)) _ h in
    let (b, _, h2) = bind-eq-ok (location (int_10 b_s)) _ h1 in sound a b h2

-- A location that is accepted is a range of sectors of the disk.
pub parse_dump_where-IsRange :
    (w : List ℕ) (tracks : ℕ) (r : ℕ × ℕ)
    → parse_dump_where w tracks ≡ ok r
    → IsRange (tracks * spt) r
unfolding parse_dump_where
parse_dump_where-IsRange w tracks r h = elim (Option-cases (partition b'.' w)) [
  | inr (parts, e) ↦
      two_numbers-IsRange parts _ (tracks * spt) r (λ t s. on_track-IsRange t s tracks r)
        (rw (e, parse_dump_where) at h)
  | inl e ↦
      let h' = rw (e, parse_dump_where) at h in
      elim (Option-cases (partition b'-' w)) [
        | inr (parts, e') ↦
            two_numbers-IsRange parts _ (tracks * spt) r
              (λ a b. in_range-IsRange a b (tracks * spt) r) (rw e' at h')
        | inl e' ↦
            let (n, _, h2) = bind-eq-ok (location (int_10 w)) _ (rw e' at h') in
            in_range-IsRange n n (tracks * spt) r h2
      ]
]

-- A disk, perhaps with a drive.
abbrev Bare : List ℕ → Type 0
Bare q =
    (disk : List ℕ) × (drive : Option (ℕ × ℤ)) × (split_image_path q
      ≡ ok (some (record { disk = disk; name = []; drive = drive })))

split_with_comma :
    (disk name : List ℕ) {path : ImagePath}
    → Lacks b',' disk
    → with_suffix disk name ≡ ok path
    → split_image_path (disk ++ b',' ∷ name) ≡ ok (some path)
unfolding split_image_path
split_with_comma disk name lacks h = rw (partition-append b',' disk name lacks, split_image_path, h)

no_suffix : (disk : List ℕ) → Lacks b',' disk → Bare (disk ++ b',' ∷ [])
no_suffix disk lacks = (disk, none, split_with_comma disk [] lacks (unfold with_suffix in refl))

suffix_found :
    (disk dstr : List ℕ) (d : ℕ × ℤ)
    → Lacks b':' dstr
    → parse_drive_suffix dstr ≡ ok (some d)
    → with_suffix disk (b':' ∷ dstr) ≡ ok (record { disk = disk; name = []; drive = some d })
unfolding with_suffix rpartition
suffix_found disk dstr d lacks h = rw (rpartition-Lacks b':' dstr lacks, with_suffix, rpartition, h)

normalize_none :
    (p : List ℕ) {q : List ℕ}
    → partition b',' p ≡ none
    → rpartition b':' p ≡ none
    → normalize_disk_arg p ≡ ok q
    → p ++ b',' ∷ [] ≡ q
unfolding normalize_disk_arg
normalize_none p e e' h = ok-injective (rw (e, e', normalize_disk_arg) at h)

normalize_some :
    (p before after : List ℕ) {q : List ℕ}
    → partition b',' p ≡ none
    → rpartition b':' p ≡ some (before, after)
    → normalize_disk_arg p ≡ ok q
    → (p ++ b',' ∷ [] ≡ q)
      ⊎ (d : ℕ × ℤ) × (parse_drive_suffix after ≡ ok (some d)) × (before ++ b',' ∷ b':' ∷ after ≡ q)
unfolding normalize_disk_arg
normalize_some p before after {q} e e' h =
    let h1 = rw (e, e', normalize_disk_arg) at h in
    elim (Bool-cases (nonempty before)) [
      | inr empty ↦ inl (ok-injective (rw empty at h1))
      | inl some_before ↦
          let (drive, parsed, h2) =
            bind-eq-ok (parse_drive_suffix after) _ (rw some_before at h1) in
          go drive parsed (ok-injective h2)
    ]
  where
    go :
        (drive : Option (ℕ × ℤ))
        → parse_drive_suffix after ≡ ok drive
        → (if is_some drive then before ++ b',' ∷ b':' ∷ after else p ++ b',' ∷ []) ≡ q
        → (p ++ b',' ∷ [] ≡ q)
          ⊎ (d : ℕ × ℤ) × (parse_drive_suffix after ≡ ok (some d))
            × (before ++ b',' ∷ b':' ∷ after ≡ q)
    go none parsed is = inl is
    go (some d) parsed is = inr (d, parsed, is)

-- A disk argument without a comma is normalized to one that splits into a disk without a name, so
-- that the commands that take it need not check.
pub split-normalize :
    (p q : List ℕ)
    → Lacks b',' p
    → normalize_disk_arg p ≡ ok q
    → (disk : List ℕ) × (drive : Option (ℕ × ℤ)) × (split_image_path q
        ≡ ok (some (record { disk = disk; name = []; drive = drive })))
split-normalize p q lacks h =
    let e = partition-Lacks b',' p lacks in
    elim (Option-cases (rpartition b':' p)) [
      | inl e' ↦ subst Bare (normalize_none p e e' h) (no_suffix p lacks)
      | inr ((before, after), e') ↦
          let (whole, no_colon) = rpartition_sound b':' p before after e' in
          elim (normalize_some p before after e e' h) [
            | inl is ↦ subst Bare is (no_suffix p lacks)
            | inr (d, parsed, is) ↦ subst Bare is (
              before,
              some d,
              split_with_comma before (b':' ∷ after)
                  (Lacks-front b',' before (b':' ∷ after) (subst (Lacks b',') whole lacks))
                  (suffix_found before after d no_colon parsed),
            )
          ]
    ]
