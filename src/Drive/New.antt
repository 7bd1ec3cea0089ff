-- ===== src/Drive/New.antt =====
-- The drive that `cmd_dskini` writes is well formed and has no file.
use xroar_dev.Base.{
  ℕ, zero, suc, ◌+◌, ◌*◌, ◌≤◌, ◌<◌, ◌≡◌, refl, sym, ap, ◌∙◌, inl, inr, Bool, true, false, Option,
  none, some, List, [], ◌∷◌, ◌++◌, arith, Bool-cases, length, length-append, All, All-map,
  All-append,
}
use xroar_dev.Error.{Result, ◌>>=◌, file_not_found, err, ok, ok-injective, bind-eq-ok}
use xroar_dev.Image.{Image, IsBytes, update, put, splice}
use xroar_dev.Drive.{IsLive, IsWell}
use xroar_dev.Geometry.{sector, spt, dir_track, track_offset, gat_offset, num_granules}
use xroar_dev.Names.{encode_latin1, encode_name}
use xroar_dev.Directory.{dir_slots, live}
use xroar_dev.View.{IsView}
use xroar_dev.Dskini.{blank, reserve, skitzo_granules, hdb_name_sector, name_drive, new_drive}
use xroar_dev.DiskFile.{read_file}
use xroar_dev.Directory.Search.{hit}
use xroar_dev.Directory.Slots.{IsSlot, dir_slots_lem}
use xroar_dev.Gat.Release.{update-IsBytes}
use xroar_dev.Image.Slices.{put-eq-ok, update_ne, size-splice, byte-splice_outside}
use xroar_dev.Drive.Refines.{perform_all, after_all, after_all-same, perform_all_refines}
use xroar_dev.Drive.Contents.{Contents, contents, Change, IsValid, read_file-absent}
use xroar_dev.Drive.Bytes.{splice-IsBytes}
use xroar_dev.Drive.Store.{find_entry-none}
use xroar_dev.Names.Fields.{encode_latin1-eq-ok, all_latin1-All}
use mathlib.Core.Path.{subst}

-- From the directory's slots on, up to the sector of the name, every byte marks a free entry.
record IsEmpty (d : Image) (size : ℕ) : Type 0 where
  pub size_is : d.size ≡ size
  pub bytes : IsBytes d
  pub unused : (k : ℕ) → 78848 ≤ k → k < 82432 → d.byte k ≡ 0xFF

reserve-IsEmpty :
    (n g size : ℕ) (d : Image) {e : Image}
    → g + n ≤ 256
    → IsEmpty d size
    → reserve (gat_offset 0) d n g ≡ ok e
    → IsEmpty e size
unfolding reserve gat_offset
reserve-IsEmpty zero g size d few b h = subst (λ x. IsEmpty x size) (ok-injective h) b
reserve-IsEmpty (suc n) g size d few b h =
    let (d', put_at, rest) = bind-eq-ok (put d (gat_offset 0 + g) 0x00) _ h in
    let is = (put-eq-ok d (gat_offset 0 + g) 0x00 put_at).2 in
    let b' : IsEmpty (record d { byte = update d.byte (gat_offset 0 + g) 0x00 }) size = record {
      size_is = b.size_is;
      bytes = update-IsBytes d (gat_offset 0 + g) 0x00 (omega arith) b.bytes;
      unused = λ k lo hi.
          update_ne d.byte (gat_offset 0 + g) 0x00 k (omega (arith, few)) ∙ b.unused k lo hi;
    } in
    reserve-IsEmpty n (g + 1) size d' (omega arith) (subst (λ x. IsEmpty x size) (sym is) b') rest

blank-IsEmpty : (tracks : ℕ) → IsEmpty (blank tracks) (tracks * spt * sector)
unfolding blank
blank-IsEmpty tracks = record {
  size_is = refl;
  bytes = record { at = λ k. omega arith };
  unused = λ k lo hi. refl;
}

name_drive-IsEmpty :
    (disk_name : Option (List ℕ)) (d : Image) (size : ℕ) {e : Image}
    → 82944 ≤ size
    → ((s : List ℕ) → disk_name ≡ some s → length s < 512)
    → IsEmpty d size
    → name_drive disk_name d ≡ ok e
    → IsEmpty e size
unfolding name_drive
name_drive-IsEmpty none d size large short b h = subst (λ x. IsEmpty x size) (ok-injective h) b
name_drive-IsEmpty (some s) d size large short b h =
    let (encoded, ok_name, h2) = bind-eq-ok (encode_latin1 s) _ h in
    let (is, small) = encode_latin1-eq-ok s ok_name in
    let field = encoded ++ 0x00 ∷ [] in
    let len : length field ≤ 512 =
      rw is (omega (arith, length-append s (0x00 ∷ []), short s refl)) in
    let fits : 82432 + length field ≤ d.size = omega (arith, b.size_is) in
    let off_is : track_offset dir_track 0 + hdb_name_sector * sector ≡ 82432 =
      unfold track_offset in refl in
    let form : splice d 82432 (length field) field ≡ _ =
      ap (λ o. splice d o (length field) field) (sym off_is) ∙ ok-injective h2 in
    subst (λ x. IsEmpty x size) form
      (record {
        size_is = size-splice d 82432 field fits ∙ b.size_is;
        bytes = splice-IsBytes d 82432 (length field) field b.bytes (
            All-append (λ c. c < 256) encoded (0x00 ∷ []) (rw is (all_latin1-All s small))
              (omega arith, tt));
        unused = λ k lo hi. byte-splice_outside d 82432 field fits k (inl hi) ∙ b.unused k lo hi;
      })

new_drive-IsEmpty :
    (tracks : ℕ) (skitzo : Bool) (disk_name : Option (List ℕ)) {d : Image}
    → dir_track < tracks
    → ((s : List ℕ) → disk_name ≡ some s → length s < 512)
    → new_drive tracks skitzo disk_name ≡ ok d
    → IsEmpty d (tracks * spt * sector)
unfolding new_drive
new_drive-IsEmpty tracks true disk_name has_dir short h =
    let (reserved, first, rest) =
      bind-eq-ok (reserve (gat_offset 0) (blank tracks) skitzo_granules 0) _ h in
    name_drive-IsEmpty disk_name reserved (tracks * spt * sector) (omega arith) short
      (reserve-IsEmpty skitzo_granules 0 (tracks * spt * sector) (blank tracks) (omega arith)
        (blank-IsEmpty tracks) first)
      rest
new_drive-IsEmpty tracks false disk_name has_dir short h =
    name_drive-IsEmpty disk_name (blank tracks) (tracks * spt * sector) (omega arith) short
      (blank-IsEmpty tracks) h

-- The contents of an empty drive.
abbrev pub no_files : Contents
no_files x = do field ← encode_name x; err file_not_found

-- The drive that dskini writes is well formed and has no file, with 18 to 97 tracks and a disk name,
-- if any, of less than 512 characters.
pub new_drive-IsWell :
    (tracks : ℕ) (skitzo : Bool) (disk_name : Option (List ℕ)) {d : Image}
    → dir_track < tracks
    → num_granules tracks ≤ 0xC0
    → ((s : List ℕ) → disk_name ≡ some s → length s < 512)
    → new_drive tracks skitzo disk_name ≡ ok d
    → IsWell d 0 tracks × ((x : List ℕ) → contents d 0 tracks x ≡ no_files x)
new_drive-IsWell tracks skitzo disk_name {d} has_dir links short h =
    let empty = new_drive-IsEmpty tracks skitzo disk_name has_dir short h in
    let view : IsView d 0 tracks = record {
      fits = omega (arith, empty.size_is);
      has_directory = has_dir;
      links = links;
    } in
    (
      record {
        view = view;
        bytes = empty.bytes;
        ends = λ off alive. absurd (dead empty off alive);
        names = λ off other alive. absurd (dead empty off alive);
        apart = λ off other grans t grans' t' alive. absurd (dead empty off alive);
      },
      λ x. nothing view empty x (encode_name x) refl,
    )
  where
    dead : IsEmpty d (tracks * spt * sector) → (off : ℕ) → IsLive d 0 off → ⊥
    dead empty off ((k, lt, is), alive) =
        let free_byte = empty.unused off (omega (arith, is)) (omega (arith, is, lt)) in
        cc (subst (λ b. live b ≡ true) free_byte alive)

    nothing :
        IsView d 0 tracks
        → IsEmpty d (tracks * spt * sector)
        → (x : List ℕ) (r : Result (List ℕ)) → encode_name x ≡ r
        → contents d 0 tracks x ≡ no_files x
    nothing view empty x (err y) is = unfold read_file in rw is
    nothing view empty x (ok field) is = rw is (
        read_file-absent d 0 tracks x field is (
          find_entry-none d field 0 tracks view
            (All-map (λ o slot. no_hit empty field o slot) (dir_slots 0) (dir_slots_lem 0))))
      where
        no_hit :
            IsEmpty d (tracks * spt * sector)
            → (field : List ℕ) (o : ℕ) → IsSlot 0 o
            → hit d field o ≡ false
        no_hit empty field o slot = elim (Bool-cases (live (d.byte o))) [
          | inl alive ↦ absurd (dead empty o (slot, alive))
          | inr unused ↦ rw unused
        ]

-- Commands on a new drive: whatever succeeds on the image succeeded on the map, from no file on, and
-- leaves the drive well formed.
pub new_drive_refines :
    (tracks : ℕ) (skitzo : Bool) (disk_name : Option (List ℕ)) (cs : List Change) {d e : Image}
    → dir_track < tracks
    → num_granules tracks ≤ 0xC0
    → ((s : List ℕ) → disk_name ≡ some s → length s < 512)
    → All IsValid cs
    → new_drive tracks skitzo disk_name ≡ ok d
    → perform_all cs 0 tracks d ≡ ok e
    → IsWell e 0 tracks × ((x : List ℕ) → contents e 0 tracks x ≡ after_all cs no_files x)
new_drive_refines tracks skitzo disk_name cs {d} {e} has_dir links short valid made h =
    let (well, empty) = new_drive-IsWell tracks skitzo disk_name has_dir links short made in
    let (well', same) = perform_all_refines cs d 0 tracks e well valid h in
    (well', λ x. same x ∙ after_all-same cs (contents d 0 tracks) no_files empty x)
