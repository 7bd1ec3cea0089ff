-- ===== src/Drive/Contents.antt =====
-- The contents of a drive as a map from names to files, and what `write_file`, `cmd_kill` and
-- `cmd_rename` do to it.
use xroar_dev.Base.{
  ℕ, ◌<◌, ◌≡◌, refl, sym, ap, ◌∙◌, ◌≢◌, inl, inr, Bool, true, false, none, List, arith,
  if◌then◌else◌, Bool-cases, All, All-map, list_eq, list_eq→eq, list_eq_refl,
}
use xroar_dev.Error.{Result, file_not_found, err, ok}
use xroar_dev.Image.{Image, slice}
use xroar_dev.Drive.{IsLive, IsWell, Edit}
use xroar_dev.Names.{encode_name}
use xroar_dev.Directory.{dir_slots, find_entry}
use xroar_dev.View.{IsView}
use xroar_dev.DiskFile.{read_file, write_file}
use xroar_dev.Directory.Search.{hit}
use xroar_dev.Directory.Slots.{IsSlot, dir_slots_lem}
use xroar_dev.Commands.Edit.{kill_file, rename_file}
use xroar_dev.Drive.Keeps.{same_slot}
use xroar_dev.Drive.Store.{find_entry-none}
use native.Mathlib.Decide.{ℕ_discrete}

-- What a name reads as: payload, type and flag, or an error.
abbrev pub Contents : Type 0
Contents = List ℕ → Result (List ℕ × ℕ × ℕ)

abbrev pub contents : Image → ℕ → ℕ → Contents
contents d base tracks name = read_file d name base tracks

-- Both names can be encoded, to the same field of an entry.
abbrev pub same_field : Result (List ℕ) → Result (List ℕ) → Bool
same_field (ok a) (ok b) = list_eq a b
same_field (ok a) (err x) = false
same_field (err x) r = false

abbrev pub same_name : List ℕ → List ℕ → Bool
same_name x name = same_field (encode_name x) (encode_name name)

pub data Change : Type 0 where
  write_change : List ℕ → List ℕ → ℕ → ℕ → Bool → Change
  kill_change : List ℕ → Change
  rename_change : List ℕ → List ℕ → Change

-- The command's effect on an image.
abbrev pub perform : Change → ℕ → ℕ → Image → Result Image
perform (write_change name payload ftype ascii_flag rewrite) base tracks d =
    write_file d name payload ftype ascii_flag rewrite base tracks
perform (kill_change name) base tracks d = kill_file d name base tracks
perform (rename_change old new) base tracks d = rename_file d old new base

-- The command's effect on a map.
abbrev pub after : Change → Contents → Contents
after (write_change name payload ftype ascii_flag rewrite) m x =
    if same_name x name then ok (payload, ftype, ascii_flag) else m x
after (kill_change name) m x = if same_name x name then err file_not_found else m x
after (rename_change old new) m x =
    if same_name x new then m old else if same_name x old then err file_not_found else m x

-- A payload of bytes, and new names without NUL.
abbrev pub IsValid : Change → Type 0
IsValid (write_change name payload ftype ascii_flag rewrite) =
    All (λ b. b < 256) payload × All (λ c. c ≢ 0) name
IsValid (kill_change name) = Unit {0}
IsValid (rename_change old new) = All (λ c. c ≢ 0) new

pub same_name-true :
    (x name field : List ℕ)
    → encode_name name ≡ ok field
    → same_name x name ≡ true
    → encode_name x ≡ ok field
same_name-true x name field named h = go (encode_name x) refl (rw named at h)
  where
    go :
        (r : Result (List ℕ))
        → encode_name x ≡ r
        → same_field r (ok field) ≡ true
        → encode_name x ≡ ok field
    go (ok a) e k = e ∙ ap ok (list_eq→eq a field k)
    go (err y) e k = cc k

-- A name that is not the same is read as before if every other field is.
pub other_name :
    (d e : Image) (base tracks : ℕ) (x name field : List ℕ)
    → encode_name name ≡ ok field
    → same_name x name ≡ false
    → ((field' : List ℕ)
        → encode_name x ≡ ok field'
        → field ≢ field'
        → read_file e x base tracks ≡ read_file d x base tracks)
    → read_file e x base tracks ≡ read_file d x base tracks
other_name d e base tracks x name field named h k = go (encode_name x) refl (rw named at h)
  where
    go :
        (r : Result (List ℕ))
        → encode_name x ≡ r
        → same_field r (ok field) ≡ false
        → read_file e x base tracks ≡ read_file d x base tracks
    go (ok a) is ne = k a is (λ same. cc (list_eq_refl field, rw (← same) at ne))
    go (err y) is ne = unfold read_file in rw is

pub read_file-named :
    (d : Image) (base tracks : ℕ) (x name field : List ℕ)
    → encode_name name ≡ ok field
    → encode_name x ≡ ok field
    → read_file d x base tracks ≡ read_file d name base tracks
unfolding read_file
read_file-named d base tracks x name field named is = rw (named, is)

pub read_file-absent :
    (d : Image) (base tracks : ℕ) (x field : List ℕ)
    → encode_name x ≡ ok field
    → find_entry d field base ≡ ok none
    → read_file d x base tracks ≡ err file_not_found
unfolding read_file
read_file-absent d base tracks x field is absent = rw (is, absent)

-- The name that the edited slot held is gone, if the slot does not hold it any more.
pub name_gone :
    (d e : Image) (base tracks off : ℕ) (field : List ℕ)
    → IsWell d base tracks
    → IsView e base tracks
    → Edit d e base tracks off
    → IsLive d base off
    → slice d off 11 ≡ field
    → hit e field off ≡ false
    → find_entry e field base ≡ ok none
name_gone d e base tracks off field well view edit alive named miss =
    find_entry-none e field base tracks view
      (All-map missed_at (dir_slots base) (dir_slots_lem base))
  where
    missed_at : (o : ℕ) → IsSlot base o → hit e field o ≡ false
    missed_at o slot = elim (ℕ_discrete o off) [
      | yes is ↦ rw is miss
      | no ne ↦ elim (Bool-cases (hit e field o)) [
        | inr nowhere ↦ nowhere
        | inl found ↦
            let (b, n) = same_slot d e base tracks off well edit o slot ne in
            let there : IsLive d base o = (slot, rw (← b) (ground arith)) in
            let head : slice e o 11 ≡ field = list_eq→eq (slice e o 11) field (ground arith) in
            absurd (well.names o off there alive ne (sym n ∙ head ∙ sym named))
      ]
    ]
