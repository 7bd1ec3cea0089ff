-- ===== src/Handlers/Header.antt =====
-- What `kill` and `rename` leave of the bytes before the drive.
use xroar_dev.Base.{
  ℕ, zero, suc, ◌+◌, ◌/◌, ◌%◌, ◌≤◌, ◌<◌, ◌≡◌, sym, ap, ◌∙◌, inl, inr, Option, none, some, List,
  arith, ◌==◌, Bool-cases,
}
use xroar_dev.Error.{ok, ok-injective, bind-eq-ok, file_exists, err}
use xroar_dev.Image.{Image, get, put, splice}
use xroar_dev.Geometry.{gat_offset, free, deleted}
use xroar_dev.Names.{encode_name}
use xroar_dev.Directory.{find_entry, dir_slots}
use xroar_dev.Directory.Slots.{IsSlot, dir_slots_lem}
use xroar_dev.Gat.{release, free_chain}
use xroar_dev.View.{IsView, slot_fits}
use xroar_dev.Commands.Edit.{require_entry, kill_file, rename_file}
use xroar_dev.Commands.Killed.{require_entry-eq-ok}
use xroar_dev.Image.Slices.{put-eq-ok, update_ne}
use xroar_dev.Directory.Search.{find_in_sound, find_entry_slots}

-- The bytes before `base` are the same.
abbrev pub SameBefore : ℕ → Image → Image → Type 0
SameBefore base d e = (k : ℕ) → k < base → e.byte k ≡ d.byte k

put-SameBefore :
    (base : ℕ) (d : Image) (i v : ℕ) (e : Image) → base ≤ i → put d i v ≡ ok e → SameBefore base d e
put-SameBefore base d i v e le is k lt =
    ap (λ x. x.byte k) (put-eq-ok d i v is).2 ∙ update_ne d.byte i v k (omega arith)

release-SameBefore :
    (base : ℕ) (d : Image) (gat rounds g : ℕ) (e : Image)
    → base ≤ gat
    → release d gat rounds g ≡ ok e
    → SameBefore base d e
unfolding release
release-SameBefore base d gat zero g e le is k lt = ap (λ x. x.byte k) (sym (ok-injective is))
release-SameBefore base d gat (suc rounds) g e le is k lt =
    let (nxt, read, h1) = bind-eq-ok (get d (gat + g)) _ is in
    let (d', wrote, h2) = bind-eq-ok (put d (gat + g) free) _ h1 in
    let here = put-SameBefore base d (gat + g) free d' (omega arith) wrote k lt in
    elim (Bool-cases ((nxt / 64) % 4 == 3)) [
      | inl last ↦ ap (λ x. x.byte k) (sym (ok-injective (rw last at h2))) ∙ here
      | inr more ↦ release-SameBefore base d' gat rounds nxt e le (rw more at h2) k lt ∙ here
    ]

require_entry-IsSlot :
    (d : Image) (field : List ℕ) (base off : ℕ)
    → require_entry d field base ≡ ok off
    → IsSlot base off
require_entry-IsSlot d field base off found =
    (find_in_sound (IsSlot base) d field (dir_slots base) (dir_slots_lem base)
      (find_entry_slots d field base (require_entry-eq-ok d field base found))).1

pub kill_file-SameBefore :
    (d : Image) (name : List ℕ) (base tracks : ℕ) (e : Image)
    → kill_file d name base tracks ≡ ok e
    → SameBefore base d e
unfolding kill_file free_chain gat_offset
kill_file-SameBefore d name base tracks e is k lt =
    let (field, named, h1) = bind-eq-ok (encode_name name) _ is in
    let (off, found, h2) = bind-eq-ok (require_entry d field base) _ h1 in
    let (first, read, h3) = bind-eq-ok (get d (off + 13)) _ h2 in
    let (d', wrote, h4) = bind-eq-ok (put d off deleted) _ h3 in
    let at_slot = require_entry-IsSlot d field base off found in
    release-SameBefore base d' _ _ first e (omega arith) h4 k lt
    ∙ put-SameBefore base d off deleted d' (omega (arith, at_slot.2)) wrote k lt

splice-SameBefore :
    (base : ℕ) (d : Image) (off : ℕ) (bytes : List ℕ)
    → base ≤ off
    → off ≤ d.size
    → SameBefore base d (splice d off 11 bytes)
unfolding splice
splice-SameBefore base d off bytes le fits k lt = ground arith

renamed :
    (d' e : Image) (clash : Option ℕ)
    → elim clash [ some _ ↦ err file_exists | none ↦ ok d' ] ≡ ok e
    → d' ≡ e
renamed d' e none h = ok-injective h
renamed d' e (some _) h = cc h

pub rename_file-SameBefore :
    (d : Image) (old new : List ℕ) (base tracks : ℕ) (e : Image)
    → IsView d base tracks
    → rename_file d old new base ≡ ok e
    → SameBefore base d e
unfolding rename_file
rename_file-SameBefore d old new base tracks e view is k lt =
    let (field, named, h1) = bind-eq-ok (encode_name old) _ is in
    let (off, found, h2) = bind-eq-ok (require_entry d field base) _ h1 in
    let (field', named', h3) = bind-eq-ok (encode_name new) _ h2 in
    let (clash, looked, h4) = bind-eq-ok (find_entry d field' base) _ h3 in
    let at_slot = require_entry-IsSlot d field base off found in
    let e_is : splice d off 11 field' ≡ e = renamed (splice d off 11 field') e clash h4 in
    ap (λ x. x.byte k) (sym e_is)
    ∙ splice-SameBefore base d off field' (omega (arith, at_slot.2))
        (omega (arith, slot_fits d base tracks view off at_slot)) k lt
