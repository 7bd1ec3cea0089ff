-- ===== src/DiskFile/RoundTrip.antt =====
-- `read_file` after `write_file`.
use mathlib.Core.Path.{subst}
use xroar_dev.Base.{
  ℕ, ◌<◌, ◌≡◌, sym, ap, ◌∙◌, ◌≢◌, Bool, true, none, some, List, ◌++◌, arith, length, get_or, All,
  All-map,
}
use xroar_dev.Error.{ok}
use xroar_dev.Image.{Image, IsBytes, splice}
use xroar_dev.DiskFile.{last_sector_bytes, read_file, lay, write_file}
use xroar_dev.View.{IsView, slot_fits, slots_fit-All}
use xroar_dev.Directory.Slots.{IsSlot, dir_slots_lem}
use xroar_dev.DiskFile.Outcome.{Outcome, Run-Outcome, IsView-SameOffTable}
use xroar_dev.DiskFile.Write.{entry_of, write_file-Run}
use xroar_dev.DiskFile.Entry.{length-entry, entry_type, entry_ascii, entry-Holds}
use xroar_dev.DiskFile.Store.{store}
use xroar_dev.Directory.{dir_slots, live, find_entry, find_dir_entry, find_in, find_slot_in}
use xroar_dev.Directory.Search.{SameNames, find_in_chosen, find_entry_intro, find_dir_entry-slots}
use xroar_dev.Names.Fields.{length-encode_name, encode_name-live}
use xroar_dev.DiskFile.Stored.{payload_read, stored_slots, SameNames-slot}

-- The name that was written is found where it was written.
found_in_slots :
    (d linked : Image) (base tracks off : ℕ) (grans payload field rest : List ℕ) (rewrite : Bool)
    (offs : List ℕ)
    → IsView d base tracks
    → Outcome d base tracks payload field off linked grans
    → length field ≡ 11
    → length (field ++ rest) ≡ 32
    → live (get_or field 0 0) ≡ true
    → All (IsSlot base) offs
    → find_slot_in d field rewrite offs none ≡ ok off
    → find_in (store linked base grans payload off (field ++ rest)) field offs ≡ ok (some off)
found_in_slots d linked base tracks off grans payload field rest rewrite offs view out named len
      alive slots found =
    let e = store linked base grans payload off (field ++ rest) in
    let (size, entry, others) =
      stored_slots d linked base tracks off grans payload field (field ++ rest) view out len in
    let fits = slots_fit-All d base tracks view offs slots in
    let inside : All (λ o. o < e.size) offs = All-map (λ o h. omega (arith, h, size)) offs fits in
    let same : All (SameNames d e off) offs =
      All-map
        (λ o slot.
          SameNames-slot d e base tracks off o size (slot_fits d base tracks view o slot)
            (others o slot))
        offs slots in
    find_in_chosen d e field rewrite offs none off found (λ h. cc h) inside same
      (entry-Holds e off field rest (rw size (slot_fits d base tracks view off out.slot)) named
        alive entry)

pub found_written :
    (d linked : Image) (base tracks off : ℕ) (grans payload field rest : List ℕ) (rewrite : Bool)
    → IsView d base tracks
    → Outcome d base tracks payload field off linked grans
    → length field ≡ 11
    → length (field ++ rest) ≡ 32
    → live (get_or field 0 0) ≡ true
    → find_dir_entry d field rewrite base ≡ ok off
    → find_entry (store linked base grans payload off (field ++ rest)) field base ≡ ok (some off)
found_written d linked base tracks off grans payload field rest rewrite view out named len alive
      found =
    find_entry_intro _ field base (
      found_in_slots d linked base tracks off grans payload field rest rewrite (dir_slots base) view
        out named len alive (dir_slots_lem base) (find_dir_entry-slots d field rewrite base found))

-- A file that `write_file` stored is read back: the same bytes, type and flag. It holds on a drive of
-- 18 to 97 tracks that lies in an image of bytes, whatever its directory and table hold, for a name
-- with no NUL.
pub read_file-write_file :
    (d : Image) (name payload : List ℕ) (ftype ascii_flag : ℕ) (rewrite : Bool) (base tracks : ℕ)
    {e : Image}
    → IsView d base tracks
    → IsBytes d
    → All (λ c. c ≢ 0) name
    → write_file d name payload ftype ascii_flag rewrite base tracks ≡ ok e
    → read_file e name base tracks ≡ ok (payload, ftype, ascii_flag)
unfolding read_file
read_file-write_file d name payload ftype ascii_flag rewrite base tracks {e} view bytes chars h =
    let r = write_file-Run d name payload ftype ascii_flag rewrite base tracks h in
    let out = Run-Outcome d name payload ftype ascii_flag rewrite base tracks view bytes r in
    let named = length-encode_name name r.named in
    let lss = last_sector_bytes (length payload) in
    let first = get_or r.grans 0 0 in
    let entry = entry_of r.field ftype ascii_flag first lss in
    let len = length-entry r.field ftype ascii_flag first lss named in
    let e' = store r.linked base r.grans payload r.off entry in
    let is : e ≡ e' =
      r.result ∙ ap (λ n. splice (lay r.linked base r.grans payload) r.off n entry) (sym len) in
    let found =
      found_written d r.linked base tracks r.off r.grans payload r.field _ rewrite view out named
        len (encode_name-live name chars r.named) r.slot in
    let (size, at_slot, others) =
      stored_slots d r.linked base tracks r.off r.grans payload r.field entry view out len in
    let read =
      payload_read r.linked base tracks r.off r.grans payload r.field ftype ascii_flag _
        (IsView-SameOffTable d r.linked base tracks out.same view) out.slot named out.covers
        out.below out.asc out.chain in
    subst (λ x. read_file x name base tracks ≡ ok (payload, ftype, ascii_flag)) (sym is)
      (rw (
        r.named,
        found,
        at_slot,
        read,
        entry_type r.field ftype ascii_flag first lss named,
        entry_ascii r.field ftype ascii_flag first lss named,
      ))
