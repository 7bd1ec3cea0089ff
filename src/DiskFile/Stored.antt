-- ===== src/DiskFile/Stored.antt =====
-- What a stored file is read as, once it is found.
use xroar_dev.Base.{
  ℕ, ◌+◌, ◌-◌, ◌*◌, ◌/◌, ◌%◌, ◌≤◌, ◌<◌, ◌≡◌, sym, ap, ◌∙◌, ◌≢◌, inl, inr, List, [], ◌∷◌, arith,
  ◌==◌, Bool-cases, length, get_or, take, take-append, All, All-map,
}
use xroar_dev.Error.{ok}
use xroar_dev.Image.{Image, slice}
use xroar_dev.Geometry.{granule_sectors, gat_offset, num_granules}
use xroar_dev.DiskFile.{sectors_of, last_sector_bytes, read_entry_payload}
use xroar_dev.Gat.{chain_granules, entry_geometry}
use xroar_dev.DiskFile.Allocation.{Covers, before_last, size_from_sectors}
use xroar_dev.View.{IsView, granule_off_slot, slot_off_table}
use xroar_dev.Directory.Slots.{IsSlot, slots_apart}
use xroar_dev.DiskFile.Lay.{read_granules-lay}
use xroar_dev.DiskFile.Outcome.{Outcome, IsView-SameOffTable, slice-SameOffTable}
use xroar_dev.DiskFile.Write.{entry_of}
use xroar_dev.DiskFile.Entry.{
  length-entry, entry_first, entry_high, entry_low, take-slice, byte-slice,
}
use xroar_dev.DiskFile.Store.{
  store, store-Fit, read_granules-store, chain-store, size-store, slice-store_entry,
  slice-store_outside,
}
use xroar_dev.Gat.Chain.{IsChain, table}
use xroar_dev.Gat.Free.{IsAscending}
use xroar_dev.Directory.Search.{SameNames}

-- The size that `entry_geometry` computes from a chain of `count` granules and `last` sectors.
pub entry_geometry_lem :
    (d : Image) (base total : ℕ) (entry : List ℕ) (grans : List ℕ) (size last : ℕ)
    → chain_granules d (get_or entry 13 0) total base ≡ ok (grans, 0xC0 + last % 64)
    → Covers size (length grans) last
    → get_or entry 14 0 ≡ (last_sector_bytes size / 256) % 256
    → get_or entry 15 0 ≡ last_sector_bytes size % 256
    → entry_geometry d entry total base ≡ ok (grans, sectors_of size, size)
unfolding entry_geometry
entry_geometry_lem d base total entry grans size last chain c high low =
    let sectors : (length grans - 1) * granule_sectors + (0xC0 + last % 64) % 64 ≡ sectors_of size =
      omega (arith, c.sectors, c.last_small) in
    rw (chain, sectors)
      (elim (Bool-cases (sectors_of size == 0)) [
        | inl none_used ↦ let e : size ≡ 0 = ground arith in ground arith
        | inr some_used ↦
            let e : 0 < size = ground arith in
            rw (some_used, high, low)
              (ap (λ n. ok (grans, sectors_of size, n)) (size_from_sectors size e))
      ])

-- The payload of a file that was linked and laid.
pub payload_read :
    (linked : Image) (base tracks off : ℕ) (grans payload field : List ℕ)
    (ftype ascii_flag last : ℕ)
    → IsView linked base tracks
    → IsSlot base off
    → length field ≡ 11
    → Covers (length payload) (length grans) last
    → All (λ g. g < num_granules tracks) grans
    → IsAscending grans
    → IsChain (table linked (gat_offset base)) (num_granules tracks) grans (0xC0 + last % 64)
    → let entry =
        entry_of field ftype ascii_flag (get_or grans 0 0) (last_sector_bytes (length payload)) in
      read_entry_payload (store linked base grans payload off entry) entry base tracks ≡ ok payload
unfolding read_entry_payload
payload_read linked base tracks off [] payload field ftype ascii_flag last view slot named covers
      below asc chain =
    absurd chain
payload_read linked base tracks off (g ∷ grans) payload field ftype ascii_flag last view slot named
      covers below asc chain =
    let lss = last_sector_bytes (length payload) in
    let entry = entry_of field ftype ascii_flag g lss in
    let e = store linked base (g ∷ grans) payload off entry in
    let len = length-entry field ftype ascii_flag g lss named in
    let walked : chain_granules e (get_or entry 13 0) (num_granules tracks) base
        ≡ ok (g ∷ grans, 0xC0 + last % 64) =
      rw (entry_first field ftype ascii_flag g lss named) (
        chain-store linked base tracks g grans payload off entry view below asc slot len _ chain) in
    let geometry =
      entry_geometry_lem e base (num_granules tracks) entry (g ∷ grans) (length payload) last walked
        covers (entry_high field ftype ascii_flag g lss named)
        (entry_low field ftype ascii_flag g lss named) in
    let (fill, laid) =
      read_granules-lay linked base g grans payload asc
        (store-Fit linked base tracks g grans payload off entry view below asc slot len)
        (omega (arith, covers.room)) (omega (arith, before_last covers)) in
    let read =
      read_granules-store linked base tracks g grans payload off entry view below asc slot len
      ∙ laid in
    rw (geometry, read) (ap ok (take-append payload fill))

-- The written image: its size, its entry, and the other slots as they were.
pub stored_slots :
    (d linked : Image) (base tracks off : ℕ) (grans payload field entry : List ℕ)
    → IsView d base tracks
    → Outcome d base tracks payload field off linked grans
    → length entry ≡ 32
    → let e = store linked base grans payload off entry in
      (e.size ≡ d.size)
      × (slice e off 32 ≡ entry)
      × ((o : ℕ) → IsSlot base o → o ≢ off → slice e o 32 ≡ slice d o 32)
stored_slots d linked base tracks off [] payload field entry view out len = absurd out.chain
stored_slots d linked base tracks off (g ∷ grans) payload field entry view out len =
    let lview = IsView-SameOffTable d linked base tracks out.same view in
    (
      size-store linked base tracks g grans payload off entry lview out.below out.asc out.slot len
          ∙ out.same.size,
      ap (slice (store linked base (g ∷ grans) payload off entry) off) (sym len)
          ∙ slice-store_entry linked base tracks g grans payload off entry lview out.below out.asc
              out.slot len,
      λ o slot ne.
          slice-store_outside linked base tracks g grans payload off entry lview out.below out.asc
            out.slot len o 32
            (All-map (λ x lt. ground (arith, granule_off_slot x base o slot)) (g ∷ grans) out.below)
            (ground (arith, slots_apart base o off slot out.slot ne))
          ∙ slice-SameOffTable d linked base o 32 out.same (inr (slot_off_table base o slot)),
    )

-- An image with the same 32 bytes in a slot has the same name there.
pub SameNames-slot :
    (d e : Image) (base tracks off o : ℕ)
    → e.size ≡ d.size
    → o + 32 ≤ d.size
    → (o ≢ off → slice e o 32 ≡ slice d o 32)
    → SameNames d e off o
SameNames-slot d e base tracks off o size fits same ne =
    let s = same ne in
    (
      byte-slice e o 32 (omega arith) (omega (arith, size))
          ∙ ap (λ t. get_or t 0 0) s
          ∙ sym (byte-slice d o 32 (omega arith) fits),
      sym (take-slice e o 11 32 (omega arith) (omega (arith, size)))
          ∙ ap (take 11) s
          ∙ take-slice d o 11 32 (omega arith) fits,
    )
