-- ===== src/DiskFile/Frame.antt =====
-- An edit of one slot and of table bytes leaves another file as it was.
use native.Mathlib.Decide.{ℕ_discrete}
use xroar_dev.Base.{ℕ, ◌≡◌, sym, ap, ◌∙◌, ◌≢◌, true, false, List, All, All-map, list_eq_refl}
use xroar_dev.Error.{ok}
use xroar_dev.Image.{Image, slice}
use xroar_dev.Geometry.{granule, granule_offset, gat_offset}
use xroar_dev.Names.{encode_name}
use xroar_dev.Directory.{dir_slots, find_in, find_entry}
use xroar_dev.View.{IsView, slot_fits, slots_fit-All}
use xroar_dev.DiskFile.{read_file}
use xroar_dev.Directory.Search.{hit, find_in_same}
use xroar_dev.Directory.Slots.{IsSlot, dir_slots_lem}
use xroar_dev.DiskFile.Stored.{SameNames-slot}
use xroar_dev.DiskFile.Same.{FileAt, FileAt-IsSlot, read_file_same}
use xroar_dev.Gat.Chain.{table}

-- No granule of one list stands in the other.
abbrev pub Disjoint : List ℕ → List ℕ → Type 0
Disjoint xs ys = All (λ x. All (λ y. x ≢ y) ys) xs

-- What an edit of the slot `edited` keeps, off the table.
pub record SlotEdit (d e : Image) (base edited : ℕ) : Type 0 where
  pub size : e.size ≡ d.size
  pub slots : (o : ℕ) → IsSlot base o → o ≢ edited → slice e o 32 ≡ slice d o 32

module _ (d e : Image) (base tracks edited : ℕ) (view : IsView d base tracks)
    (s : SlotEdit d e base edited) where
  hit-other : (field : List ℕ) (o : ℕ) → IsSlot base o → o ≢ edited → hit e field o ≡ hit d field o
  hit-other field o slot ne =
      let (b, n) =
        SameNames-slot d e base tracks edited o s.size (slot_fits d base tracks view o slot)
          (s.slots o slot) ne in
      rw (b, n)

  -- A name is searched with the same result if the edited slot answers as before.
  pub find_entry-SlotEdit :
      (field : List ℕ)
      → hit e field edited ≡ hit d field edited
      → find_entry e field base ≡ find_entry d field base
  find_entry-SlotEdit field same = unfold find_entry in go (dir_slots base) (dir_slots_lem base)
    where
      at_slot : (o : ℕ) → IsSlot base o → hit e field o ≡ hit d field o
      at_slot o slot = elim (ℕ_discrete o edited) [
        | yes is ↦ rw is same
        | no ne ↦ hit-other field o slot ne
      ]

      go : (offs : List ℕ) → All (IsSlot base) offs → find_in e field offs ≡ find_in d field offs
      go offs slots =
          find_in_same d e field offs s.size (slots_fit-All d base tracks view offs slots)
            (All-map at_slot offs slots)

  -- Another file, whose table bytes and granules were not touched, is read as before.
  pub read_file-SlotEdit :
      (name field : List ℕ) (off : ℕ) (grans : List ℕ) (t : ℕ)
      → encode_name name ≡ ok field
      → FileAt d base tracks field off grans t
      → hit d field edited ≡ false
      → hit e field edited ≡ false
      → All (λ g. table e (gat_offset base) g ≡ table d (gat_offset base) g) grans
      → All
          (λ g. slice e (granule_offset g base) granule ≡ slice d (granule_offset g base) granule)
          grans
      → read_file e name base tracks ≡ read_file d name base tracks
  read_file-SlotEdit name field off grans t named f miss miss' links granules =
      let (holds, slot) = FileAt-IsSlot f in
      let found : hit d field off ≡ true = rw (holds.0, holds.1, list_eq_refl field) in
      let ne : off ≢ edited = λ is. cc (ap (hit d field) is, found, miss) in
      read_file_same d e base tracks name field off grans t named f (record {
        size = s.size;
        lookup = find_entry-SlotEdit field (miss' ∙ sym miss);
        entry = s.slots off slot ne;
        links = links;
        granules = granules;
      })
