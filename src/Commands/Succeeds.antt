-- ===== src/Commands/Succeeds.antt =====
-- When `kill` and `write_file` succeed.
use xroar_dev.Base.{
  ℕ, ◌+◌, ◌/◌, ◌%◌, ◌≤◌, ◌<◌, ◌≡◌, refl, inl, inr, Bool, none, List, [], ◌∷◌, ◌++◌, arith, lt→ltb,
  Bool-cases, length, get_or, replicate, All, All-map,
}
use xroar_dev.Error.{ok}
use xroar_dev.Image.{Image, IsBytes, update, splice}
use xroar_dev.Geometry.{deleted, gat_offset, num_granules, entry_size}
use xroar_dev.Names.{encode_name}
use xroar_dev.Directory.{find_dir_entry, dir_slots, live}
use xroar_dev.View.{IsView, gat_fits, slot_fits}
use xroar_dev.DiskFile.{allocation, clear_slot, write_file, last_sector_bytes, build_entry, lay}
use xroar_dev.Gat.{find_free_granules, free_chain, link_chain}
use xroar_dev.DiskFile.Same.{FileAt, FileAt-IsSlot}
use xroar_dev.Gat.Total.{release_total}
use xroar_dev.Commands.Edit.{require_entry, kill_file}
use xroar_dev.Image.Slices.{get_ok, put_ok}
use xroar_dev.Directory.Search.{find_slot_All, find_dir_entry-slots}
use xroar_dev.Directory.Slots.{IsSlot, dir_slots_lem}
use xroar_dev.DiskFile.Outcome.{IsView-SameOffTable, Released-SameOffTable}
use xroar_dev.DiskFile.Write.{clear_slot-Released}
use xroar_dev.Gat.Free.{IsAscending, find_free_granules_lem}
use xroar_dev.Gat.Release.{update-IsBytes}
use xroar_dev.Gat.Link.{link_chain_lem}

-- A kill of a file that a drive of 18 to 97 tracks holds succeeds, in an image of bytes.
pub kill_file_succeeds :
    (d : Image) (name field : List ℕ) (base tracks off : ℕ) (grans : List ℕ) (t : ℕ)
    → IsView d base tracks
    → IsBytes d
    → encode_name name ≡ ok field
    → FileAt d base tracks field off grans t
    → (e : Image) × (kill_file d name base tracks ≡ ok e)
unfolding kill_file require_entry free_chain
kill_file_succeeds d name field base tracks off grans t view bytes named f =
    let fits = slot_fits d base tracks view off (FileAt-IsSlot f).1 in
    let read = get_ok d (off + 13) (omega arith) in
    let wrote = put_ok d off deleted (omega arith) (omega arith) in
    let d' = record d { byte = update d.byte off deleted } in
    let (e, freed) =
      release_total d' (gat_offset base) (num_granules tracks + 1) (d.byte (off + 13))
        (update-IsBytes d off deleted (omega arith) bytes) (gat_fits d base tracks view)
        (bytes.at (off + 13)) in
    (e, rw (named, f.found, read, wrote, freed))

clear_slot_total :
    (d : Image) (base tracks off : ℕ)
    → IsView d base tracks
    → IsBytes d
    → IsSlot base off
    → (c : Image) × (clear_slot d off (num_granules tracks) base ≡ ok c)
unfolding clear_slot free_chain
clear_slot_total d base tracks off view bytes slot =
    let fits = slot_fits d base tracks view off slot in
    let read = get_ok d off (omega arith) in
    let read_first = get_ok d (off + 13) (omega arith) in
    elim (Bool-cases (live (d.byte off))) [
      | inr dead ↦ (d, rw (read, dead))
      | inl alive ↦
          let (e, freed) =
            release_total d (gat_offset base) (num_granules tracks + 1) (d.byte (off + 13)) bytes
              (gat_fits d base tracks view) (bytes.at (off + 13)) in
          (e, rw (read, alive, read_first, freed))
    ]

link_total :
    (d : Image) (base tracks : ℕ) (grans : List ℕ) (last : ℕ)
    → IsView d base tracks
    → All (λ g. g < num_granules tracks) grans
    → IsAscending grans
    → (e : Image) × (link_chain d (gat_offset base) grans last ≡ ok e)
link_total d base tracks [] last view below asc = unfold link_chain in (d, refl)
link_total d base tracks (g ∷ grans) last view below asc =
    let (e, r, _, _) =
      link_chain_lem d (gat_offset base) (num_granules tracks) g grans last
        (omega (arith, gat_fits d base tracks view, view.links)) view.links below asc in
    (e, r)

build_total :
    (field : List ℕ) (ftype ascii_flag first lss : ℕ)
    → ftype < 256
    → ascii_flag < 256
    → first < 256
    → (entry : List ℕ) × (build_entry field ftype ascii_flag first lss ≡ ok entry)
unfolding build_entry
build_total field ftype ascii_flag first lss a b c = (
  field ++ ftype ∷ ascii_flag ∷ first ∷ (lss / 256) % 256 ∷ lss % 256 ∷ replicate 16 0,
  rw (lt→ltb ftype 256 a, lt→ltb ascii_flag 256 b, lt→ltb first 256 c),
)

first_small : (grans : List ℕ) (n : ℕ) → n ≤ 0xC0 → All (λ g. g < n) grans → get_or grans 0 0 < 256
first_small [] n le below = omega arith
first_small (g ∷ grans) n le below = omega (arith, below.0)

-- On a drive of 18 to 97 tracks in an image of bytes, `write_file` succeeds when the name fits, a
-- slot is found, enough granules are free once the slot's old chain is cleared, and type and flag are
-- bytes.
pub write_file_succeeds :
    (d : Image) (name payload field : List ℕ) (ftype ascii_flag : ℕ) (rewrite : Bool)
    (base tracks off : ℕ)
    → IsView d base tracks
    → IsBytes d
    → encode_name name ≡ ok field
    → find_dir_entry d field rewrite base ≡ ok off
    → ((cleared : Image)
        → clear_slot d off (num_granules tracks) base ≡ ok cleared
        → (grans : List ℕ) × (find_free_granules cleared
              (allocation (length payload)).0
              (num_granules tracks)
              base
            ≡ ok grans))
    → ftype < 256
    → ascii_flag < 256
    → (e : Image) × (write_file d name payload ftype ascii_flag rewrite base tracks ≡ ok e)
unfolding write_file
write_file_succeeds d name payload field ftype ascii_flag rewrite base tracks off view bytes named
      slot room type_byte ascii_byte =
    let at =
      find_slot_All (IsSlot base) d field rewrite (dir_slots base) none
        (find_dir_entry-slots d field rewrite base slot) (dir_slots_lem base)
        (λ o h. absurd (cc h)) in
    let (c, clearing) = clear_slot_total d base tracks off view bytes at in
    let (grans, choice) = room c clearing in
    let (_, frees, asc) =
      find_free_granules_lem c (allocation (length payload)).0 (num_granules tracks) base choice in
    let below : All (λ g. g < num_granules tracks) grans = All-map (λ g p. p.1) grans frees in
    let same =
      Released-SameOffTable d c base
        (clear_slot-Released d off (num_granules tracks) base bytes clearing) in
    let (linked, linking) =
      link_total c base tracks grans (allocation (length payload)).1
        (IsView-SameOffTable d c base tracks same view) below asc in
    let (entry, built) =
      build_total field ftype ascii_flag (get_or grans 0 0) (last_sector_bytes (length payload))
        type_byte ascii_byte (first_small grans (num_granules tracks) view.links below) in
    (
      splice (lay linked base grans payload) off entry_size entry,
      rw (named, slot, clearing, choice, linking, built),
    )
