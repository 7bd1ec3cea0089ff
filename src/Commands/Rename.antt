-- ===== src/Commands/Rename.antt =====
-- `rename` keeps the file that it renames.
use mathlib.Core.Path.{subst}
use xroar_dev.Base.{
  ℕ, ◌≡◌, ap, ◌∙◌, ◌≢◌, true, Option, none, some, List, arith, length, get_or, All, All-map,
}
use xroar_dev.Error.{ok, file_exists, Result, err, ok-injective, ◌>>=◌, bind-eq-ok}
use xroar_dev.Image.{Image, slice, splice}
use xroar_dev.Geometry.{entry_size, gat_offset, num_granules}
use xroar_dev.Directory.{live, find_in, find_entry, dir_slots}
use xroar_dev.View.{IsView, slot_fits, slots_fit-All}
use xroar_dev.DiskFile.{read_file}
use xroar_dev.Directory.Search.{find_entry_intro, find_entry_slots, hit-slot}
use xroar_dev.Directory.Slots.{IsSlot, dir_slots_lem}
use xroar_dev.DiskFile.Frame.{read_file-SlotEdit}
use xroar_dev.Gat.Chain.{table}
use xroar_dev.Image.Slices.{slice-splice_self}
use xroar_dev.Names.{encode_name}
use xroar_dev.Commands.Edit.{require_entry, rename_file}
use xroar_dev.DiskFile.Stored.{SameNames-slot}
use xroar_dev.DiskFile.Same.{FileAt, FileAt-IsSlot, FileAt-below, chain_same, payload_same}
use xroar_dev.DiskFile.Store.{read_granules_ext}
use xroar_dev.Names.Fields.{length-encode_name, encode_name-live}
use xroar_dev.Commands.Moved.{
  find_in_renamed, payload_of_bytes, name_fits, size-renamed, rename-SlotEdit, entry_kept,
  links_kept, granule_kept, new-Holds,
}

-- What is left of a rename once the old name is found.
abbrev after_lookup : Image → List ℕ → ℕ → ℕ → Result Image
after_lookup d new off base = do
  new_field ← encode_name new
  clash ← find_entry d new_field base
  elim clash [ some _ ↦ err file_exists | none ↦ ok (splice d off 11 new_field) ]

pub rename_steps :
    (d : Image) (old new : List ℕ) (base : ℕ) (old_field : List ℕ) (off : ℕ) {e : Image}
    → encode_name old ≡ ok old_field
    → find_entry d old_field base ≡ ok (some off)
    → rename_file d old new base ≡ ok e
    → (new_field : List ℕ) × (encode_name new ≡ ok new_field)
      × (find_entry d new_field base ≡ ok none)
      × (splice d off 11 new_field ≡ e)
unfolding rename_file require_entry
rename_steps d old new base old_field off {e} named found h =
    let h1 : after_lookup d new off base ≡ ok e = rw (named, found) at h in
    let (new_field, named', h2) = bind-eq-ok (encode_name new) _ h1 in
    let (clash, looked, h3) = bind-eq-ok (find_entry d new_field base) _ h2 in
    go new_field named' clash looked h3
  where
    go :
        (new_field : List ℕ)
        → encode_name new ≡ ok new_field
        → (clash : Option ℕ) → find_entry d new_field base ≡ ok clash
        → (elim clash [ some _ ↦ err file_exists | none ↦ ok (splice d off 11 new_field) ]) ≡ ok e
        → (new_field : List ℕ) × (encode_name new ≡ ok new_field)
          × (find_entry d new_field base ≡ ok none)
          × (splice d off 11 new_field ≡ e)
    go new_field n none looked k = (new_field, n, looked, ok-injective k)
    go new_field n (some _) looked k = cc k

renamed_in_slots :
    (d : Image) (base tracks off : ℕ) (old_field new_field : List ℕ) (offs : List ℕ)
    → IsView d base tracks
    → IsSlot base off
    → length new_field ≡ 11
    → live (get_or new_field 0 0) ≡ true
    → All (IsSlot base) offs
    → find_in d old_field offs ≡ ok (some off)
    → find_in d new_field offs ≡ ok none
    → find_in (splice d off (length new_field) new_field) new_field offs ≡ ok (some off)
renamed_in_slots d base tracks off old_field new_field offs view slot len alive slots found absent =
    let e = splice d off (length new_field) new_field in
    let size = size-renamed d base tracks off new_field view slot len in
    let fits = slots_fit-All d base tracks view offs slots in
    find_in_renamed d e old_field new_field offs off found absent
      (All-map (λ o h. omega (arith, h, size)) offs fits)
      (All-map
        (λ o at.
          SameNames-slot d e base tracks off o size (slot_fits d base tracks view o at)
            ((rename-SlotEdit d base tracks off new_field view slot len).slots o at))
        offs slots)
      (new-Holds d base tracks off new_field view slot len alive)

renamed_same :
    (d : Image) (base tracks off : ℕ) (old new old_field new_field : List ℕ) (grans : List ℕ)
    (t : ℕ)
    → IsView d base tracks
    → encode_name old ≡ ok old_field
    → FileAt d base tracks old_field off grans t
    → encode_name new ≡ ok new_field
    → live (get_or new_field 0 0) ≡ true
    → find_entry d new_field base ≡ ok none
    → read_file (splice d off (length new_field) new_field) new base tracks
      ≡ read_file d old base tracks
unfolding read_file
renamed_same d base tracks off old new old_field new_field grans t view named f named' alive
      absent =
    let slot = (FileAt-IsSlot f).1 in
    let len = length-encode_name new named' in
    let e = splice d off (length new_field) new_field in
    let size = size-renamed d base tracks off new_field view slot len in
    let kept = entry_kept d base tracks off new_field view slot len in
    let found' : find_entry e new_field base ≡ ok (some off) = find_entry_intro e new_field base (
      renamed_in_slots d base tracks off old_field new_field (dir_slots base) view slot len alive
        (dir_slots_lem base) (find_entry_slots d old_field base f.found)
        (find_entry_slots d new_field base absent)) in
    let links : All (λ g. table e (gat_offset base) g ≡ table d (gat_offset base) g) grans =
      All-map (λ g lt. links_kept d base tracks off new_field view slot len g lt) grans
        (FileAt-below f) in
    let chain' =
      chain_same d e base (num_granules tracks) (get_or (slice d off entry_size) 13 0) grans t size
        links f.chain in
    let payload =
      payload_of_bytes e (slice d off entry_size) (slice e off entry_size) base tracks
        (kept 13 (omega arith) (omega arith)) (kept 14 (omega arith) (omega arith))
        (kept 15 (omega arith) (omega arith))
      ∙ payload_same d e base tracks (slice d off entry_size) grans t f.chain chain' (
          read_granules_ext d e base grans (
            All-map (λ g lt. granule_kept d base tracks off new_field view slot len g) grans
              (FileAt-below f))) in
    rw (
      named,
      named',
      f.found,
      found',
      payload,
      kept 11 (omega arith) (omega arith),
      kept 12 (omega arith) (omega arith),
    )

-- A rename that succeeds keeps what the file reads as, under its new name: its bytes, type and flag.
-- It holds for a file of a drive of 18 to 97 tracks, and a new name without NUL.
pub read_file-rename_file :
    (d : Image) (base tracks off : ℕ) (old new old_field : List ℕ) (grans : List ℕ) (t : ℕ)
    {e : Image}
    → IsView d base tracks
    → encode_name old ≡ ok old_field
    → FileAt d base tracks old_field off grans t
    → All (λ c. c ≢ 0) new
    → rename_file d old new base ≡ ok e
    → read_file e new base tracks ≡ read_file d old base tracks
read_file-rename_file d base tracks off old new old_field grans t view named f chars h =
    let (new_field, named', absent, is) =
      rename_steps d old new base old_field off named f.found h in
    let form : splice d off (length new_field) new_field ≡ splice d off 11 new_field =
      ap (λ n. splice d off n new_field) (length-encode_name new named') in
    subst (λ x. read_file x new base tracks ≡ read_file d old base tracks) (form ∙ is)
      (renamed_same d base tracks off old new old_field new_field grans t view named f named'
        (encode_name-live new chars named') absent)

-- A rename that succeeds keeps what every file of another name reads as, on a drive of 18 to 97
-- tracks.
pub read_file-rename_file_other :
    (d : Image) (base tracks off : ℕ) (old new old_field : List ℕ) (grans : List ℕ) (t : ℕ)
    (other field' : List ℕ) (off' : ℕ) (grans' : List ℕ) (t' : ℕ) {e : Image}
    → IsView d base tracks
    → encode_name old ≡ ok old_field
    → FileAt d base tracks old_field off grans t
    → encode_name other ≡ ok field'
    → FileAt d base tracks field' off' grans' t'
    → old_field ≢ field'
    → rename_file d old new base ≡ ok e
    → read_file e other base tracks ≡ read_file d other base tracks
read_file-rename_file_other d base tracks off old new old_field grans t other field' off' grans' t'
      view named f named' f' ne h =
    let (new_field, named2, absent, is) =
      rename_steps d old new base old_field off named f.found h in
    let len = length-encode_name new named2 in
    let slot = (FileAt-IsSlot f).1 in
    let e = splice d off (length new_field) new_field in
    let form : e ≡ splice d off 11 new_field = ap (λ n. splice d off n new_field) len in
    let ne' : new_field ≢ field' =
      λ same. both (subst (λ x. find_entry d x base ≡ ok none) same absent) f'.found in
    let head : slice e off 11 ≡ new_field =
      subst (λ n. slice e off n ≡ new_field) len
        (slice-splice_self d off new_field (name_fits d base tracks off new_field view slot len)) in
    subst (λ x. read_file x other base tracks ≡ read_file d other base tracks) (form ∙ is)
      (read_file-SlotEdit d e base tracks off view
        (rename-SlotEdit d base tracks off new_field view slot len) other field' off' grans' t'
        named' f' (hit-slot d field' old_field off (FileAt-IsSlot f).0.1 ne)
        (hit-slot e field' new_field off head ne')
        (All-map (λ g lt. links_kept d base tracks off new_field view slot len g lt) grans'
          (FileAt-below f'))
        (All-map (λ g lt. granule_kept d base tracks off new_field view slot len g) grans'
          (FileAt-below f')))
  where
    both : {o : Result (Option ℕ)} → o ≡ ok none → o ≡ ok (some off') → ⊥
    both x y = cc (x, y)
