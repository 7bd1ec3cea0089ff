-- ===== src/DiskFile/Write.antt =====
-- What a successful `write_file` has done, step by step.
use xroar_dev.Base.{
  ℕ, ◌+◌, ◌/◌, ◌%◌, ◌<◌, ◌≡◌, sym, ap, ◌∙◌, inl, inr, Bool, List, ◌∷◌, ◌++◌, arith, Bool-cases,
  length, get_or, replicate,
}
use xroar_dev.Error.{ok, bind-eq-ok, ok-injective}
use xroar_dev.Image.{Image, splice, IsBytes, get}
use xroar_dev.Geometry.{entry_size, gat_offset, num_granules}
use xroar_dev.Names.{encode_name}
use xroar_dev.Directory.{find_dir_entry, live}
use xroar_dev.DiskFile.{allocation, last_sector_bytes, lay, build_entry, clear_slot, write_file}
use xroar_dev.Gat.{find_free_granules, link_chain, free_chain}
use xroar_dev.Gat.Release.{Released, Released-refl, release_lem}
use xroar_dev.Image.Slices.{get-eq-ok}

-- The 32 bytes of a directory entry.
abbrev pub entry_of : List ℕ → ℕ → ℕ → ℕ → ℕ → List ℕ
entry_of field ftype ascii_flag first lss =
    field ++ ftype ∷ ascii_flag ∷ first ∷ (lss / 256) % 256 ∷ lss % 256 ∷ replicate 16 0

-- The values that a run of `write_file` goes through.
pub record Run (d : Image) (name payload : List ℕ) (ftype ascii_flag : ℕ) (rewrite : Bool)
    (base tracks : ℕ) (e : Image) : Type 0 where
  pub field : List ℕ
  pub off : ℕ
  pub cleared : Image
  pub grans : List ℕ
  pub linked : Image
  pub named : encode_name name ≡ ok field
  pub slot : find_dir_entry d field rewrite base ≡ ok off
  pub clearing : clear_slot d off (num_granules tracks) base ≡ ok cleared
  pub choice :
      find_free_granules cleared (allocation (length payload)).0 (num_granules tracks) base
      ≡ ok grans
  pub linking :
      link_chain cleared (gat_offset base) grans (allocation (length payload)).1 ≡ ok linked
  pub type_byte : ftype < 256
  pub ascii_byte : ascii_flag < 256
  pub result :
      e
      ≡ splice
          (lay linked base grans payload)
          off
          entry_size
          (entry_of field ftype ascii_flag (get_or grans 0 0) (last_sector_bytes (length payload)))

build_entry-eq-ok :
    (field : List ℕ) (ftype ascii_flag first lss : ℕ) {entry : List ℕ}
    → build_entry field ftype ascii_flag first lss ≡ ok entry
    → (entry ≡ entry_of field ftype ascii_flag first lss)
      × (ftype < 256)
      × (ascii_flag < 256)
      × (first < 256)
unfolding build_entry
build_entry-eq-ok field ftype ascii_flag first lss h =
    (ground arith, ground arith, ground arith, ground arith)

pub write_file-Run :
    (d : Image) (name payload : List ℕ) (ftype ascii_flag : ℕ) (rewrite : Bool) (base tracks : ℕ)
    {e : Image}
    → write_file d name payload ftype ascii_flag rewrite base tracks ≡ ok e
    → Run d name payload ftype ascii_flag rewrite base tracks e
unfolding write_file
write_file-Run d name payload ftype ascii_flag rewrite base tracks h =
    let (field, named, h1) = bind-eq-ok (encode_name name) _ h in
    let (off, slot, h2) = bind-eq-ok (find_dir_entry d field rewrite base) _ h1 in
    let (cleared, clearing, h3) = bind-eq-ok (clear_slot d off (num_granules tracks) base) _ h2 in
    let (grans, choice, h4) =
      bind-eq-ok
        (find_free_granules cleared (allocation (length payload)).0 (num_granules tracks) base) _
        h3 in
    let (linked, linking, h5) =
      bind-eq-ok (link_chain cleared (gat_offset base) grans (allocation (length payload)).1) _
        h4 in
    let (entry, built, h6) =
      bind-eq-ok
        (build_entry field ftype ascii_flag (get_or grans 0 0) (last_sector_bytes (length payload)))
        _ h5 in
    let (is, t, a, f) =
      build_entry-eq-ok field ftype ascii_flag (get_or grans 0 0)
        (last_sector_bytes (length payload)) built in
    record {
      field = field;
      off = off;
      cleared = cleared;
      grans = grans;
      linked = linked;
      named = named;
      slot = slot;
      clearing = clearing;
      choice = choice;
      linking = linking;
      type_byte = t;
      ascii_byte = a;
      result =
          sym (ok-injective h6) ∙ ap (splice (lay linked base grans payload) off entry_size) is;
    }

-- Freeing the old chain of a slot writes only to the table.
pub clear_slot-Released :
    (d : Image) (off total_grans base : ℕ) {e : Image}
    → IsBytes d
    → clear_slot d off total_grans base ≡ ok e
    → Released d e (gat_offset base)
unfolding clear_slot free_chain
clear_slot-Released d off total_grans base b h =
    let (old, read, h2) = bind-eq-ok (get d off) _ h in
    elim (Bool-cases (live old)) [
      | inr dead ↦
          let h3 = rw dead at h2 in rw (← ok-injective h3) (Released-refl d (gat_offset base) b)
      | inl alive ↦
          let h3 = rw alive at h2 in
          let (first, read2, h4) = bind-eq-ok (get d (off + 13)) _ h3 in
          let e = (get-eq-ok d (off + 13) read2).1 in
          release_lem d (gat_offset base) (total_grans + 1) first b (rw (← e) (b.at (off + 13))) h4
    ]
