-- ===== src/Commands/Moved.antt =====
-- A name that is overwritten in its slot.
use mathlib.Core.Path.{subst}
use native.Mathlib.Decide.{ℕ_discrete}
use xroar_dev.Base.{
  ℕ, ◌+◌, ◌≤◌, ◌<◌, ◌≡◌, sym, ap, ◌∙◌, ◌≢◌, ◌⊎◌, inl, inr, true, none, some, List, [], ◌∷◌, arith,
  length, get_or, All,
}
use xroar_dev.Error.{ok}
use xroar_dev.Image.{Image, get, slice, splice}
use xroar_dev.Geometry.{granule, entry_size, granule_offset, gat_offset, num_granules}
use xroar_dev.Directory.{live, find_in}
use xroar_dev.View.{IsView, slot_fits, granule_off_slot, slot_off_table}
use xroar_dev.DiskFile.{read_entry_payload}
use xroar_dev.Gat.{entry_geometry}
use xroar_dev.Directory.Fresh.{missed}
use xroar_dev.Directory.Search.{Holds, SameNames, find_in_here, find_in_later}
use xroar_dev.Directory.Slots.{IsSlot, slots_apart}
use xroar_dev.DiskFile.Frame.{SlotEdit}
use xroar_dev.Gat.Chain.{table}
use xroar_dev.Image.Slices.{
  size-splice, byte-splice_outside, get_or-slice, slice-splice_self, slice-splice_outside,
}
use xroar_dev.DiskFile.Entry.{byte-slice}

pub found_head :
    (d : Image) (field : List ℕ) (o : ℕ) (offs : List ℕ) (off : ℕ)
    → find_in d field (o ∷ offs) ≡ ok (some off)
    → o ≢ off
    → find_in d field offs ≡ ok (some off)
unfolding find_in get
found_head d field o offs off h ne = ground arith

-- A slot that held one name and holds another is found by the new name, which no slot held.
pub find_in_renamed :
    (d e : Image) (old new : List ℕ) (offs : List ℕ) (off : ℕ)
    → find_in d old offs ≡ ok (some off)
    → find_in d new offs ≡ ok none
    → All (λ o. o < e.size) offs
    → All (SameNames d e off) offs
    → Holds e new off
    → find_in e new offs ≡ ok (some off)
find_in_renamed d e old new [] off found absent inside same holds = unfold find_in in cc found
find_in_renamed d e old new (o ∷ offs) off found absent inside same holds =
    elim (ℕ_discrete o off) [
      | yes is ↦ find_in_here e new o offs off inside.0 is holds
      | no ne ↦
          let (miss, absent') = missed d new o offs absent in
          let (b, n) = same.0 ne in
          find_in_later e new o offs inside.0 (rw (b, n) miss)
          ∙ find_in_renamed d e old new offs off (found_head d old o offs off found ne) absent'
              inside.1 same.1 holds
    ]

-- The payload depends on three bytes of the entry.
pub payload_of_bytes :
    (e : Image) (entry entry' : List ℕ) (base tracks : ℕ)
    → get_or entry' 13 0 ≡ get_or entry 13 0
    → get_or entry' 14 0 ≡ get_or entry 14 0
    → get_or entry' 15 0 ≡ get_or entry 15 0
    → read_entry_payload e entry' base tracks ≡ read_entry_payload e entry base tracks
unfolding read_entry_payload entry_geometry
payload_of_bytes e entry entry' base tracks a b c = rw (a, b, c)

-- A name is overwritten in its slot.
module _ (d : Image) (base tracks off : ℕ) (new : List ℕ) (view : IsView d base tracks)
    (slot : IsSlot base off) (named : length new ≡ 11) where
  abbrev pub renamed : Image
  renamed = splice d off (length new) new

  pub name_fits : off + length new ≤ d.size
  name_fits = omega (arith, slot_fits d base tracks view off slot)

  pub outside : (at n : ℕ) → (at + n ≤ off) ⊎ (off + 32 ≤ at) → slice renamed at n ≡ slice d at n
  outside at n away = slice-splice_outside d off new name_fits at n (ground arith)

  pub size-renamed : renamed.size ≡ d.size
  size-renamed = size-splice d off new name_fits

  pub rename-SlotEdit : SlotEdit d renamed base off
  rename-SlotEdit = record {
    size = size-renamed;
    slots = λ o slot' ne. outside o 32 (slots_apart base o off slot' slot ne);
  }

  -- The entry behind the name.
  pub entry_kept :
      (k : ℕ)
      → 11 ≤ k
      → k < 32
      → get_or (slice renamed off entry_size) k 0 ≡ get_or (slice d off entry_size) k 0
  entry_kept k lo hi =
      let fits = slot_fits d base tracks view off slot in
      get_or-slice renamed off entry_size k (omega (arith, size-renamed)) hi
      ∙ byte-splice_outside d off new name_fits (off + k) (inr (omega arith))
      ∙ sym (get_or-slice d off entry_size k fits hi)

  pub links_kept :
      (g : ℕ)
      → g < num_granules tracks
      → table renamed (gat_offset base) g ≡ table d (gat_offset base) g
  links_kept g lt =
      byte-splice_outside d off new name_fits (gat_offset base + g)
        (inl (omega (arith, slot_off_table base off slot, view.links)))

  pub granule_kept :
      (g : ℕ)
      → slice renamed (granule_offset g base) granule ≡ slice d (granule_offset g base) granule
  granule_kept g = outside (granule_offset g base) granule (granule_off_slot g base off slot)

  pub new-Holds : live (get_or new 0 0) ≡ true → Holds renamed new off
  new-Holds alive =
      let self : slice renamed off 11 ≡ new =
        subst (λ n. slice renamed off n ≡ new) named (slice-splice_self d off new name_fits) in
      let first : renamed.byte off ≡ get_or new 0 0 =
        byte-slice renamed off 11 (omega arith) (omega (arith, size-renamed, name_fits))
        ∙ ap (λ l. get_or l 0 0) self in
      (subst (λ b. live b ≡ true) (sym first) alive, self)
