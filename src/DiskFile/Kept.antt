-- ===== src/DiskFile/Kept.antt =====
-- What `write_file` keeps of an image, and what it puts into its slot.
use mathlib.Core.Path.{subst}
use xroar_dev.Base.{
  ℕ, ◌+◌, ◌≤◌, ◌<◌, ◌≡◌, sym, ap, ◌∙◌, ◌≢◌, ◌⊎◌, inl, inr, Bool, List, [], ◌∷◌, arith, ltb,
  Bool-cases, length, get_or, take, All, All-map,
}
use xroar_dev.Error.{ok}
use xroar_dev.Image.{Image, IsBytes, slice, splice}
use xroar_dev.Geometry.{granule, free, granule_offset, gat_offset, num_granules}
use xroar_dev.DiskFile.{allocation, last_sector_bytes, lay}
use xroar_dev.Geometry.Bounds.{granules_apart}
use xroar_dev.Gat.Chain.{IsChain, table, walk_sound}
use xroar_dev.Gat.Free.{IsFree, find_free_granules_lem, IsAscending}
use xroar_dev.View.{IsView, slot_fits, granule_off_table, granule_off_slot}
use xroar_dev.Gat.{chain_granules, free_chain}
use xroar_dev.DiskFile.Outcome.{
  Outcome, Linked-IsChain, Run-Outcome, IsView-SameOffTable, slice-SameOffTable, SameOffTable,
  Released-SameOffTable,
}
use xroar_dev.DiskFile.Write.{Run, entry_of, clear_slot-Released}
use xroar_dev.Gat.Link.{Linked}
use xroar_dev.Directory.Slots.{IsSlot}
use xroar_dev.DiskFile.Stored.{stored_slots}
use xroar_dev.DiskFile.Frame.{SlotEdit}
use xroar_dev.DiskFile.Entry.{take-slice, length-entry, take-entry}
use xroar_dev.DiskFile.Store.{store, table-store, slice-store_outside}
use xroar_dev.Names.Fields.{length-encode_name}
use xroar_dev.Gat.Release.{Freed, release_exact}
use xroar_dev.Gat.Nodup.{walk-length}

-- A granule of a chain is not free, unless the terminator is the free mark.
pub IsChain-used :
    (f : ℕ → ℕ) (total : ℕ) (grans : List ℕ) (t : ℕ)
    → t ≢ free
    → IsChain f total grans t
    → All (λ g. f g ≢ free) grans
IsChain-used f total [] t ne h = tt
IsChain-used f total (g ∷ []) t ne h = (λ e. ne (sym h.1 ∙ e), tt)
IsChain-used f total (g ∷ x ∷ grans) t ne h =
    ((λ e. omega (arith, h.1, h.2, e)), IsChain-used f total (x ∷ grans) t ne h.3)

-- Free granules and used granules are apart.
pub used_apart :
    (f : ℕ → ℕ) (total g : ℕ) (grans : List ℕ)
    → f g ≢ free
    → All (IsFree f 0 total) grans
    → All (λ x. g ≢ x) grans
used_apart f total g grans used h = All-map (λ x p is. used (ap f is ∙ p.2)) grans h

-- Granules of different numbers do not meet.
granules_ne :
    (g x base : ℕ)
    → g ≢ x
    → (granule_offset x base + granule ≤ granule_offset g base)
      ⊎ (granule_offset g base + granule ≤ granule_offset x base)
granules_ne g x base ne = elim (Bool-cases (ltb g x)) [
  | inl lt ↦ inr (granules_apart g x base (ground arith))
  | inr ge ↦ inl (granules_apart x g base (ground arith))
]

-- Storing keeps the table, and the granules that are not among those it lays.
store_keeps :
    (d : Image) (base tracks : ℕ) (grans payload : List ℕ) (off : ℕ) (entry : List ℕ) (g : ℕ)
    → IsView d base tracks
    → All (λ x. x < num_granules tracks) grans
    → IsAscending grans
    → IsSlot base off
    → length entry ≡ 32
    → 0 < length grans
    → g < num_granules tracks
    → All (λ x. g ≢ x) grans
    → let e = store d base grans payload off entry in
      (table e (gat_offset base) g ≡ table d (gat_offset base) g)
      × (slice e (granule_offset g base) granule ≡ slice d (granule_offset g base) granule)
store_keeps d base tracks [] payload off entry g view below asc slot len many lt ne =
    absurd (omega arith)
store_keeps d base tracks (x ∷ grans) payload off entry g view below asc slot len many lt ne = (
  table-store d base tracks x grans payload off entry view below asc slot len g
      (omega (arith, view.links)),
  slice-store_outside d base tracks x grans payload off entry view below asc slot len
      (granule_offset g base) granule (All-map (λ y h. granules_ne g y base h) (x ∷ grans) ne)
      (granule_off_slot g base off slot),
)

-- Freeing the chain of the chosen slot keeps the table bytes of other granules.
pub free_chain_exact :
    (d : Image) (base tracks first : ℕ) (grans : List ℕ) (t : ℕ) {e : Image}
    → IsBytes d
    → chain_granules d first (num_granules tracks) base ≡ ok (grans, t)
    → free_chain d first (num_granules tracks) base ≡ ok e
    → Freed d e (gat_offset base) grans
unfolding chain_granules free_chain
free_chain_exact d base tracks first grans t {e} bytes chain h =
    let total = num_granules tracks in
    let few = walk-length d (gat_offset base) total (total + 2) 0 first grans t chain in
    go grans (walk_sound d (gat_offset base) total (total + 2) 0 first grans t chain)
      (omega (arith, few))
  where
    go :
        (gs : List ℕ)
        → IsChain (table d (gat_offset base)) (num_granules tracks) gs t × (get_or gs 0 0 ≡ first)
        → length gs ≤ num_granules tracks + 1
        → Freed d e (gat_offset base) gs
    go [] (c, _) few = absurd c
    go (g ∷ gs) (c, is) few =
        release_exact d (gat_offset base) (num_granules tracks) (num_granules tracks + 1) g gs t
          bytes (omega (arith, few)) c (rw is h)

-- What a write does to the granules and table bytes of the drive.
module _ (d : Image) (name payload : List ℕ) (ftype ascii_flag : ℕ) (rewrite : Bool)
    (base tracks : ℕ) {e : Image} (view : IsView d base tracks) (bytes : IsBytes d)
    (r : Run d name payload ftype ascii_flag rewrite base tracks e) where
  pub run_outcome : Outcome d base tracks payload r.field r.off r.linked r.grans
  run_outcome = Run-Outcome d name payload ftype ascii_flag rewrite base tracks view bytes r

  pub cleared-SameOffTable : SameOffTable d r.cleared base
  cleared-SameOffTable =
      Released-SameOffTable d r.cleared base
        (clear_slot-Released d r.off (num_granules tracks) base bytes r.clearing)

  pub cleared-IsView : IsView r.cleared base tracks
  cleared-IsView = IsView-SameOffTable d r.cleared base tracks cleared-SameOffTable view

  pub chosen-IsFree :
      All (IsFree (table r.cleared (gat_offset base)) 0 (num_granules tracks)) r.grans
  chosen-IsFree =
      (find_free_granules_lem r.cleared (allocation (length payload)).0 (num_granules tracks) base
        r.choice).1

  pub linked_from : Linked r.cleared r.linked (gat_offset base) r.grans
  linked_from =
      (Linked-IsChain r.cleared r.linked base tracks r.grans (allocation (length payload)).1
        cleared-IsView (omega (arith, run_outcome.covers.some_granule)) run_outcome.below
        run_outcome.asc r.linking).0

  -- The stored image, in the form of the lemmas on `store`.
  pub is_store :
      (entry : List ℕ) × (length entry ≡ 32)
      × (take 11 entry ≡ r.field)
      × (e ≡ store r.linked base r.grans payload r.off entry)
  is_store =
      let named = length-encode_name name r.named in
      let lss = last_sector_bytes (length payload) in
      let first = get_or r.grans 0 0 in
      let entry = entry_of r.field ftype ascii_flag first lss in
      let len = length-entry r.field ftype ascii_flag first lss named in
      (
        entry,
        len,
        take-entry r.field ftype ascii_flag first lss named,
        r.result ∙ ap (λ n. splice (lay r.linked base r.grans payload) r.off n entry) (sym len),
      )

  pub kept_granule :
      (g : ℕ)
      → g < num_granules tracks
      → table r.cleared (gat_offset base) g ≢ free
      → (table e (gat_offset base) g ≡ table r.cleared (gat_offset base) g)
        × (slice e (granule_offset g base) granule ≡ slice d (granule_offset g base) granule)
  kept_granule g lt used =
      let (entry, len, head, is) = is_store in
      let apart =
        used_apart (table r.cleared (gat_offset base)) (num_granules tracks) g r.grans used
          chosen-IsFree in
      let (t, s) =
        store_keeps r.linked base tracks r.grans payload r.off entry g
          (IsView-SameOffTable d r.linked base tracks run_outcome.same view) run_outcome.below
          run_outcome.asc run_outcome.slot len (omega (arith, run_outcome.covers.some_granule)) lt
          apart in
      subst
        (λ x.
          (table x (gat_offset base) g ≡ table r.cleared (gat_offset base) g)
          × (slice x (granule_offset g base) granule ≡ slice d (granule_offset g base) granule))
        (sym is)
        (
          t ∙ linked_from.others (gat_offset base + g) (All-map (λ x h. omega arith) r.grans apart),
          s
              ∙ slice-SameOffTable d r.linked base (granule_offset g base) granule run_outcome.same
                  (granule_off_table g base),
        )

  pub slot_edit : SlotEdit d e base r.off × (slice e r.off 11 ≡ r.field)
  slot_edit =
      let (entry, len, head, is) = is_store in
      let (size, at_slot, others) =
        stored_slots d r.linked base tracks r.off r.grans payload r.field entry view run_outcome
          len in
      let fits = slot_fits d base tracks view r.off run_outcome.slot in
      subst (λ x. SlotEdit d x base r.off × (slice x r.off 11 ≡ r.field)) (sym is)
        (
          record { size = size; slots = others },
          sym (
                take-slice (store r.linked base r.grans payload r.off entry) r.off 11 32
                  (omega arith) (omega (arith, fits, size)))
              ∙ ap (take 11) at_slot
              ∙ head,
        )
