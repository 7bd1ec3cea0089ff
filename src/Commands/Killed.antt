-- ===== src/Commands/Killed.antt =====
-- The image that a kill leaves.
use mathlib.Core.Path.{subst}
use xroar_dev.Base.{
  ℕ, ◌+◌, ◌≤◌, ◌<◌, ◌≡◌, sym, ap, ◌∙◌, ◌≢◌, ◌⊎◌, inl, inr, false, some, List, [], ◌∷◌, arith,
  length, get_or, All, All-map,
}
use xroar_dev.Error.{ok, bind-eq-ok, ok-injective}
use xroar_dev.Image.{Image, IsBytes, get, update, put, slice}
use xroar_dev.Geometry.{entry_size, deleted, gat_offset, num_granules, granule, granule_offset}
use xroar_dev.Names.{encode_name}
use xroar_dev.Directory.{find_entry}
use xroar_dev.View.{IsView, slot_fits, slot_off_table, granule_off_table, granule_off_slot}
use xroar_dev.Gat.{free_chain}
use xroar_dev.Directory.Slots.{IsSlot, slots_apart}
use xroar_dev.DiskFile.Same.{FileAt, FileAt-IsSlot, FileAt-IsChain, FileAt-below, FileAt-length}
use xroar_dev.Gat.Chain.{IsChain, table}
use xroar_dev.Gat.Release.{Freed, release_exact}
use xroar_dev.Gat.Nodup.{IsChain-ext_on}
use xroar_dev.Commands.Edit.{require_entry, kill_file}
use xroar_dev.Image.Slices.{get-eq-ok, put-eq-ok, update_ne, get_or-slice, update_self, slice_ext}
use xroar_dev.Directory.Search.{hit}
use xroar_dev.DiskFile.Frame.{SlotEdit}

pub require_entry-eq-ok :
    (d : Image) (field : List ℕ) (base : ℕ) {off : ℕ}
    → require_entry d field base ≡ ok off
    → find_entry d field base ≡ ok (some off)
unfolding require_entry
require_entry-eq-ok d field base h = ground arith

-- The image with the slot marked deleted.
abbrev pub marked : Image → ℕ → Image
marked d off = record d { byte = update d.byte off deleted }

module _ (d : Image) (name field : List ℕ) (base tracks off : ℕ) (grans : List ℕ) (t : ℕ)
    {e : Image} (view : IsView d base tracks) (bytes : IsBytes d)
    (named : encode_name name ≡ ok field) (f : FileAt d base tracks field off grans t)
    (killed : kill_file d name base tracks ≡ ok e) where
  pub kill_steps : free_chain (marked d off) (d.byte (off + 13)) (num_granules tracks) base ≡ ok e
  unfolding kill_file
  kill_steps =
      let (field', named', h1) = bind-eq-ok (encode_name name) _ killed in
      let (off', found, h2) = bind-eq-ok (require_entry d field' base) _ h1 in
      let (first, read, h3) = bind-eq-ok (get d (off' + 13)) _ h2 in
      let (d', wrote, h4) = bind-eq-ok (put d off' deleted) _ h3 in
      let same_field : field' ≡ field = ok-injective (sym named' ∙ named) in
      let at_off : find_entry d field base ≡ ok (some off') =
        subst (λ x. find_entry d x base ≡ ok (some off')) same_field
          (require_entry-eq-ok d field' base found) in
      let same_off : off' ≡ off = cc (at_off, f.found) in
      let first_is : d.byte (off + 13) ≡ first =
        ap (λ o. d.byte (o + 13)) (sym same_off) ∙ (get-eq-ok d (off' + 13) read).1 in
      let marked_is : d' ≡ marked d off =
        (put-eq-ok d off' deleted wrote).2 ∙ ap (marked d) same_off in
      rw (first_is, ← marked_is) h4

  pub slot : IsSlot base off
  slot = (FileAt-IsSlot f).1

  -- The table is not touched by the mark.
  pub table-marked :
      (g : ℕ) → g < 256 → table (marked d off) (gat_offset base) g ≡ table d (gat_offset base) g
  table-marked g lt =
      update_ne d.byte off deleted (gat_offset base + g)
        (omega (arith, slot_off_table base off slot))

  pub marked-IsBytes : IsBytes (marked d off)
  marked-IsBytes = record { at = λ k. ground (arith, bytes.at k) }

  pub freed : Freed (marked d off) e (gat_offset base) grans
  freed = go grans (FileAt-IsChain f) (FileAt-below f) (FileAt-length f) kill_steps
    where
      go :
          (gs : List ℕ)
          → IsChain (table d (gat_offset base)) (num_granules tracks) gs t
            × (get_or gs 0 0 ≡ get_or (slice d off entry_size) 13 0)
          → All (λ g. g < num_granules tracks) gs
          → length gs ≤ num_granules tracks + 1
          → free_chain (marked d off) (d.byte (off + 13)) (num_granules tracks) base ≡ ok e
          → Freed (marked d off) e (gat_offset base) gs
      go [] (chain, _) below len h = absurd chain
      go (g ∷ gs) (chain, first) below len h =
          let total = num_granules tracks in
          let first_is : d.byte (off + 13) ≡ g = sym (
            first
            ∙ get_or-slice d off entry_size 13 (slot_fits d base tracks view off slot)
                (omega arith)) in
          let chain' : IsChain (table (marked d off) (gat_offset base)) total (g ∷ gs) t =
            IsChain-ext_on (table d (gat_offset base)) (table (marked d off) (gat_offset base))
              total (g ∷ gs) t
              (All-map (λ x lt. table-marked x (omega (arith, view.links))) (g ∷ gs) below) chain in
          let few : length gs < total + 1 = omega arith in
          release_exact (marked d off) (gat_offset base) total (total + 1) g gs t marked-IsBytes few
            chain' (unfold free_chain in rw first_is at h)

  pub kill_outside :
      (k : ℕ) → k ≢ off → (k < gat_offset base) ⊎ (gat_offset base + 256 ≤ k) → e.byte k ≡ d.byte k
  kill_outside k ne out =
      freed.others k (All-map (λ g lt. outside_ne g lt out) grans (FileAt-below f))
      ∙ update_ne d.byte off deleted k ne
    where
      outside_ne :
          (g : ℕ)
          → g < num_granules tracks
          → (k < gat_offset base) ⊎ (gat_offset base + 256 ≤ k)
          → k ≢ gat_offset base + g
      outside_ne g lt (inl h) = omega (arith, view.links)
      outside_ne g lt (inr h) = omega (arith, view.links)

  pub kill-SlotEdit : SlotEdit d e base off
  kill-SlotEdit = record {
    size = freed.size;
    slots = λ o slot' ne. slice_ext e d o 32 freed.size (λ k lo hi.
        kill_outside k (λ is. away o k is lo hi (slots_apart base o off slot' slot ne))
          (inr (omega (arith, slot_off_table base o slot'))));
  }
    where
      away : (o k : ℕ) → k ≡ off → o ≤ k → k < o + 32 → (o + 32 ≤ off) ⊎ (off + 32 ≤ o) → ⊥
      away o k is lo hi (inl h) = omega arith
      away o k is lo hi (inr h) = omega arith

  pub entry_dead : e.byte off ≡ deleted
  entry_dead =
      freed.others off (
        All-map (λ g lt. omega (arith, view.links, slot_off_table base off slot)) grans
          (FileAt-below f))
      ∙ update_self d.byte off deleted

  pub miss_killed : (other : List ℕ) → hit e other off ≡ false
  miss_killed other = rw entry_dead

  pub kill_granules :
      (g : ℕ) → slice e (granule_offset g base) granule ≡ slice d (granule_offset g base) granule
  kill_granules g = slice_ext e d (granule_offset g base) granule freed.size (λ k lo hi.
      kill_outside k (off_slot k lo hi (granule_off_slot g base off slot))
        (off_table k lo hi (granule_off_table g base)))
    where
      off_slot :
          (k : ℕ)
          → granule_offset g base ≤ k
          → k < granule_offset g base + granule
          → (granule_offset g base + granule ≤ off) ⊎ (off + 32 ≤ granule_offset g base)
          → k ≢ off
      off_slot k lo hi (inl h) = omega arith
      off_slot k lo hi (inr h) = omega arith

      off_table :
          (k : ℕ)
          → granule_offset g base ≤ k
          → k < granule_offset g base + granule
          → (granule_offset g base + granule ≤ gat_offset base)
            ⊎ (gat_offset base + 256 ≤ granule_offset g base)
          → (k < gat_offset base) ⊎ (gat_offset base + 256 ≤ k)
      off_table k lo hi (inl h) = inl (omega arith)
      off_table k lo hi (inr h) = inr (omega arith)

  pub kill_links :
      (g : ℕ)
      → g < num_granules tracks
      → All (λ x. g ≢ x) grans
      → table e (gat_offset base) g ≡ table d (gat_offset base) g
  kill_links g lt ne =
      freed.others (gat_offset base + g) (All-map (λ x h. omega arith) grans ne)
      ∙ table-marked g (omega (arith, view.links))
