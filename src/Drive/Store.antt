-- ===== src/Drive/Store.antt =====
-- `write_file` keeps a drive well formed, and puts its file there.
use xroar_dev.Base.{
  ℕ, ◌+◌, ◌%◌, ◌<◌, ◌≡◌, refl, sym, ap, ◌∙◌, ◌≢◌, inl, inr, Bool, true, false, Option, none, List,
  [], ◌∷◌, arith, Bool-cases, length, get_or, All, All-map, list_eq→eq, list_eq_refl,
}
use xroar_dev.Error.{ok}
use xroar_dev.Image.{Image, get, slice, splice}
use xroar_dev.Directory.{find_slot_in, dir_slots, live, find_in, find_entry}
use xroar_dev.Directory.Search.{
  find_slot_step, hit, find_in_later, find_entry_intro, find_entry_slots, find_dir_entry-slots,
  hit-slot,
}
use mathlib.Core.Path.{subst}
use xroar_dev.Geometry.{entry_size, free, gat_offset, num_granules}
use xroar_dev.Drive.{IsLive, ChainAt, IsWell, ChainAt-IsChain, Edit, Settled, same_end}
use xroar_dev.View.{IsView, slot_fits, slots_fit-All}
use xroar_dev.DiskFile.{allocation, last_sector_bytes, lay, clear_slot}
use xroar_dev.Gat.{free_chain}
use xroar_dev.Directory.Fresh.{find_slot_dead}
use xroar_dev.Directory.Slots.{dir_slots_lem, dir_slots-at}
use xroar_dev.DiskFile.Kept.{
  IsChain-used, used_apart, free_chain_exact, run_outcome, chosen-IsFree, kept_granule, slot_edit,
}
use xroar_dev.DiskFile.Stored.{stored_slots}
use xroar_dev.DiskFile.Same.{IsChain-below}
use xroar_dev.DiskFile.Outcome.{IsView-SameOffTable, Outcome}
use xroar_dev.DiskFile.Others.{clear_slot-dead}
use xroar_dev.DiskFile.Write.{entry_of, Run}
use xroar_dev.DiskFile.Entry.{length-entry, entry_first}
use xroar_dev.DiskFile.Store.{store, chain-store}
use xroar_dev.Gat.Chain.{table}
use xroar_dev.Image.Slices.{get_or-slice}
use xroar_dev.Names.Fields.{length-encode_name}

-- A search for a slot passes all slots, unless it stops at one that holds the name.
find_slot_misses :
    (d : Image) (field : List ℕ) (rewrite : Bool) (offs : List ℕ) (first_free : Option ℕ) {off : ℕ}
    → find_slot_in d field rewrite offs first_free ≡ ok off
    → hit d field off ≡ false
    → All (λ o. hit d field o ≡ false) offs
find_slot_misses d field rewrite [] first_free h miss = tt
find_slot_misses d field rewrite (o ∷ offs) first_free {off} h miss =
    elim (find_slot_step d field rewrite o offs first_free h) [
      | inl (found, is, _) ↦ absurd (both found (subst (λ x. hit d field x ≡ false) is miss))
      | inr (miss', rest) ↦ (miss', find_slot_misses d field rewrite offs _ rest miss)
    ]
  where
    both : {b : Bool} → b ≡ true → b ≡ false → ⊥
    both x y = cc (x, y)

find_in-none :
    (d : Image) (field : List ℕ) (offs : List ℕ)
    → All (λ o. o < d.size) offs
    → All (λ o. hit d field o ≡ false) offs
    → find_in d field offs ≡ ok none
find_in-none d field [] inside miss = unfold find_in in refl
find_in-none d field (o ∷ offs) inside miss =
    find_in_later d field o offs inside.0 miss.0 ∙ find_in-none d field offs inside.1 miss.1

-- A name that no slot holds is not found.
pub find_entry-none :
    (d : Image) (field : List ℕ) (base tracks : ℕ)
    → IsView d base tracks
    → All (λ o. hit d field o ≡ false) (dir_slots base)
    → find_entry d field base ≡ ok none
find_entry-none d field base tracks view miss = find_entry_intro d field base (
    find_in-none d field (dir_slots base)
      (slots_fit-All d base tracks view (dir_slots base) (dir_slots_lem base)) miss)

clear_slot-live :
    (d : Image) (off total base : ℕ) {c : Image}
    → off + 13 < d.size
    → live (d.byte off) ≡ true
    → clear_slot d off total base ≡ ok c
    → free_chain d (d.byte (off + 13)) total base ≡ ok c
unfolding clear_slot get
clear_slot-live d off total base inside alive h = ground arith

-- The entry that was stored begins the chain that was linked.
chain_stored :
    (d linked : Image) (base tracks off : ℕ) (grans payload field : List ℕ) (ftype ascii_flag : ℕ)
    → IsView d base tracks
    → Outcome d base tracks payload field off linked grans
    → length field ≡ 11
    → let entry =
        entry_of field ftype ascii_flag (get_or grans 0 0) (last_sector_bytes (length payload)) in
      ChainAt
        (store linked base grans payload off entry)
        base
        tracks
        off
        grans
        (0xC0 + (allocation (length payload)).1 % 64)
chain_stored d linked base tracks off [] payload field ftype ascii_flag view out named =
    absurd out.chain
chain_stored d linked base tracks off (g ∷ grans) payload field ftype ascii_flag view out named =
    let lss = last_sector_bytes (length payload) in
    let entry = entry_of field ftype ascii_flag g lss in
    let len = length-entry field ftype ascii_flag g lss named in
    let (size, at_slot, others) =
      stored_slots d linked base tracks off (g ∷ grans) payload field entry view out len in
    let first : get_or (slice (store linked base (g ∷ grans) payload off entry) off entry_size) 13 0
        ≡ g =
      ap (λ s. get_or s 13 0) at_slot ∙ entry_first field ftype ascii_flag g lss named in
    rw (first) (
      chain-store linked base tracks g grans payload off entry
        (IsView-SameOffTable d linked base tracks out.same view) out.below out.asc out.slot len _
        out.chain)

module _ (d : Image) (name payload : List ℕ) (ftype ascii_flag : ℕ) (rewrite : Bool)
    (base tracks : ℕ) {e : Image} (well : IsWell d base tracks)
    (r : Run d name payload ftype ascii_flag rewrite base tracks e) where
  stored : Outcome d base tracks payload r.field r.off r.linked r.grans
  stored = run_outcome d name payload ftype ascii_flag rewrite base tracks well.view well.bytes r

  -- The chain that is cleared is not one of another slot.
  cleared_links :
      (o : ℕ) (grans : List ℕ) (t : ℕ)
      → IsLive d base o
      → o ≢ r.off
      → ChainAt d base tracks o grans t
      → All (λ g. table r.cleared (gat_offset base) g ≡ table d (gat_offset base) g) grans
  cleared_links o grans t alive ne c = elim (Bool-cases (live (d.byte r.off))) [
    | inr dead ↦
        let is = clear_slot-dead d r.off (num_granules tracks) base dead r.clearing in
        All-map (λ g _. ap (λ x. table x (gat_offset base) g) (sym is)) grans
          (IsChain-below (table d (gat_offset base)) (num_granules tracks) grans t
            (ChainAt-IsChain d base tracks o grans t c))
    | inl there ↦
        let old : IsLive d base r.off = (stored.slot, there) in
        let (gs, u, k, small) = well.ends r.off old in
        let fits = slot_fits d base tracks well.view r.off stored.slot in
        let first = get_or-slice d r.off entry_size 13 fits (omega arith) in
        let freed =
          free_chain_exact d base tracks (d.byte (r.off + 13)) gs u well.bytes (rw first at k) (
            clear_slot-live d r.off (num_granules tracks) base (omega (arith, fits)) there
              r.clearing) in
        All-map
          (λ g apart. freed.others (gat_offset base + g) (All-map (λ x h. omega arith) gs apart))
          grans (well.apart o r.off grans t gs u alive old ne c k)
  ]

  cleared_used :
      (o : ℕ) (grans : List ℕ) (t : ℕ)
      → IsLive d base o
      → o ≢ r.off
      → ChainAt d base tracks o grans t
      → All
          (λ g.
            (g < num_granules tracks)
            × (table r.cleared (gat_offset base) g ≡ table d (gat_offset base) g)
            × (table r.cleared (gat_offset base) g ≢ free))
          grans
  cleared_used o grans t alive ne c =
      let chain = ChainAt-IsChain d base tracks o grans t c in
      let total = num_granules tracks in
      let (gs, u, k, small) = well.ends o alive in
      let is : u ≡ t = same_end d base tracks o gs u grans t k c in
      let ended : t ≢ free = omega (arith, small, is) in
      all grans (IsChain-below (table d (gat_offset base)) total grans t chain)
        (cleared_links o grans t alive ne c)
        (IsChain-used (table d (gat_offset base)) total grans t ended chain)
    where
      all :
          (gs : List ℕ)
          → All (λ g. g < num_granules tracks) gs
          → All (λ g. table r.cleared (gat_offset base) g ≡ table d (gat_offset base) g) gs
          → All (λ g. table d (gat_offset base) g ≢ free) gs
          → All
              (λ g.
                (g < num_granules tracks)
                × (table r.cleared (gat_offset base) g ≡ table d (gat_offset base) g)
                × (table r.cleared (gat_offset base) g ≢ free))
              gs
      all [] a b c = tt
      all (g ∷ gs) a b c = ((a.0, b.0, λ x. c.0 (sym b.0 ∙ x)), all gs a.1 b.1 c.1)

  pub write-Edit : Edit d e base tracks r.off
  write-Edit =
      let kept =
        kept_granule d name payload ftype ascii_flag rewrite base tracks well.view well.bytes r in
      record {
        slot = stored.slot;
        entries =
            (slot_edit d name payload ftype ascii_flag rewrite base tracks well.view well.bytes
              r).0;
        links = λ o grans t alive ne c.
            All-map (λ g u. (kept g u.0 u.2).0 ∙ u.1) grans (cleared_used o grans t alive ne c);
        granules = λ o grans t alive ne c.
            All-map (λ g u. (kept g u.0 u.2).1) grans (cleared_used o grans t alive ne c);
      }

  pub head_stored : slice e r.off 11 ≡ r.field
  head_stored =
      (slot_edit d name payload ftype ascii_flag rewrite base tracks well.view well.bytes r).1

  -- No other slot holds the name.
  fresh_name : (o : ℕ) → IsLive d base o → o ≢ r.off → slice e r.off 11 ≢ slice d o 11
  fresh_name o alive ne is =
      let named : slice d o 11 ≡ r.field = sym is ∙ head_stored in
      let found : hit d r.field o ≡ true = rw (alive.1, named, list_eq_refl r.field) in
      elim (Bool-cases (hit d r.field r.off)) [
        | inl held ↦
            well.names o r.off alive (stored.slot, ground arith) ne
              (named ∙ sym (list_eq→eq (slice d r.off 11) r.field (ground arith)))
        | inr miss ↦
            let nowhere =
              dir_slots-at (λ x. hit d r.field x ≡ false) base o
                (find_slot_misses d r.field rewrite (dir_slots base) none
                  (find_dir_entry-slots d r.field rewrite base r.slot) miss)
                alive.0 in
            cc (found, nowhere)
      ]

  -- The slot held the name, or no live entry.
  pub miss_before : (field : List ℕ) → r.field ≢ field → hit d field r.off ≡ false
  miss_before field ne = elim (Bool-cases (hit d r.field r.off)) [
    | inl held ↦
        hit-slot d field r.field r.off (list_eq→eq (slice d r.off 11) r.field (ground arith)) ne
    | inr miss ↦
        let misses =
          find_slot_misses d r.field rewrite (dir_slots base) none
            (find_dir_entry-slots d r.field rewrite base r.slot) miss in
        let dead =
          find_slot_dead d r.field rewrite (dir_slots base) none
            (find_entry_slots d r.field base
              (find_entry-none d r.field base tracks well.view misses))
            (find_dir_entry-slots d r.field rewrite base r.slot) (λ x h. absurd (cc h)) in
        rw dead
  ]

  pub write-Settled : Settled d e base tracks r.off
  write-Settled =
      let lss = last_sector_bytes (length payload) in
      let first = get_or r.grans 0 0 in
      let entry = entry_of r.field ftype ascii_flag first lss in
      let named = length-encode_name name r.named in
      let len = length-entry r.field ftype ascii_flag first lss named in
      let form : e ≡ store r.linked base r.grans payload r.off entry =
        r.result ∙ ap (λ n. splice (lay r.linked base r.grans payload) r.off n entry) (sym len) in
      let chain =
        chain_stored d r.linked base tracks r.off r.grans payload r.field ftype ascii_flag well.view
          stored named in
      inr (
        r.grans,
        0xC0 + (allocation (length payload)).1 % 64,
        subst
            (λ x. ChainAt x base tracks r.off r.grans (0xC0 + (allocation (length payload)).1 % 64))
            (sym form) chain,
        omega (arith, stored.covers.last_small),
        fresh_name,
        λ o grans t alive ne c.
            All-map
              (λ g u.
                used_apart (table r.cleared (gat_offset base)) (num_granules tracks) g r.grans u.2 (
                  chosen-IsFree d name payload ftype ascii_flag rewrite base tracks well.view
                    well.bytes r))
              grans (cleared_used o grans t alive ne c),
      )
