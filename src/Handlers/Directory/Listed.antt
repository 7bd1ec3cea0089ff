-- ===== src/Handlers/Directory/Listed.antt =====
-- What `dir` shows of a file is what the allocation table says of it.
use xroar_dev.Base.{
  ℕ, zero, suc, ◌+◌, ◌≤◌, ◌<◌, ◌≡◌, ap, ◌∙◌, ◌≢◌, inl, inr, Bool, false, some, List, [], ◌∷◌, arith,
  leb, ◌==◌, Bool-cases, length, get_or,
}
use xroar_dev.Error.{out_of_fuel, err, ok}
use xroar_dev.Image.{Image, get, slice}
use xroar_dev.Handlers.Directory.{shown_file, count_granules, shown_entry}
use xroar_dev.Drive.{IsLive, ChainAt, IsWell}
use xroar_dev.Geometry.{entry_size, free, deleted, gat_offset, num_granules}
use xroar_dev.View.{IsView, gat_fits, slot_fits}
use xroar_dev.Gat.{chain_granules}
use xroar_dev.DiskFile.Entry.{take-slice}
use xroar_dev.Gat.Chain.{IsChain, table, walk_sound}
use xroar_dev.Gat.Nodup.{walk-length}
use xroar_dev.Image.Slices.{get_ok, get_or-slice}

count_granules_chain :
    (d : Image) (gat total fuel g gran_size : ℕ) (grans : List ℕ) (t : ℕ)
    → gat + total ≤ d.size
    → length grans < fuel
    → gran_size + length grans ≤ total + 1
    → IsChain (table d gat) total (g ∷ grans) t
    → count_granules d gat total fuel g gran_size ≡ ok (gran_size + length grans)
unfolding count_granules
count_granules_chain d gat total zero g n grans t fits enough few h = absurd (omega arith)
count_granules_chain d gat total (suc fuel) g n [] t fits enough few h =
    let e : get d (gat + g) ≡ ok (d.byte (gat + g)) = get_ok d (gat + g) (omega arith) in
    ground arith
count_granules_chain d gat total (suc fuel) g n (x ∷ grans) t fits enough few h =
    let e : get d (gat + g) ≡ ok x = get_ok d (gat + g) (omega (arith, h.0, fits)) ∙ ap ok h.1 in
    let ih =
      count_granules_chain d gat total fuel x (n + 1) grans t fits (omega arith) (omega arith)
        h.3 in
    ground (arith, h.0, h.2, ih)

-- The count ends on any table.
pub count_granules_terminates :
    (d : Image) (gat total fuel g gran_size : ℕ)
    → total + 2 ≤ fuel + gran_size
    → gran_size ≤ total + 1
    → count_granules d gat total fuel g gran_size ≢ err out_of_fuel
unfolding count_granules get
count_granules_terminates d gat total zero g n h k = absurd (omega arith)
count_granules_terminates d gat total (suc fuel) g n h k = elim (Bool-cases (leb n total)) [
  | inl more ↦ ground (
    arith,
    count_granules_terminates d gat total fuel (d.byte (gat + g)) (n + 1) (omega arith)
        (ground arith),
  )
  | inr last ↦ ground arith
]

-- The granules that `dir` counts are those of the chain.
pub count_granules-ChainAt :
    (d : Image) (base tracks off : ℕ) (grans : List ℕ) (t : ℕ)
    → IsView d base tracks
    → ChainAt d base tracks off grans t
    → count_granules d
        (gat_offset base)
        (num_granules tracks)
        (num_granules tracks + 1)
        (get_or (slice d off entry_size) 13 0)
        1
      ≡ ok (length grans)
unfolding chain_granules
count_granules-ChainAt d base tracks off grans t view c =
    let total = num_granules tracks in
    let first = get_or (slice d off entry_size) 13 0 in
    go grans (walk_sound d (gat_offset base) total (total + 2) 0 first grans t c)
      (walk-length d (gat_offset base) total (total + 2) 0 first grans t c)
  where
    go :
        (gs : List ℕ)
        → IsChain (table d (gat_offset base)) (num_granules tracks) gs t
          × (get_or gs 0 0 ≡ get_or (slice d off entry_size) 13 0)
        → 0 + length gs ≤ num_granules tracks + 1
        → count_granules d
            (gat_offset base)
            (num_granules tracks)
            (num_granules tracks + 1)
            (get_or (slice d off entry_size) 13 0)
            1
          ≡ ok (length gs)
    go [] (h, _) few = absurd h
    go (g ∷ gs) (h, is) few =
        let counted =
          count_granules_chain d (gat_offset base) (num_granules tracks) (num_granules tracks + 1) g
            1 gs t (omega (arith, gat_fits d base tracks view, view.links)) (omega arith)
            (omega arith) h in
        let e : 1 + length gs ≡ length (g ∷ gs) = omega arith in rw (← is) (counted ∙ ap ok e)

-- On a well-formed drive, `dir` shows a live entry with its name, its type, its flag and the number
-- of granules of its chain, whether deleted entries are shown or not.
pub shown_entry-IsWell :
    (d : Image) (base tracks off : ℕ) (show_deleted : Bool)
    → IsWell d base tracks
    → IsLive d base off
    → (grans : List ℕ) × (t : ℕ) × ChainAt d base tracks off grans t
      × (shown_entry d (gat_offset base) base show_deleted (num_granules tracks) off
          ≡ ok (
              some (
                shown_file
                  (slice d off 11)
                  (d.byte (off + 11))
                  (d.byte (off + 12))
                  (length grans))))
unfolding shown_entry
shown_entry-IsWell d base tracks off show_deleted well alive =
    let (grans, t, c, small) = well.ends off alive in
    let fits = slot_fits d base tracks well.view off alive.0 in
    let read : get d off ≡ ok (d.byte off) = get_ok d off (omega (arith, fits)) in
    let not_free : (d.byte off == free) ≡ false = let a = alive.1 in ground arith in
    let not_deleted : (d.byte off == deleted) ≡ false = let a = alive.1 in ground arith in
    let count = count_granules-ChainAt d base tracks off grans t well.view c in
    let kind = get_or-slice d off entry_size 11 fits (omega arith) in
    let flag = get_or-slice d off entry_size 12 fits (omega arith) in
    let head = take-slice d off 11 32 (omega arith) fits in
    (grans, t, c, rw (read, not_free, not_deleted, count, kind, flag, head))
