-- ===== src/DiskFile/Others.antt =====
-- A new file leaves the other files of its drive as they were.
use mathlib.Core.Path.{subst}
use xroar_dev.Base.{
  ℕ, ◌<◌, ◌≡◌, sym, ◌∙◌, ◌≢◌, Bool, false, Option, none, some, List, [], ◌∷◌, arith, All,
}
use xroar_dev.Error.{ok, Result, ok-injective}
use xroar_dev.Image.{Image, get, IsBytes, slice}
use xroar_dev.Geometry.{granule, free, granule_offset, gat_offset, num_granules}
use xroar_dev.Directory.{live, dir_slots, find_entry}
use xroar_dev.DiskFile.{clear_slot, read_file, write_file}
use xroar_dev.Gat.Chain.{table}
use xroar_dev.View.{IsView}
use xroar_dev.Directory.Fresh.{find_slot_dead}
use xroar_dev.Directory.Search.{find_entry_slots, find_dir_entry-slots, hit-slot}
use xroar_dev.DiskFile.Kept.{IsChain-used, kept_granule, slot_edit}
use xroar_dev.DiskFile.Write.{Run, write_file-Run}
use xroar_dev.Names.{encode_name}
use xroar_dev.DiskFile.Frame.{read_file-SlotEdit}
use xroar_dev.DiskFile.Same.{FileAt, FileAt-IsChain, FileAt-below}

pub clear_slot-dead :
    (d : Image) (off total base : ℕ) {e : Image}
    → live (d.byte off) ≡ false
    → clear_slot d off total base ≡ ok e
    → d ≡ e
unfolding clear_slot get
clear_slot-dead d off total base dead h = ground arith

slot_dead :
    (d : Image) (name payload : List ℕ) (ftype ascii_flag : ℕ) (rewrite : Bool) (base tracks : ℕ)
    {e : Image}
    → (r : Run d name payload ftype ascii_flag rewrite base tracks e)
    → find_entry d r.field base ≡ ok none
    → live (d.byte r.off) ≡ false
slot_dead d name payload ftype ascii_flag rewrite base tracks r absent =
    find_slot_dead d r.field rewrite (dir_slots base) none (find_entry_slots d r.field base absent)
      (find_dir_entry-slots d r.field rewrite base r.slot) (λ x h. absurd (cc h))

-- A write of a new name leaves what every other file reads as, on a drive of 18 to 97 tracks in an
-- image of bytes, for a file whose chain does not end in the mark of a free granule.
pub read_file-write_file_other :
    (d : Image) (name field payload : List ℕ) (ftype ascii_flag : ℕ) (rewrite : Bool)
    (base tracks : ℕ) (other field' : List ℕ) (off' : ℕ) (grans' : List ℕ) (t' : ℕ) {e : Image}
    → IsView d base tracks
    → IsBytes d
    → encode_name name ≡ ok field
    → find_entry d field base ≡ ok none
    → encode_name other ≡ ok field'
    → FileAt d base tracks field' off' grans' t'
    → t' ≢ free
    → write_file d name payload ftype ascii_flag rewrite base tracks ≡ ok e
    → read_file e other base tracks ≡ read_file d other base tracks
read_file-write_file_other d name field payload ftype ascii_flag rewrite base tracks other field'
      off' grans' t' {e} view bytes named absent named' f ended h =
    let r = write_file-Run d name payload ftype ascii_flag rewrite base tracks h in
    let is : field ≡ r.field = ok-injective (sym named ∙ r.named) in
    let absent' = subst (λ x. find_entry d x base ≡ ok none) is absent in
    let ne : r.field ≢ field' =
      λ same. both (subst (λ x. find_entry d x base ≡ ok none) same absent') f.found in
    let dead = slot_dead d name payload ftype ascii_flag rewrite base tracks r absent' in
    let same = clear_slot-dead d r.off (num_granules tracks) base dead r.clearing in
    let kept =
      subst
        (λ x.
          (g : ℕ)
          → g < num_granules tracks
          → table x (gat_offset base) g ≢ free
          → (table e (gat_offset base) g ≡ table x (gat_offset base) g)
            × (slice e (granule_offset g base) granule ≡ slice d (granule_offset g base) granule))
        (sym same)
        (kept_granule d name payload ftype ascii_flag rewrite base tracks view bytes r) in
    let (se, head) = slot_edit d name payload ftype ascii_flag rewrite base tracks view bytes r in
    let used =
      IsChain-used (table d (gat_offset base)) (num_granules tracks) grans' t' ended
        (FileAt-IsChain f).0 in
    let all = each grans' kept (FileAt-below f) used in
    read_file-SlotEdit d e base tracks r.off view se other field' off' grans' t' named' f (rw dead)
      (hit-slot e field' r.field r.off head ne) all.0 all.1
  where
    both : {o : Result (Option ℕ)} → o ≡ ok none → o ≡ ok (some off') → ⊥
    both x y = cc (x, y)

    each :
        (gs : List ℕ)
        → ((g : ℕ)
            → g < num_granules tracks
            → table d (gat_offset base) g ≢ free
            → (table e (gat_offset base) g ≡ table d (gat_offset base) g)
              × (slice e (granule_offset g base) granule ≡ slice d (granule_offset g base) granule))
        → All (λ g. g < num_granules tracks) gs
        → All (λ g. table d (gat_offset base) g ≢ free) gs
        → All (λ g. table e (gat_offset base) g ≡ table d (gat_offset base) g) gs
          × All
              (λ g.
                slice e (granule_offset g base) granule ≡ slice d (granule_offset g base) granule)
              gs
    each [] k a b = (tt, tt)
    each (g ∷ gs) k a b =
        let (p, q) = k g a.0 b.0 in let (ps, qs) = each gs k a.1 b.1 in ((p, ps), (q, qs))
