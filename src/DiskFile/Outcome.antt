-- ===== src/DiskFile/Outcome.antt =====
-- What a successful `write_file` leaves: a chain of free granules, linked and laid, and an entry.
use mathlib.Core.Path.{subst}
use xroar_dev.Base.{
  ℕ, ◌+◌, ◌%◌, ◌≤◌, ◌<◌, ◌≡◌, sym, ◌∙◌, ◌≢◌, ◌⊎◌, inl, inr, Bool, none, List, [], ◌∷◌, arith,
  length, All, All-map,
}
use xroar_dev.Error.{ok, ok-injective}
use xroar_dev.Image.{Image, IsBytes, slice}
use xroar_dev.Geometry.{gat_offset, num_granules}
use xroar_dev.Directory.{dir_slots}
use xroar_dev.View.{IsView, gat_fits}
use xroar_dev.DiskFile.{allocation}
use xroar_dev.Gat.{link_chain}
use xroar_dev.Directory.Search.{find_slot_All, find_dir_entry-slots}
use xroar_dev.Directory.Slots.{IsSlot, dir_slots_lem}
use xroar_dev.DiskFile.Write.{Run, clear_slot-Released}
use xroar_dev.DiskFile.Allocation.{Covers, allocation-Covers}
use xroar_dev.Gat.Chain.{IsChain, table}
use xroar_dev.Gat.Free.{IsAscending, find_free_granules_lem}
use xroar_dev.Gat.Release.{Released}
use xroar_dev.Gat.Link.{Linked, link_chain_lem}
use xroar_dev.Image.Slices.{slice_ext}

-- Two images of one size that differ at most in the table's sector.
pub record SameOffTable (d e : Image) (base : ℕ) : Type 0 where
  pub size : e.size ≡ d.size
  pub byte : (k : ℕ) → (k < gat_offset base) ⊎ (gat_offset base + 256 ≤ k) → e.byte k ≡ d.byte k

pub IsView-SameOffTable :
    (d e : Image) (base tracks : ℕ)
    → SameOffTable d e base
    → IsView d base tracks
    → IsView e base tracks
IsView-SameOffTable d e base tracks same view = record {
  fits = rw same.size view.fits;
  has_directory = view.has_directory;
  links = view.links;
}

pub slice-SameOffTable :
    (d e : Image) (base at n : ℕ)
    → SameOffTable d e base
    → (at + n ≤ gat_offset base) ⊎ (gat_offset base + 256 ≤ at)
    → slice e at n ≡ slice d at n
slice-SameOffTable d e base at n same (inl h) =
    slice_ext e d at n same.size (λ k a b. same.byte k (inl (omega arith)))
slice-SameOffTable d e base at n same (inr h) =
    slice_ext e d at n same.size (λ k a b. same.byte k (inr (omega arith)))

-- The chain that was written, and where.
pub record Outcome (d : Image) (base tracks : ℕ) (payload field : List ℕ) (off : ℕ) (linked : Image)
    (grans : List ℕ) : Type 0 where
  pub slot : IsSlot base off
  pub same : SameOffTable d linked base
  pub covers : Covers (length payload) (length grans) (allocation (length payload)).1
  pub below : All (λ g. g < num_granules tracks) grans
  pub asc : IsAscending grans
  pub chain :
      IsChain
        (table linked (gat_offset base))
        (num_granules tracks)
        grans
        (0xC0 + (allocation (length payload)).1 % 64)

-- Linking a list of at least one granule.
pub Linked-IsChain :
    (d e : Image) (base tracks : ℕ) (grans : List ℕ) (last : ℕ)
    → IsView d base tracks
    → 0 < length grans
    → All (λ g. g < num_granules tracks) grans
    → IsAscending grans
    → link_chain d (gat_offset base) grans last ≡ ok e
    → Linked d e (gat_offset base) grans
      × IsChain (table e (gat_offset base)) (num_granules tracks) grans (0xC0 + last % 64)
Linked-IsChain d e base tracks [] last view pos below asc h = absurd (omega arith)
Linked-IsChain d e base tracks (g ∷ grans) last view pos below asc h =
    let (e', r, same, chain) =
      link_chain_lem d (gat_offset base) (num_granules tracks) g grans last
        (omega (arith, gat_fits d base tracks view, view.links)) view.links below asc in
    let is : e' ≡ e = ok-injective (sym r ∙ h) in
    subst
      (λ x.
        Linked d x (gat_offset base) (g ∷ grans)
        × IsChain (table x (gat_offset base)) (num_granules tracks) (g ∷ grans) (0xC0 + last % 64))
      is (same, chain)

pub Released-SameOffTable :
    (d e : Image) (base : ℕ) → Released d e (gat_offset base) → SameOffTable d e base
Released-SameOffTable d e base r = record { size = r.size; byte = r.outside }

Linked-SameOffTable :
    (d e : Image) (base tracks : ℕ) (grans : List ℕ)
    → num_granules tracks ≤ 0xC0
    → All (λ g. g < num_granules tracks) grans
    → Linked d e (gat_offset base) grans
    → SameOffTable d e base
Linked-SameOffTable d e base tracks grans links below l = record {
  size = l.size;
  byte = λ k h. l.others k (All-map (λ g lt. outside_ne k g h lt) grans below);
}
  where
    outside_ne :
        (k g : ℕ)
        → (k < gat_offset base) ⊎ (gat_offset base + 256 ≤ k)
        → g < num_granules tracks
        → k ≢ gat_offset base + g
    outside_ne k g (inl h) lt = omega arith
    outside_ne k g (inr h) lt = omega arith

pub SameOffTable-trans :
    (d e f : Image) (base : ℕ)
    → SameOffTable d e base
    → SameOffTable e f base
    → SameOffTable d f base
SameOffTable-trans d e f base a b = record {
  size = b.size ∙ a.size;
  byte = λ k h. b.byte k h ∙ a.byte k h;
}

pub Run-Outcome :
    (d : Image) (name payload : List ℕ) (ftype ascii_flag : ℕ) (rewrite : Bool) (base tracks : ℕ)
    {e : Image}
    → IsView d base tracks
    → IsBytes d
    → (r : Run d name payload ftype ascii_flag rewrite base tracks e)
    → Outcome d base tracks payload r.field r.off r.linked r.grans
Run-Outcome d name payload ftype ascii_flag rewrite base tracks view bytes r =
    let total = num_granules tracks in
    let cover = allocation-Covers (length payload) in
    let freed =
      Released-SameOffTable d r.cleared base
        (clear_slot-Released d r.off total base bytes r.clearing) in
    let view1 = IsView-SameOffTable d r.cleared base tracks freed view in
    let (len, frees, asc) =
      find_free_granules_lem r.cleared (allocation (length payload)).0 total base r.choice in
    let below : All (λ g. g < total) r.grans = All-map (λ g p. p.1) r.grans frees in
    let (l, chain) =
      Linked-IsChain r.cleared r.linked base tracks r.grans (allocation (length payload)).1 view1
        (omega (arith, len, cover.some_granule)) below asc r.linking in
    record {
      slot =
          find_slot_All (IsSlot base) d r.field rewrite (dir_slots base) none
            (find_dir_entry-slots d r.field rewrite base r.slot) (dir_slots_lem base)
            (λ o h. absurd (cc h));
      same =
          SameOffTable-trans d r.cleared r.linked base freed
            (Linked-SameOffTable r.cleared r.linked base tracks r.grans view.links below l);
      covers = rw len cover;
      below = below;
      asc = asc;
      chain = chain;
    }
