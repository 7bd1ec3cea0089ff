-- ===== src/Gat/Free.antt =====
-- The granules that `find_free_granules` offers: free, in range, ascending.
use xroar_dev.Base.{
  ℕ, zero, suc, ◌+◌, ◌≤◌, ◌<◌, ◌≡◌, refl, ◌∙◌, inl, inr, List, [], ◌∷◌, arith, ltb, ◌==◌,
  if◌then◌else◌, ==_iff, Bool-cases, length, take, length-take, All, All-map, All-take,
}
use xroar_dev.Error.{ok, bind-eq-ok, ok-injective}
use xroar_dev.Image.{Image, get}
use xroar_dev.Geometry.{free, gat_offset}
use xroar_dev.Gat.{free_list, find_free_granules}
use xroar_dev.Gat.Chain.{table}
use xroar_dev.Image.Slices.{get-eq-ok}

-- In strictly ascending order.
abbrev pub IsAscending : List ℕ → Type 0
IsAscending [] = Unit
IsAscending (g ∷ grans) = All (λ h. g < h) grans × IsAscending grans

-- A granule that the table `f` marks free, from `lo` up to `hi`.
abbrev pub IsFree : (ℕ → ℕ) → ℕ → ℕ → ℕ → Type 0
IsFree f lo hi g = (lo ≤ g) × (g < hi) × (f g ≡ free)

pub IsAscending-take : (n : ℕ) (grans : List ℕ) → IsAscending grans → IsAscending (take n grans)
IsAscending-take zero grans h = tt
IsAscending-take (suc n) [] h = tt
IsAscending-take (suc n) (g ∷ grans) h = (All-take _ n grans h.0, IsAscending-take n grans h.1)

free_step :
    (f : ℕ → ℕ) (g n b : ℕ) (rest : List ℕ)
    → f g ≡ b
    → All (IsFree f (g + 1) (g + 1 + n)) rest
    → IsAscending rest
    → let grans = (if b == free then g ∷ rest else rest) in
      All (IsFree f g (g + suc n)) grans × IsAscending grans
free_step f g n b rest e all asc = elim (Bool-cases (b == free)) [
  | inl is_free ↦ rw is_free (
    ((omega arith, omega arith, e ∙ (==_iff b free).0 is_free), all'),
    (All-map (λ x p. omega arith) rest all, asc),
  )
  | inr taken ↦ rw taken (all', asc)
]
  where
    all' : All (IsFree f g (g + suc n)) rest
    all' = All-map (λ x p. (omega arith, omega arith, p.2)) rest all

pub free_list_lem :
    (d : Image) (gat n g : ℕ) {grans : List ℕ}
    → free_list d gat n g ≡ ok grans
    → All (IsFree (table d gat) g (g + n)) grans × IsAscending grans
unfolding free_list
free_list_lem d gat zero g h = rw (← ok-injective h) (tt, tt)
free_list_lem d gat (suc n) g h =
    let (b, read, h2) = bind-eq-ok (get d (gat + g)) _ h in
    let (rest, r, h3) = bind-eq-ok (free_list d gat n (g + 1)) _ h2 in
    let (all, asc) = free_list_lem d gat n (g + 1) r in
    rw (← ok-injective h3)
      (free_step (table d gat) g n b rest (get-eq-ok d (gat + g) read).1 all asc)

-- In range, the listing cannot fail.
pub free_list_total :
    (d : Image) (gat n g : ℕ)
    → gat + g + n ≤ d.size
    → (grans : List ℕ) × (free_list d gat n g ≡ ok grans)
unfolding free_list get
free_list_total d gat zero g h = ([], refl)
free_list_total d gat (suc n) g h =
    let (rest, r) = free_list_total d gat n (g + 1) (omega arith) in
    ((if table d gat g == free then g ∷ rest else rest), ground arith)

-- Exactly `count` granules are chosen, all free, in ascending order, or the disk is full.
pub find_free_granules_lem :
    (d : Image) (count total_grans base : ℕ) {grans : List ℕ}
    → find_free_granules d count total_grans base ≡ ok grans
    → (length grans ≡ count)
      × All (IsFree (table d (gat_offset base)) 0 total_grans) grans
      × IsAscending grans
unfolding find_free_granules
find_free_granules_lem d count total_grans base h =
    let (all, r, h2) = bind-eq-ok (free_list d (gat_offset base) total_grans 0) _ h in
    let (frees, asc) = free_list_lem d (gat_offset base) total_grans 0 r in
    let frees' : All (IsFree (table d (gat_offset base)) 0 total_grans) all =
      All-map (λ x p. (omega arith, omega arith, p.2)) all frees in
    elim (Bool-cases (ltb (length all) count)) [
      | inl full ↦ absurd (let h3 = rw full at h2 in cc)
      | inr enough ↦
          let h3 = rw enough at h2 in
          rw (← ok-injective h3) (
            ground (arith, length-take count all),
            All-take _ count all frees',
            IsAscending-take count all asc,
          )
    ]
