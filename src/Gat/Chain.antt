-- ===== src/Gat/Chain.antt =====
-- `chain_granules` against an independent description of a chain in the allocation table.
use xroar_dev.Base.{
  ℕ, zero, suc, ◌+◌, ◌≤◌, ◌<◌, ◌≡◌, refl, sym, ◌∙◌, ◌≢◌, ◌⊎◌, inl, inr, ◌||◌, List, [], ◌∷◌, arith,
  ltb, leb, Bool-cases, length, get_or,
}
use xroar_dev.Error.{out_of_fuel, ok, err, Result, bind-eq-ok, ◌>>=◌}
use xroar_dev.Image.{Image, get}
use xroar_dev.Gat.{walk, chain_granules}
use xroar_dev.Image.Slices.{get_ok, get-eq-ok}
use xroar_dev.Geometry.{gat_offset}

-- In the table `f` the granules, each below `total`, are linked in this order, and the last one holds
-- the terminator `t`.
abbrev pub IsChain : (ℕ → ℕ) → ℕ → List ℕ → ℕ → Type 0
IsChain f total [] t = ⊥
IsChain f total (g ∷ []) t = (g < total) × (f g ≡ t) × (0xC0 ≤ t)
IsChain f total (g ∷ h ∷ grans) t =
    (g < total) × (f g ≡ h) × (h < 0xC0) × IsChain f total (h ∷ grans) t

-- The table of an image.
abbrev pub table : Image → ℕ → ℕ → ℕ
table d gat g = d.byte (gat + g)

pub IsChain-ext :
    (f f' : ℕ → ℕ) (total : ℕ) (grans : List ℕ) (t : ℕ)
    → ((g : ℕ) → g < total → f g ≡ f' g)
    → IsChain f total grans t
    → IsChain f' total grans t
IsChain-ext f f' total [] t same h = h
IsChain-ext f f' total (g ∷ []) t same h = (h.0, sym (same g h.0) ∙ h.1, h.2)
IsChain-ext f f' total (g ∷ x ∷ grans) t same h =
    (h.0, sym (same g h.0) ∙ h.1, h.2, IsChain-ext f f' total (x ∷ grans) t same h.3)

-- A chain is walked to its end, if the table lies in the image, the fuel exceeds the granules after
-- the first, and these and the granules collected before are `total` at most.
pub walk_complete :
    (d : Image) (gat total fuel count g : ℕ) (grans : List ℕ) (t : ℕ)
    → gat + total ≤ d.size
    → length grans < fuel
    → count + length grans ≤ total
    → IsChain (table d gat) total (g ∷ grans) t
    → walk d gat total fuel count g ≡ ok (g ∷ grans, t)
unfolding walk get
walk_complete d gat total zero count g grans t fits enough few h = absurd (omega arith)
walk_complete d gat total (suc fuel) count g [] t fits enough few h =
    let e : get d (gat + g) ≡ ok (d.byte (gat + g)) = get_ok d (gat + g) (omega arith) in
    ground arith
walk_complete d gat total (suc fuel) count g (x ∷ grans) t fits enough few h = ground (
  arith,
  walk_complete d gat total fuel (count + 1) x grans t fits (omega arith) (omega arith) h.3,
)

cons-eq-ok :
    (g : ℕ) (r : Result (List ℕ × ℕ)) {grans : List ℕ} {t : ℕ}
    → ◌>>=◌ {B = List ℕ × ℕ} r (λ p. ok (g ∷ p.0, p.1)) ≡ ok (grans, t)
    → (gs : List ℕ) × (r ≡ ok (gs, t)) × (grans ≡ g ∷ gs)
cons-eq-ok g (ok (gs, u)) h = (gs, cc, cc)
cons-eq-ok g (err e) h = cc

-- One round of a walk that comes to its end.
pub walk_step :
    (d : Image) (gat total fuel count g : ℕ) (grans : List ℕ) (t : ℕ)
    → walk d gat total (suc fuel) count g ≡ ok (grans, t)
    → (g < total)
      × (count ≤ total)
      × (gat + g < d.size)
      × ((0xC0 ≤ table d gat g) × (grans ≡ g ∷ []) × (t ≡ table d gat g)
          ⊎ (gs : List ℕ) × (table d gat g < 0xC0)
            × (walk d gat total fuel (count + 1) (table d gat g) ≡ ok (gs, t))
            × (grans ≡ g ∷ gs))
unfolding walk
walk_step d gat total fuel count g grans t h = elim (Bool-cases (leb total g || ltb total count)) [
  | inl bad ↦ absurd (let h' = rw bad at h in cc)
  | inr good ↦
      let h' = rw good at h in
      let (nxt, read, h2) = bind-eq-ok (get d (gat + g)) _ h' in
      let e : table d gat g ≡ nxt = (get-eq-ok d (gat + g) read).1 in
      elim (Bool-cases (leb 0xC0 nxt)) [
        | inl end ↦
            let h3 = rw end at h2 in
            (
              ground arith,
              ground arith,
              (get-eq-ok d (gat + g) read).0,
              inl (ground arith, cc, cc e),
            )
        | inr more ↦
            let h3 = rw more at h2 in
            let (gs, r, eq) = cons-eq-ok g (walk d gat total fuel (count + 1) nxt) h3 in
            (
              ground arith,
              ground arith,
              (get-eq-ok d (gat + g) read).0,
              inr (gs, ground arith, rw e r, eq),
            )
      ]
]

IsChain-cons :
    (d : Image) (gat total g : ℕ) (gs : List ℕ) (t : ℕ)
    → g < total
    → table d gat g < 0xC0
    → IsChain (table d gat) total gs t × (get_or gs 0 0 ≡ table d gat g)
    → IsChain (table d gat) total (g ∷ gs) t
IsChain-cons d gat total g [] t lt small c = absurd c.0
IsChain-cons d gat total g (x ∷ gs) t lt small c = (lt, sym c.1, rw c.1 small, c.0)

-- What a walk returns is a chain from its start to the terminator.
pub walk_sound :
    (d : Image) (gat total fuel count g : ℕ) (grans : List ℕ) (t : ℕ)
    → walk d gat total fuel count g ≡ ok (grans, t)
    → IsChain (table d gat) total grans t × (get_or grans 0 0 ≡ g)
walk_sound d gat total zero count g grans t h = unfold walk in cc h
walk_sound d gat total (suc fuel) count g grans t h =
    let (lt, few, inside, c) = walk_step d gat total fuel count g grans t h in
    elim c [
      | inl (end, e, e2) ↦ rw (e, e2) ((lt, refl, end), refl)
      | inr (gs, small, r, e) ↦ rw e (
        IsChain-cons d gat total g gs t lt small
            (walk_sound d gat total fuel (count + 1) (table d gat g) gs t r),
        refl,
      )
    ]

-- The fuel is enough, whatever the table holds.
pub walk_terminates :
    (d : Image) (gat total fuel count g : ℕ)
    → total + 2 ≤ fuel + count
    → count ≤ total + 1
    → walk d gat total fuel count g ≢ err out_of_fuel
unfolding walk get
walk_terminates d gat total zero count g h k = absurd (omega arith)
walk_terminates d gat total (suc fuel) count g h k =
    ground (arith, walk_terminates d gat total fuel (count + 1) (d.byte (gat + g)) (omega arith))

-- Walking a chain ends, also where the table holds a cycle or wild links: the fuel never runs out.
pub chain_granules_terminates :
    (d : Image) (first_gran total_grans base : ℕ)
    → chain_granules d first_gran total_grans base ≢ err out_of_fuel
unfolding chain_granules
chain_granules_terminates d first_gran total_grans base =
    walk_terminates d (gat_offset base) total_grans (total_grans + 2) 0 first_gran (omega arith)
      (omega arith)
