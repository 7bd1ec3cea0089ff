-- ===== src/Gat/Nodup.antt =====
-- A chain visits no granule twice, and the same walk goes through any table that agrees on it.
use mathlib.Core.Path.{subst}
use xroar_dev.Base.{
  ℕ, zero, suc, ◌+◌, ◌≤◌, ◌<◌, ◌≡◌, refl, sym, ap, ◌∙◌, ◌≢◌, inl, inr, List, [], ◌∷◌, arith, length,
  All, All-map,
}
use xroar_dev.Error.{ok}
use xroar_dev.Image.{Image, get}
use xroar_dev.Gat.{walk}
use xroar_dev.Gat.Chain.{IsChain, table, walk_step}

-- Chains from one granule have one length.
chain_length_unique :
    (f : ℕ → ℕ) (total g : ℕ) (xs ys : List ℕ) (t u : ℕ)
    → IsChain f total (g ∷ xs) t
    → IsChain f total (g ∷ ys) u
    → length xs ≡ length ys
chain_length_unique f total g [] [] t u a b = refl
chain_length_unique f total g [] (y ∷ ys) t u a b = absurd (omega (arith, a.1, a.2, b.1, b.2))
chain_length_unique f total g (x ∷ xs) [] t u a b = absurd (omega (arith, a.1, a.2, b.1, b.2))
chain_length_unique f total g (x ∷ xs) (y ∷ ys) t u a b =
    let same : y ≡ x = sym b.1 ∙ a.1 in
    ap suc (
      chain_length_unique f total x xs ys t u a.3
        (subst (λ z. IsChain f total (z ∷ ys) u) same b.3))

-- From each later granule the rest of the chain is a shorter chain.
later_chains :
    (f : ℕ → ℕ) (total g : ℕ) (grans : List ℕ) (t n : ℕ)
    → IsChain f total (g ∷ grans) t
    → length grans ≤ n
    → All (λ h. (ys : List ℕ) × IsChain f total (h ∷ ys) t × (length ys < n)) grans
later_chains f total g [] t n h le = tt
later_chains f total g (x ∷ grans) t n h le =
    ((grans, h.3, omega arith), later_chains f total x grans t n h.3 (omega arith))

-- The first granule of a chain does not come again.
pub chain_first_once :
    (f : ℕ → ℕ) (total g : ℕ) (grans : List ℕ) (t : ℕ)
    → IsChain f total (g ∷ grans) t
    → All (λ h. h ≢ g) grans
chain_first_once f total g grans t h =
    All-map
      (λ x p. λ is.
        let again : IsChain f total (g ∷ p.0) t = subst (λ z. IsChain f total (z ∷ p.0) t) is p.1 in
        omega (arith, chain_length_unique f total g grans p.0 t t h again, p.2))
      grans (later_chains f total g grans t (length grans) h (omega arith))

-- A chain in another table that agrees on its granules.
pub IsChain-ext_on :
    (f f' : ℕ → ℕ) (total : ℕ) (grans : List ℕ) (t : ℕ)
    → All (λ g. f' g ≡ f g) grans
    → IsChain f total grans t
    → IsChain f' total grans t
IsChain-ext_on f f' total [] t same h = h
IsChain-ext_on f f' total (g ∷ []) t same h = (h.0, same.0 ∙ h.1, h.2)
IsChain-ext_on f f' total (g ∷ x ∷ grans) t same h =
    (h.0, same.0 ∙ h.1, h.2, IsChain-ext_on f f' total (x ∷ grans) t same.1 h.3)

walk_last :
    (d : Image) (gat total fuel count g t : ℕ)
    → g < total
    → count ≤ total
    → gat + g < d.size
    → table d gat g ≡ t
    → 0xC0 ≤ t
    → walk d gat total (suc fuel) count g ≡ ok (g ∷ [], t)
unfolding walk get
walk_last d gat total fuel count g t lt few inside e end = ground arith

walk_link :
    (d : Image) (gat total fuel count g h : ℕ) {grans : List ℕ} {t : ℕ}
    → g < total
    → count ≤ total
    → gat + g < d.size
    → table d gat g ≡ h
    → h < 0xC0
    → walk d gat total fuel (count + 1) h ≡ ok (grans, t)
    → walk d gat total (suc fuel) count g ≡ ok (g ∷ grans, t)
unfolding walk get
walk_link d gat total fuel count g h lt few inside e small rest = ground arith

-- The walk depends only on the table bytes of the granules that it returns.
pub walk_same :
    (d e : Image) (gat total fuel count g : ℕ) (grans : List ℕ) (t : ℕ)
    → e.size ≡ d.size
    → walk d gat total fuel count g ≡ ok (grans, t)
    → All (λ x. table e gat x ≡ table d gat x) grans
    → walk e gat total fuel count g ≡ ok (grans, t)
walk_same d e gat total zero count g grans t size h same = unfold walk in cc h
walk_same d e gat total (suc fuel) count g grans t size h same =
    let (lt, few, inside, c) = walk_step d gat total fuel count g grans t h in
    let inside' : gat + g < e.size = omega arith in
    elim c [
      | inl (end, is, is2) ↦
          let here = (subst (All (λ x. table e gat x ≡ table d gat x)) is same).0 in
          rw is (walk_last e gat total fuel count g t lt few inside' (here ∙ sym is2) (omega arith))
      | inr (gs, small, rest, is) ↦
          let both = subst (All (λ x. table e gat x ≡ table d gat x)) is same in
          rw is (
            walk_link e gat total fuel count g (table d gat g) lt few inside' both.0 small
              (walk_same d e gat total fuel (count + 1) (table d gat g) gs t size rest both.1))
    ]

-- A walk returns at most one granule more than the disk has.
pub walk-length :
    (d : Image) (gat total fuel count g : ℕ) (grans : List ℕ) (t : ℕ)
    → walk d gat total fuel count g ≡ ok (grans, t)
    → count + length grans ≤ total + 1
walk-length d gat total zero count g grans t h = unfold walk in cc h
walk-length d gat total (suc fuel) count g grans t h =
    let (lt, few, inside, c) = walk_step d gat total fuel count g grans t h in
    elim c [
      | inl (end, is, is2) ↦ omega (arith, ap length is)
      | inr (gs, small, rest, is) ↦
          omega (
            arith,
            ap length is,
            walk-length d gat total fuel (count + 1) (table d gat g) gs t rest,
          )
    ]
