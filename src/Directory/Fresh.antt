-- ===== src/Directory/Fresh.antt =====
-- The slot for a name that the directory does not hold.
use mathlib.Core.Path.{subst}
use xroar_dev.Base.{
  ℕ, ◌≡◌, inl, inr, Bool, true, false, Option, none, some, List, [], ◌∷◌, arith, if◌then◌else◌,
  Bool-cases,
}
use xroar_dev.Error.{ok}
use xroar_dev.Image.{Image, get}
use xroar_dev.Directory.{live, find_in, or_else, find_slot_in}
use xroar_dev.Directory.Search.{find_slot_step, hit}

-- The slot that is remembered marks no live entry.
abbrev IsDead : Image → Option ℕ → Type 0
IsDead d first_free = (x : ℕ) → first_free ≡ some x → live (d.byte x) ≡ false

IsDead-step :
    (d : Image) (o : ℕ) (first_free : Option ℕ)
    → IsDead d first_free
    → IsDead d (if live (d.byte o) then first_free else or_else first_free o)
IsDead-step d o first_free dead x h = elim (Bool-cases (live (d.byte o))) [
  | inl alive ↦ dead x (rw alive at h)
  | inr gone ↦ go first_free dead gone (rw gone at h)
]
  where
    go :
        (f : Option ℕ)
        → IsDead d f
        → live (d.byte o) ≡ false
        → or_else f o ≡ some x
        → live (d.byte x) ≡ false
    go none k gone e = let is : o ≡ x = cc e in subst (λ y. live (d.byte y) ≡ false) is gone
    go (some y) k gone e = k x e

pub missed :
    (d : Image) (field : List ℕ) (o : ℕ) (offs : List ℕ)
    → find_in d field (o ∷ offs) ≡ ok none
    → (hit d field o ≡ false) × (find_in d field offs ≡ ok none)
unfolding find_in get
missed d field o offs h = (ground arith, ground arith)

pub find_slot_dead :
    (d : Image) (field : List ℕ) (rewrite : Bool) (offs : List ℕ) (first_free : Option ℕ) {off : ℕ}
    → find_in d field offs ≡ ok none
    → find_slot_in d field rewrite offs first_free ≡ ok off
    → IsDead d first_free
    → live (d.byte off) ≡ false
find_slot_dead d field rewrite [] none absent h dead = unfold find_slot_in in cc h
find_slot_dead d field rewrite [] (some x) {off} absent h dead =
    dead off (unfold find_slot_in in cc h)
find_slot_dead d field rewrite (o ∷ offs) first_free {off} absent h dead =
    let (miss, absent') = missed d field o offs absent in
    elim (find_slot_step d field rewrite o offs first_free h) [
      | inl (found, _, _) ↦ absurd (both miss found)
      | inr (miss', h2) ↦
          find_slot_dead d field rewrite offs _ absent' h2 (IsDead-step d o first_free dead)
    ]
  where
    both : {b : Bool} → b ≡ false → b ≡ true → ⊥
    both x y = cc (x, y)
