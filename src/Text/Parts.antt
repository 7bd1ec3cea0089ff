-- ===== src/Text/Parts.antt =====
-- Splitting a text at a separator.
use xroar_dev.Base.{
  ℕ, ◌≡◌, refl, ◌≢◌, inl, inr, none, some, List, [], ◌∷◌, ◌++◌, arith, Option-cases, All,
}
use xroar_dev.Names.{rpartition}
use xroar_dev.Text.{partition}

-- A code point that a text does not hold.
abbrev pub Lacks : ℕ → List ℕ → Type 0
Lacks sep text = All (λ c. c ≢ sep) text

pub Lacks-front : (sep : ℕ) (before after : List ℕ) → Lacks sep (before ++ after) → Lacks sep before
Lacks-front sep [] after h = tt
Lacks-front sep (c ∷ before) after h = (h.0, Lacks-front sep before after h.1)

pub partition-append :
    (sep : ℕ) (before after : List ℕ)
    → Lacks sep before
    → partition sep (before ++ sep ∷ after) ≡ some (before, after)
unfolding partition
partition-append sep [] after h = ground arith
partition-append sep (c ∷ before) after h = ground (arith, partition-append sep before after h.1)

pub partition-Lacks : (sep : ℕ) (text : List ℕ) → Lacks sep text → partition sep text ≡ none
unfolding partition
partition-Lacks sep [] h = refl
partition-Lacks sep (c ∷ text) h = ground (arith, partition-Lacks sep text h.1)

pub rpartition-Lacks : (sep : ℕ) (text : List ℕ) → Lacks sep text → rpartition sep text ≡ none
unfolding rpartition
rpartition-Lacks sep [] h = refl
rpartition-Lacks sep (c ∷ text) h = ground (arith, rpartition-Lacks sep text h.1)

rpartition_step :
    (sep c : ℕ) (text : List ℕ)
    → rpartition sep (c ∷ text) ≡ none
    → (c ≢ sep) × (rpartition sep text ≡ none)
unfolding rpartition
rpartition_step sep c text h = elim (Option-cases (rpartition sep text)) [
  | inl e ↦ ((λ is. ground arith), e)
  | inr (cut, e) ↦ ground arith
]

pub rpartition-none : (sep : ℕ) (text : List ℕ) → rpartition sep text ≡ none → Lacks sep text
rpartition-none sep [] h = tt
rpartition-none sep (c ∷ text) h =
    let (ne, rest) = rpartition_step sep c text h in (ne, rpartition-none sep text rest)

-- What `rpartition` cuts is put together again, and the part after the separator lacks it.
rpartition_here :
    (sep c : ℕ) (text : List ℕ) {before after : List ℕ}
    → rpartition sep text ≡ none
    → rpartition sep (c ∷ text) ≡ some (before, after)
    → (c ≡ sep) × (before ≡ []) × (after ≡ text)
unfolding rpartition
rpartition_here sep c text e h = ground arith

rpartition_later :
    (sep c : ℕ) (text b a : List ℕ) {before after : List ℕ}
    → rpartition sep text ≡ some (b, a)
    → rpartition sep (c ∷ text) ≡ some (before, after)
    → (before ≡ c ∷ b) × (after ≡ a)
unfolding rpartition
rpartition_later sep c text b a e h = ground arith

pub rpartition_sound :
    (sep : ℕ) (text before after : List ℕ)
    → rpartition sep text ≡ some (before, after)
    → (text ≡ before ++ sep ∷ after) × Lacks sep after
rpartition_sound sep [] before after h = unfold rpartition in cc h
rpartition_sound sep (c ∷ text) before after h = elim (Option-cases (rpartition sep text)) [
  | inl e ↦
      let (is, no_text, rest) = rpartition_here sep c text e h in
      (rw (is, no_text, rest), rw rest (rpartition-none sep text e))
  | inr ((b, a), e) ↦
      let (front, back) = rpartition_later sep c text b a e h in
      let (whole, lacks) = rpartition_sound sep text b a e in
      (rw (front, back, whole), rw back lacks)
]
