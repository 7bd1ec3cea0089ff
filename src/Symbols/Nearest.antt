-- ===== src/Symbols/Nearest.antt =====
-- The nearest symbol at or below an address.
use xroar_dev.Base.{
  ℕ, ◌+◌, ◌-◌, ◌≤◌, ◌<◌, ◌≡◌, sym, ap, ◌∙◌, inl, inr, Option, none, some, List, [], ◌∷◌, arith, ltb,
  leb, Bool-cases, All, All-map,
}
use xroar_dev.Symbols.{
  Sym, SymbolFile, insert_sym, sorted_onto, last_below, within, whereis, all_syms,
}

abbrev IsSorted : List Sym → Type 0
IsSorted [] = Unit {0}
IsSorted (s ∷ syms) = All (λ t. s.phys ≤ t.phys) syms × IsSorted syms

insert_sym-All :
    (P : Sym → Type 0) (s : Sym) (syms : List Sym) → P s → All P syms → All P (insert_sym s syms)
unfolding insert_sym
insert_sym-All P s [] p h = (p, tt)
insert_sym-All P s (t ∷ syms) p h = elim (Bool-cases (leb t.phys s.phys)) [
  | inl below ↦ rw below (h.0, insert_sym-All P s syms p h.1)
  | inr above ↦ rw above (p, h)
]

insert_sym-IsSorted : (s : Sym) (syms : List Sym) → IsSorted syms → IsSorted (insert_sym s syms)
unfolding insert_sym
insert_sym-IsSorted s [] h = (tt, tt)
insert_sym-IsSorted s (t ∷ syms) h = elim (Bool-cases (leb t.phys s.phys)) [
  | inl below ↦ rw below (
    insert_sym-All (λ u. t.phys ≤ u.phys) s syms (ground arith) h.0,
    insert_sym-IsSorted s syms h.1,
  )
  | inr above ↦
      let le : s.phys ≤ t.phys = ground arith in
      rw above ((le, All-map (λ u k. omega (arith, k, le)) syms h.0), h)
]

sorted_onto-IsSorted :
    (sorted syms : List Sym) → IsSorted sorted → IsSorted (sorted_onto sorted syms)
unfolding sorted_onto
sorted_onto-IsSorted sorted [] h = h
sorted_onto-IsSorted sorted (s ∷ syms) h =
    sorted_onto-IsSorted (insert_sym s sorted) syms (insert_sym-IsSorted s sorted h)

-- What holds of the sorted symbols holds of all, and the other way round.
sorted_onto-All :
    (P : Sym → Type 0) (sorted syms : List Sym)
    → All P sorted
    → All P syms
    → All P (sorted_onto sorted syms)
unfolding sorted_onto
sorted_onto-All P sorted [] h k = h
sorted_onto-All P sorted (s ∷ syms) h k =
    sorted_onto-All P (insert_sym s sorted) syms (insert_sym-All P s sorted k.0 h) k.1

insert_sym-All_back :
    (P : Sym → Type 0) (s : Sym) (syms : List Sym) → All P (insert_sym s syms) → P s × All P syms
unfolding insert_sym
insert_sym-All_back P s [] h = (h.0, tt)
insert_sym-All_back P s (t ∷ syms) h = elim (Bool-cases (leb t.phys s.phys)) [
  | inl below ↦
      let h' = rw below at h in
      let (p, rest) = insert_sym-All_back P s syms h'.1 in (p, (h'.0, rest))
  | inr above ↦ let h' = rw above at h in (h'.0, h'.1)
]

sorted_onto-All_back :
    (P : Sym → Type 0) (sorted syms : List Sym)
    → All P (sorted_onto sorted syms)
    → All P sorted × All P syms
unfolding sorted_onto
sorted_onto-All_back P sorted [] h = (h, tt)
sorted_onto-All_back P sorted (s ∷ syms) h =
    let (inserted, rest) = sorted_onto-All_back P (insert_sym s sorted) syms h in
    let (p, before) = insert_sym-All_back P s sorted inserted in (before, (p, rest))

-- The last symbol at or below an address, in sorted symbols behind one that is.
last_below_best :
    (phys : ℕ) (b : Sym) (syms : List Sym) (r : Sym)
    → IsSorted (b ∷ syms)
    → b.phys ≤ phys
    → last_below phys syms (some b) ≡ some r
    → (r.phys ≤ phys) × (b.phys ≤ r.phys) × All (λ t. t.phys ≤ phys → t.phys ≤ r.phys) syms
unfolding last_below
last_below_best phys b [] r sorted low h = let is : b ≡ r = cc h in rw (← is) (low, omega arith, tt)
last_below_best phys b (s ∷ syms) r sorted low h = elim (Bool-cases (leb s.phys phys)) [
  | inl more ↦
      let le : s.phys ≤ phys = ground arith in
      let (below, above, all) = last_below_best phys s syms r sorted.1 le (rw more at h) in
      (below, omega (arith, sorted.0.0, above), ((λ k. above), all))
  | inr past ↦
      let is : b ≡ r = let k = rw past at h in cc k in
      let far : phys < s.phys = ground arith in
      rw (← is) (
        low,
        omega arith,
        (
          (λ k. absurd (omega (arith, k, far))),
          All-map (λ t later k. absurd (omega (arith, later, k, far))) syms sorted.1.0,
        ),
      )
]

last_below_lem :
    (phys : ℕ) (syms : List Sym) (r : Sym)
    → IsSorted syms
    → last_below phys syms none ≡ some r
    → (r.phys ≤ phys) × All (λ t. t.phys ≤ phys → t.phys ≤ r.phys) syms
unfolding last_below
last_below_lem phys [] r sorted h = cc h
last_below_lem phys (s ∷ syms) r sorted h = elim (Bool-cases (leb s.phys phys)) [
  | inl more ↦
      let le : s.phys ≤ phys = ground arith in
      let (below, above, all) = last_below_best phys s syms r sorted le (rw more at h) in
      (below, ((λ k. above), all))
  | inr past ↦ absurd (let k = rw past at h in cc k)
]

within-eq-some :
    (phys max_distance : ℕ) (o : Option Sym) (s : Sym) (off : ℕ)
    → within phys max_distance o ≡ some (s, off)
    → (o ≡ some s) × (off ≡ phys - s.phys) × (off ≤ max_distance)
within-eq-some phys max_distance none s off h = cc h
within-eq-some phys max_distance (some t) s off h =
    elim (Bool-cases (ltb max_distance (phys - t.phys))) [
      | inl far ↦ absurd (let k = rw far at h in cc k)
      | inr near ↦
          let k = rw near at h in
          let is : t ≡ s = cc k in
          let off_is : phys - t.phys ≡ off = cc k in
          (ap some is, sym off_is ∙ ap (λ u. phys - u.phys) is, rw (← off_is) (ground arith))
    ]

-- The symbol that whereis names stands at or below the address, at the distance it gives, which is
-- at most the largest allowed; no symbol of the file stands between it and the address.
pub whereis_nearest :
    (f : SymbolFile) (phys max_distance : ℕ) (s : Sym) (off : ℕ)
    → whereis f phys max_distance ≡ some (s, off)
    → (s.phys + off ≡ phys)
      × (off ≤ max_distance)
      × All (λ t. t.phys ≤ phys → t.phys ≤ s.phys) (all_syms f.by_name)
unfolding whereis
whereis_nearest f phys max_distance s off h =
    let syms = all_syms f.by_name in
    let (found, off_is, near) = within-eq-some phys max_distance _ s off h in
    let (below, all) =
      last_below_lem phys (sorted_onto [] syms) s (sorted_onto-IsSorted [] syms tt) found in
    (
      omega (arith, off_is, below),
      near,
      (sorted_onto-All_back (λ t. t.phys ≤ phys → t.phys ≤ s.phys) [] syms all).1,
    )
