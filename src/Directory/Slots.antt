-- ===== src/Directory/Slots.antt =====
-- The 72 slots are aligned, apart from one another, and inside sectors 3 to 11 of track 17.
use xroar_dev.Base.{
  ℕ, zero, suc, ◌+◌, ◌-◌, ◌*◌, ◌≤◌, ◌<◌, ◌≡◌, ◌≢◌, ◌⊎◌, inl, inr, List, [], ◌∷◌, ◌++◌, arith, ltb,
  Bool-cases, All, All-map, All-append,
}
use xroar_dev.Geometry.{sector, dir_track, dir_first_sector, entry_size, track_offset}
use xroar_dev.Directory.{sector_slots, sectors_slots, dir_slots}

-- A slot's offset: 32 bytes each, from the directory's first sector on.
abbrev pub IsSlot : ℕ → ℕ → Type 0
IsSlot base off = (k : ℕ) × (k < 72) × (off ≡ base + 78848 + 32 * k)

-- `n` slots of which the first has number `k`.
abbrev AreSlots : ℕ → ℕ → ℕ → List ℕ → Type 0
AreSlots base k n offs =
    All (λ off. (j : ℕ) × (k ≤ j) × (j < k + n) × (off ≡ base + 78848 + 32 * j)) offs

sector_slots_lem :
    (base k off n : ℕ) → off ≡ base + 78848 + 32 * k → AreSlots base k n (sector_slots off n)
unfolding sector_slots
sector_slots_lem base k off zero e = tt
sector_slots_lem base k off (suc n) e = (
  (k, omega arith, omega arith, e),
  All-map (λ x p. (p.0, omega (arith, p.1), omega (arith, p.2), p.3)) _
      (sector_slots_lem base (k + 1) (off + entry_size) n (omega arith)),
)

AreSlots-widen :
    (base k n k' n' : ℕ) (offs : List ℕ)
    → k' ≤ k
    → k + n ≤ k' + n'
    → AreSlots base k n offs
    → AreSlots base k' n' offs
AreSlots-widen base k n k' n' offs a b h =
    All-map (λ x p. (p.0, omega (arith, p.1), omega (arith, p.2), p.3)) offs h

sectors_slots_lem :
    (base k off n : ℕ) → off ≡ base + 78848 + 32 * k → AreSlots base k (8 * n) (sectors_slots off n)
unfolding sectors_slots
sectors_slots_lem base k off zero e = tt
sectors_slots_lem base k off (suc n) e =
    All-append (λ x. (j : ℕ) × (k ≤ j) × (j < k + 8 * suc n) × (x ≡ base + 78848 + 32 * j))
      (sector_slots off 8) (sectors_slots (off + sector) n)
      (AreSlots-widen base k 8 k (8 * suc n) (sector_slots off 8) (omega arith) (omega arith)
        (sector_slots_lem base k off 8 e))
      (AreSlots-widen base (k + 8) (8 * n) k (8 * suc n) (sectors_slots (off + sector) n)
        (omega arith) (omega arith) (sectors_slots_lem base (k + 8) (off + sector) n (omega arith)))

-- Every slot that the directory's iteration yields is one of the 72 aligned slots.
pub dir_slots_lem : (base : ℕ) → All (IsSlot base) (dir_slots base)
unfolding dir_slots
dir_slots_lem base = go (dir_slots base) (
    sectors_slots_lem base 0 (track_offset dir_track base + dir_first_sector * sector) 9
      (omega arith))
  where
    go : (offs : List ℕ) → AreSlots base 0 72 offs → All (IsSlot base) offs
    go offs h = All-map (λ x p. (p.0, omega (arith, p.2), p.3)) offs h

-- Two slots are the same or do not meet.
pub slots_apart :
    (base a b : ℕ) → IsSlot base a → IsSlot base b → a ≢ b → (a + 32 ≤ b) ⊎ (b + 32 ≤ a)
slots_apart base a b (j, lj, ej) (k, lk, ek) ne = elim (Bool-cases (ltb j k)) [
  | inl lt ↦ inl (ground arith)
  | inr ge ↦ inr (ground arith)
]

All-left : {A : Type 0} (P : A → Type 0) (xs ys : List A) → All P (xs ++ ys) → All P xs
All-left P [] ys h = tt
All-left P (x ∷ xs) ys h = (h.0, All-left P xs ys h.1)

All-right : {A : Type 0} (P : A → Type 0) (xs ys : List A) → All P (xs ++ ys) → All P ys
All-right P [] ys h = h
All-right P (x ∷ xs) ys h = All-right P xs ys h.1

sector_slots_at :
    (P : ℕ → Type 0) (off n j : ℕ) → All P (sector_slots off n) → j < n → P (off + 32 * j)
unfolding sector_slots
sector_slots_at P off zero j h lt = absurd (omega arith)
sector_slots_at P off (suc n) zero h lt = let e : off + 32 * 0 ≡ off = omega arith in rw e h.0
sector_slots_at P off (suc n) (suc j) h lt =
    let e : off + 32 * suc j ≡ (off + 32) + 32 * j = omega arith in
    rw e (sector_slots_at P (off + 32) n j h.1 (omega arith))

sectors_slots_at :
    (P : ℕ → Type 0) (off n j : ℕ) → All P (sectors_slots off n) → j < 8 * n → P (off + 32 * j)
unfolding sectors_slots
sectors_slots_at P off zero j h lt = absurd (omega arith)
sectors_slots_at P off (suc n) j h lt = elim (Bool-cases (ltb j 8)) [
  | inl near ↦
      sector_slots_at P off 8 j (All-left P (sector_slots off 8) (sectors_slots (off + sector) n) h)
        (ground arith)
  | inr far ↦
      let k : 8 ≤ j = ground arith in
      let e : off + 32 * j ≡ (off + sector) + 32 * (j - 8) = omega arith in
      rw e (
        sectors_slots_at P (off + sector) n (j - 8)
          (All-right P (sector_slots off 8) (sectors_slots (off + sector) n) h) (omega arith))
]

-- Every slot of the directory is among those that the iteration yields.
pub dir_slots-at :
    (P : ℕ → Type 0) (base off : ℕ) → All P (dir_slots base) → IsSlot base off → P off
unfolding dir_slots
dir_slots-at P base off h (j, lt, is) =
    let start = track_offset dir_track base + dir_first_sector * sector in
    let e : off ≡ start + 32 * j = omega (arith, is) in
    rw e (sectors_slots_at P start 9 j h (omega arith))
