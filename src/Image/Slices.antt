-- ===== src/Image/Slices.antt =====
-- What item and slice writes change, inside the bounds of the bytearray.
use xroar_dev.Base.{
  ℕ, zero, suc, ◌+◌, ◌-◌, ◌≤◌, ◌<◌, min, ◌≡◌, refl, ap, ◌≢◌, ◌⊎◌, inl, inr, true, List, [], ◌∷◌,
  ◌++◌, arith, ltb, lt→ltb, length, get_or,
}
use xroar_dev.Error.{ok}
use xroar_dev.Image.{Image, get, put, update, splice, slice}

pub get_ok : (d : Image) (i : ℕ) → i < d.size → get d i ≡ ok (d.byte i)
unfolding get
get_ok d i h = ground arith

pub get-eq-ok : (d : Image) (i : ℕ) {b : ℕ} → get d i ≡ ok b → (i < d.size) × (d.byte i ≡ b)
unfolding get
get-eq-ok d i h = (ground arith, ground arith)

pub put_ok :
    (d : Image) (i v : ℕ)
    → i < d.size
    → v < 256
    → put d i v ≡ ok (record d { byte = update d.byte i v })
unfolding put
put_ok d i v h k = ground arith

pub put-eq-ok :
    (d : Image) (i v : ℕ) {e : Image}
    → put d i v ≡ ok e
    → (i < d.size) × (v < 256) × (e ≡ record d { byte = update d.byte i v })
unfolding put
put-eq-ok d i v h = (ground arith, ground arith, ground arith)

pub update_self : (f : ℕ → ℕ) (i v : ℕ) → update f i v i ≡ v
update_self f i v = ground arith

pub update_ne : (f : ℕ → ℕ) (i v k : ℕ) → k ≢ i → update f i v k ≡ f k
update_ne f i v k h = ground arith

-- A slice assignment of as many bytes as it replaces keeps the size and all other bytes.
module _ (d : Image) (off : ℕ) (bytes : List ℕ) (fits : off + length bytes ≤ d.size) where
  pub size-splice : (splice d off (length bytes) bytes).size ≡ d.size
  unfolding splice
  size-splice = omega arith

  pub byte-splice_outside :
      (k : ℕ)
      → (k < off) ⊎ (off + length bytes ≤ k)
      → (splice d off (length bytes) bytes).byte k ≡ d.byte k
  unfolding splice
  byte-splice_outside k (inl h) = ground arith
  byte-splice_outside k (inr h) =
      let e : min off d.size ≡ off = omega arith in
      let e2 : min (off + length bytes) d.size ≡ off + length bytes = omega arith in
      let e3 : k - off - length bytes + (off + length bytes) ≡ k = omega arith in
      rw (e, e2) (ground (arith, ap d.byte e3))

  pub byte-splice_inside :
      (k : ℕ)
      → k < length bytes
      → (splice d off (length bytes) bytes).byte (off + k) ≡ get_or bytes k 0
  unfolding splice
  byte-splice_inside k h =
      let e : min off d.size ≡ off = omega arith in
      let e3 : off + k - off ≡ k = omega arith in
      rw (e) (ground (arith, ap (λ j. get_or bytes j 0) e3))

-- Two bytearrays that agree on a range have the same slice there.
pub slice_ext :
    (d e : Image) (off n : ℕ)
    → d.size ≡ e.size
    → ((k : ℕ) → off ≤ k → k < off + n → d.byte k ≡ e.byte k)
    → slice d off n ≡ slice e off n
unfolding slice
slice_ext d e off zero s h = refl
slice_ext d e off (suc n) s h =
    let here : d.byte off ≡ e.byte off = h off (omega arith) (omega arith) in
    ground (arith, slice_ext d e (off + 1) n s (λ k a b. h k (omega arith) (omega arith)))

pub length-slice : (d : Image) (off n : ℕ) → off + n ≤ d.size → length (slice d off n) ≡ n
unfolding slice
length-slice d off zero h = refl
length-slice d off (suc n) h = ground (arith, length-slice d (off + 1) n (omega arith))

pub length-slice_le : (d : Image) (off n : ℕ) → length (slice d off n) ≤ n
unfolding slice
length-slice_le d off zero = omega arith
length-slice_le d off (suc n) = ground (arith, length-slice_le d (off + 1) n)

-- A slice is cut into two at any place.
pub slice_add :
    (d : Image) (off m n : ℕ)
    → off + m ≤ d.size
    → slice d off (m + n) ≡ slice d off m ++ slice d (off + m) n
unfolding slice
slice_add d off zero n h =
    let e : zero + n ≡ n = omega arith in let e2 : off + zero ≡ off = omega arith in rw (e, e2)
slice_add d off (suc m) n h =
    let e : suc m + n ≡ suc (m + n) = omega arith in
    let e2 : off + suc m ≡ off + 1 + m = omega arith in
    let inside : ltb off d.size ≡ true = lt→ltb off d.size (omega arith) in
    rw (e, e2, slice, inside) (ap (λ t. d.byte off ∷ t) (slice_add d (off + 1) m n (omega arith)))

pub get_or-slice :
    (d : Image) (off n k : ℕ)
    → off + n ≤ d.size
    → k < n
    → get_or (slice d off n) k 0 ≡ d.byte (off + k)
unfolding slice
get_or-slice d off zero k h lt = absurd (omega arith)
get_or-slice d off (suc n) zero h lt =
    let e : off + zero ≡ off = omega arith in rw (e, slice, lt→ltb off d.size (omega arith))
get_or-slice d off (suc n) (suc k) h lt =
    let e : off + suc k ≡ off + 1 + k = omega arith in
    rw (e, slice, lt→ltb off d.size (omega arith))
      (get_or-slice d (off + 1) n k (omega arith) (omega arith))

-- A range that holds given bytes has them as its slice.
slice_eq :
    (d : Image) (off : ℕ) (bytes : List ℕ)
    → off + length bytes ≤ d.size
    → ((k : ℕ) → k < length bytes → d.byte (off + k) ≡ get_or bytes k 0)
    → slice d off (length bytes) ≡ bytes
unfolding slice
slice_eq d off [] h at = refl
slice_eq d off (b ∷ bytes) h at =
    let e : d.byte (off + 0) ≡ b = at 0 (omega arith) in
    let e0 : off + 0 ≡ off = omega arith in
    let rest : slice d (off + 1) (length bytes) ≡ bytes =
      slice_eq d (off + 1) bytes (omega arith) (λ k lt.
        let s : off + 1 + k ≡ off + suc k = omega arith in rw s (at (suc k) (omega arith))) in
    let e' : d.byte off ≡ b = rw e0 at e in rw (slice, lt→ltb off d.size (omega arith), rest, e')

module _ (d : Image) (off : ℕ) (bytes : List ℕ) (fits : off + length bytes ≤ d.size) where
  -- What a slice assignment wrote is read back.
  pub slice-splice_self : slice (splice d off (length bytes) bytes) off (length bytes) ≡ bytes
  slice-splice_self =
      slice_eq (splice d off (length bytes) bytes) off bytes
        (rw (size-splice d off bytes fits) fits) (byte-splice_inside d off bytes fits)

  -- A slice that does not meet the assigned range is the old one.
  pub slice-splice_outside :
      (at n : ℕ)
      → (at + n ≤ off) ⊎ (off + length bytes ≤ at)
      → slice (splice d off (length bytes) bytes) at n ≡ slice d at n
  slice-splice_outside at n (inl h) =
      slice_ext _ d at n (size-splice d off bytes fits)
        (λ k a b. byte-splice_outside d off bytes fits k (inl (omega arith)))
  slice-splice_outside at n (inr h) =
      slice_ext _ d at n (size-splice d off bytes fits)
        (λ k a b. byte-splice_outside d off bytes fits k (inr (omega arith)))
