-- ===== src/Host/Reload.antt =====
-- An image that is saved and loaded again reads as before.
use xroar_dev.Base.{
  ℕ, zero, suc, ◌+◌, ◌≤◌, ◌<◌, ◌≡◌, refl, sym, ap, ◌∙◌, inl, inr, false, none, some, List, [], ◌∷◌,
  arith, ltb, Bool-cases, length, get_or, All, All-map,
}
use xroar_dev.Image.{Image, get, slice}
use xroar_dev.Geometry.{granule, granule_offset, gat_offset, num_granules, entry_size}
use xroar_dev.Directory.{dir_slots, find_in, find_entry}
use xroar_dev.View.{IsView, slots_fit-All}
use xroar_dev.Host.{image_of, bytes_of}
use xroar_dev.DiskFile.{read_granules, read_entry_payload, read_file}
use xroar_dev.Gat.{walk, chain_granules, entry_geometry}
use xroar_dev.Directory.Search.{find_in_same, hit}
use xroar_dev.Directory.Slots.{dir_slots_lem}
use xroar_dev.DiskFile.Store.{read_granules_ext}
use xroar_dev.Image.Slices.{length-slice, get_or-slice, length-slice_le}
use mathlib.Core.Path.{fun_ext}
use xroar_dev.Names.{encode_name}
use xroar_dev.Error.{Result-cases}

-- Two images with the same bytes.
pub record SameBytes (d e : Image) : Type 0 where
  pub size : e.size ≡ d.size
  pub byte : (k : ℕ) → k < d.size → e.byte k ≡ d.byte k

pub reloaded : (d : Image) → SameBytes d (image_of (bytes_of d))
unfolding image_of bytes_of
reloaded d = record {
  size = length-slice d 0 d.size (omega arith);
  byte = λ k lt. get_or-slice d 0 d.size k (omega arith) lt ∙ ap d.byte (omega arith);
}

All-of : {A : Type 0} (P : A → Type 0) → ((x : A) → P x) → (xs : List A) → All P xs
All-of P f [] = tt
All-of P f (x ∷ xs) = (f x, All-of P f xs)

module _ (d e : Image) (same : SameBytes d e) where
  get_same : (i : ℕ) → get e i ≡ get d i
  unfolding get
  get_same i = ground (arith, same.size, same.byte i)

  pub slice_same : (off n : ℕ) → slice e off n ≡ slice d off n
  unfolding slice
  slice_same off zero = refl
  slice_same off (suc n) = ground (arith, same.size, same.byte off, slice_same (off + 1) n)

  pub walk_loaded :
      (gat total fuel count g : ℕ) → walk e gat total fuel count g ≡ walk d gat total fuel count g
  unfolding walk
  walk_loaded gat total zero count g = refl
  walk_loaded gat total (suc fuel) count g =
      rw (get_same (gat + g), fun_ext (walk_loaded gat total fuel (count + 1)))

  hit_same : (field : List ℕ) (o : ℕ) → o < d.size → hit e field o ≡ hit d field o
  hit_same field o lt = rw (same.byte o lt, slice_same o 11)

  find_entry_loaded :
      (base tracks : ℕ) (field : List ℕ)
      → IsView d base tracks
      → find_entry e field base ≡ find_entry d field base
  unfolding find_entry
  find_entry_loaded base tracks field view =
      go (dir_slots base) (slots_fit-All d base tracks view (dir_slots base) (dir_slots_lem base))
    where
      go :
          (offs : List ℕ) → All (λ o. o < d.size) offs → find_in e field offs ≡ find_in d field offs
      go offs inside =
          find_in_same d e field offs same.size inside
            (All-map (λ o lt. hit_same field o lt) offs inside)

  granules_loaded : (base : ℕ) → read_granules e base ≡ read_granules d base
  granules_loaded base = fun_ext λ grans.
      read_granules_ext d e base grans
        (All-of _ (λ g. slice_same (granule_offset g base) granule) grans)

  payload_loaded :
      (entry : List ℕ) (base tracks : ℕ)
      → read_entry_payload e entry base tracks ≡ read_entry_payload d entry base tracks
  unfolding read_entry_payload entry_geometry chain_granules
  payload_loaded entry base tracks = rw (
    walk_loaded (gat_offset base) (num_granules tracks) (num_granules tracks + 2) 0
        (get_or entry 13 0),
    granules_loaded base,
  )

  -- Every file reads as before.
  pub read_file_loaded :
      (name : List ℕ) (base tracks : ℕ)
      → IsView d base tracks
      → read_file e name base tracks ≡ read_file d name base tracks
  unfolding read_file
  read_file_loaded name base tracks view = elim (Result-cases (encode_name name)) [
    | inr (why, e1) ↦ rw e1
    | inl (field, e1) ↦
        let looked = find_entry_loaded base tracks field view in
        elim (Result-cases (find_entry d field base)) [
          | inr (why, e2) ↦ rw (e1, looked, e2)
          | inl (none, e2) ↦ rw (e1, looked, e2)
          | inl (some off, e2) ↦ rw (
            e1,
            looked,
            e2,
            slice_same off entry_size,
            payload_loaded (slice d off entry_size) base tracks,
          )
        ]
  ]

image_eq : (d e : Image) → e.size ≡ d.size → e.byte ≡ d.byte → e ≡ d
image_eq d e p q = λ i. record { size = p i; byte = q i }

get_or_past : (bytes : List ℕ) (k : ℕ) → length bytes ≤ k → get_or bytes k 0 ≡ 0
get_or_past [] k h = refl
get_or_past (b ∷ bytes) zero h = absurd (omega arith)
get_or_past (b ∷ bytes) (suc k) h = get_or_past bytes k (omega arith)

le_of_past : (k n : ℕ) → ltb k n ≡ false → n ≤ k
le_of_past k n h = ground arith

-- An image that is nothing behind its end is the image of its file.
pub image_of-bytes_of :
    (d : Image) → ((k : ℕ) → d.size ≤ k → d.byte k ≡ 0) → image_of (bytes_of d) ≡ d
unfolding image_of bytes_of
image_of-bytes_of d beyond = image_eq d (image_of (bytes_of d)) (reloaded d).size (
    fun_ext λ k. elim (Bool-cases (ltb k d.size)) [
      | inl inside ↦ (reloaded d).byte k (ground arith)
      | inr past ↦
          get_or_past (slice d 0 d.size) k
            (omega (arith, length-slice_le d 0 d.size, le_of_past k d.size past))
          ∙ sym (beyond k (le_of_past k d.size past))
    ])

pub All-slice :
    (d : Image) (off n : ℕ) → ((k : ℕ) → d.byte k < 256) → All (λ b. b < 256) (slice d off n)
unfolding slice
All-slice d off zero small = tt
All-slice d off (suc n) small = elim (Bool-cases (ltb off d.size)) [
  | inl inside ↦ rw inside (small off, All-slice d (off + 1) n small)
  | inr past ↦ rw past tt
]
