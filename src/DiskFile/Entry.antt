-- ===== src/DiskFile/Entry.antt =====
-- The fields of a directory entry.
use xroar_dev.Base.{
  ℕ, zero, suc, ◌+◌, ◌-◌, ◌/◌, ◌%◌, ◌≤◌, ◌<◌, ◌≡◌, refl, sym, ap, ◌∙◌, true, List, [], ◌∷◌, ◌++◌,
  arith, length, get_or, take, replicate, length-append, take-append,
}
use xroar_dev.Image.{Image, slice}
use xroar_dev.Directory.{live}
use xroar_dev.Directory.Search.{Holds}
use xroar_dev.DiskFile.Write.{entry_of}
use xroar_dev.Image.Slices.{length-slice, slice_add, get_or-slice}

pub get_or-append :
    (xs ys : List ℕ) (n k d : ℕ) → length xs ≡ n → get_or (xs ++ ys) (n + k) d ≡ get_or ys k d
get_or-append [] ys n k d e = let e' : n + k ≡ k = omega arith in rw e'
get_or-append (x ∷ xs) ys n k d e =
    let e' : n + k ≡ suc (length xs + k) = omega arith in
    rw e' (get_or-append xs ys (length xs) k d refl)

pub take-slice :
    (d : Image) (off m n : ℕ) → m ≤ n → off + n ≤ d.size → take m (slice d off n) ≡ slice d off m
take-slice d off m n le fits =
    let whole : n ≡ m + (n - m) = omega arith in
    let len : length (slice d off m) ≡ m = length-slice d off m (omega arith) in
    ap (λ k. take m (slice d off k)) whole
    ∙ ap (take m) (slice_add d off m (n - m) (omega arith))
    ∙ ap (λ k. take k (slice d off m ++ slice d (off + m) (n - m))) (sym len)
    ∙ take-append (slice d off m) (slice d (off + m) (n - m))

-- A new entry holds its name, type, flag, first granule and last-sector byte count.
module _ (field : List ℕ) (ftype ascii_flag first lss : ℕ) (named : length field ≡ 11) where
  abbrev the_entry : List ℕ
  the_entry = entry_of field ftype ascii_flag first lss

  abbrev tail : List ℕ
  tail = ftype ∷ ascii_flag ∷ first ∷ (lss / 256) % 256 ∷ lss % 256 ∷ replicate 16 0

  pub length-entry : length the_entry ≡ 32
  length-entry = omega (arith, length-append field tail)

  pub take-entry : take 11 the_entry ≡ field
  take-entry = ap (λ k. take k the_entry) (sym named) ∙ take-append field tail

  pub entry_type : get_or the_entry 11 0 ≡ ftype
  entry_type = get_or-append field tail 11 0 0 named

  pub entry_ascii : get_or the_entry 12 0 ≡ ascii_flag
  entry_ascii = get_or-append field tail 11 1 0 named

  pub entry_first : get_or the_entry 13 0 ≡ first
  entry_first = get_or-append field tail 11 2 0 named

  pub entry_high : get_or the_entry 14 0 ≡ (lss / 256) % 256
  entry_high = get_or-append field tail 11 3 0 named

  pub entry_low : get_or the_entry 15 0 ≡ lss % 256
  entry_low = get_or-append field tail 11 4 0 named

pub get_or-append_left :
    (xs ys : List ℕ) (k d : ℕ) → k < length xs → get_or (xs ++ ys) k d ≡ get_or xs k d
get_or-append_left [] ys k d h = absurd (omega arith)
get_or-append_left (x ∷ xs) ys zero d h = refl
get_or-append_left (x ∷ xs) ys (suc k) d h = get_or-append_left xs ys k d (omega arith)

-- The first byte of a slice.
pub byte-slice :
    (d : Image) (off n : ℕ) → 0 < n → off + n ≤ d.size → d.byte off ≡ get_or (slice d off n) 0 0
byte-slice d off n pos fits =
    let e : off + 0 ≡ off = omega arith in sym (get_or-slice d off n 0 fits pos ∙ ap d.byte e)

-- An entry in a slot: its name and its first byte.
pub entry-Holds :
    (d : Image) (off : ℕ) (field rest : List ℕ)
    → off + 32 ≤ d.size
    → length field ≡ 11
    → live (get_or field 0 0) ≡ true
    → slice d off 32 ≡ field ++ rest
    → Holds d field off
entry-Holds d off field rest fits named alive e = (
  ap live first ∙ alive,
  sym (take-slice d off 11 32 (omega arith) fits)
      ∙ ap (take 11) e
      ∙ ap (λ k. take k (field ++ rest)) (sym named)
      ∙ take-append field rest,
)
  where
    first : d.byte off ≡ get_or field 0 0
    first =
        byte-slice d off 32 (omega arith) fits
        ∙ ap (λ t. get_or t 0 0) e
        ∙ get_or-append_left field rest 0 0 (omega arith)
