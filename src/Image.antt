-- ===== src/Image.antt =====
-- A Python bytearray, as tools/decb.py uses one for a disk image: item and slice access.
pub mod Slices
use xroar_dev.Base.{
  ℕ, zero, suc, ◌+◌, ◌-◌, ◌<◌, min, List, [], ◌∷◌, ltb, ◌==◌, if◌then◌else◌, length, get_or,
}
use xroar_dev.Error.{Result, ok, err, index_error, value_error}

-- The bytes are `byte 0` to `byte (size - 1)`; `byte` at and beyond `size` means nothing.
pub record Image : Type 0 where
  pub size : ℕ
  pub byte : ℕ → ℕ

-- A bytearray holds bytes.
pub record IsBytes (d : Image) : Type 0 where
  pub at : (i : ℕ) → d.byte i < 256

-- `data[i]`
unfoldable pub get : Image → ℕ → Result ℕ
get d i = if ltb i d.size then ok (d.byte i) else err index_error

abbrev pub update : (ℕ → ℕ) → ℕ → ℕ → ℕ → ℕ
update f i v k = if k == i then v else f k

-- `data[i] = v`
unfoldable pub put : Image → ℕ → ℕ → Result Image
put d i v =
    if ltb i d.size
    then (if ltb v 256 then ok (record d { byte = update d.byte i v }) else err value_error)
    else err index_error

-- `data[off:off + n]`: a slice stops at the end of the bytearray.
unfoldable pub slice : Image → ℕ → ℕ → List ℕ
slice d off zero = []
slice d off (suc n) =
    let rest = slice d (off + 1) n in if ltb off d.size then d.byte off ∷ rest else []

-- `data[off:off + n] = bytes`: the bytes from `off` up to `off + n`, both cut at the end of the
-- bytearray, give way to the new ones, and the bytearray grows or shrinks with them.
unfoldable pub splice : Image → ℕ → ℕ → List ℕ → Image
splice d off n bytes =
    let lo = min off d.size in
    let hi = min (off + n) d.size in
    record {
      size = lo + length bytes + (d.size - hi);
      byte = λ k.
          if ltb k lo
          then d.byte k
          else if ltb k (lo + length bytes)
          then get_or bytes (k - lo) 0
          else d.byte (k - lo - length bytes + hi);
    }
