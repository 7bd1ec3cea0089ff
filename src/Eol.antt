-- ===== src/Eol.antt =====
-- End-of-line translation of tools/decb.py (`copy -l`).
pub mod Laws
mod Tests
use xroar_dev.Base.{ℕ, ◌&&◌, List, [], ◌∷◌, ◌==◌, if◌then◌else◌}

-- What the first line ending of a file makes of the file.
pub data Ending : Type 0 where
  crlf lf cr : Ending

-- The loop of `native_to_decb` up to the byte that decides; no ending at all is left alone, as CR is.
unfoldable pub first_ending : List ℕ → Ending
first_ending [] = cr
first_ending (b ∷ []) = if b == 0x0A then lf else cr
first_ending (b ∷ c ∷ rest) =
    let later = first_ending (c ∷ rest) in
    if (b == 0x0D) && (c == 0x0A)
    then crlf
    else if b == 0x0A
    then lf
    else if b == 0x0D
    then cr
    else later

-- `buf.replace(old, new)` for single bytes.
unfoldable pub replace_byte : ℕ → ℕ → List ℕ → List ℕ
replace_byte old new [] = []
replace_byte old new (b ∷ bytes) = (if b == old then new else b) ∷ replace_byte old new bytes

-- `buf.replace(b"\n", b"")`
unfoldable pub strip_byte : ℕ → List ℕ → List ℕ
strip_byte old [] = []
strip_byte old (b ∷ bytes) = let rest = strip_byte old bytes in if b == old then rest else b ∷ rest

abbrev pub translate : Ending → List ℕ → List ℕ
translate crlf bytes = strip_byte 0x0A bytes
translate lf bytes = replace_byte 0x0A 0x0D bytes
translate cr bytes = bytes

unfoldable pub native_to_decb : List ℕ → List ℕ
unfolding first_ending replace_byte strip_byte
native_to_decb bytes = translate (first_ending bytes) bytes

unfoldable pub decb_to_native : List ℕ → List ℕ
unfolding replace_byte
decb_to_native bytes = replace_byte 0x0D 0x0A bytes
