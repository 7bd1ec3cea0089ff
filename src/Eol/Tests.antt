-- ===== src/Eol/Tests.antt =====
-- The theorems on line endings, on two lines.
use xroar_dev.Base.{ℕ, ◌≡◌, List, [], ◌∷◌, arith}
use xroar_dev.Eol.{native_to_decb, decb_to_native}
use xroar_dev.Eol.Laws.{
  to_crlf, decb_to_native-native_to_decb, native_to_decb-to_crlf, native_to_decb_idempotent,
}

abbrev two_lines : List ℕ
two_lines = 65 ∷ 0x0A ∷ 66 ∷ 0x0A ∷ []

decb_to_native-native_to_decb_example : decb_to_native (native_to_decb two_lines) ≡ two_lines
decb_to_native-native_to_decb_example = decb_to_native-native_to_decb two_lines (omega arith)

native_to_decb-to_crlf_example : native_to_decb (to_crlf two_lines) ≡ native_to_decb two_lines
native_to_decb-to_crlf_example = native_to_decb-to_crlf two_lines (omega arith)

native_to_decb_idempotent_example :
    native_to_decb (native_to_decb (0x0D ∷ 0x0A ∷ 0x0D ∷ []))
    ≡ native_to_decb (0x0D ∷ 0x0A ∷ 0x0D ∷ [])
native_to_decb_idempotent_example = native_to_decb_idempotent (0x0D ∷ 0x0A ∷ 0x0D ∷ [])
