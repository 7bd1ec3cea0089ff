-- ===== src/Copy/Convert.antt =====
-- What `cmd_copy` of tools/decb.py does to a payload on its way: `-c`, `-t` and `-l`.
use xroar_dev.Base.{ℕ, Bool, false, not, ◌&&◌, Option, some, List, ◌==◌, if◌then◌else◌, get_or}
use xroar_dev.Error.{Result, ◌>>=◌, ok}
use xroar_dev.Copy.Flags.{Options}
use xroar_dev.Eol.{native_to_decb, decb_to_native}
use xroar_dev.Segments.{binconcat}
use xroar_dev.Basic.{tokenize_cocobas, detokenize_cocobas}

-- A payload with its type and flag; `none` where nothing has settled them.
pub record Payload : Type 0 where
  pub bytes : List ℕ
  pub ftype : Option ℕ
  pub ascii_flag : Option ℕ

unfoldable pub concatenated : Options → List ℕ → Result (List ℕ)
unfolding binconcat
concatenated o bytes = if o.concat_segments then binconcat bytes else ok bytes

-- `-t` tokenizes text and detokenizes tokens, which begin with 0xFF. The second part is `do_eol`.
unfoldable pub toggled : Options → Payload → Result (Payload × Bool)
unfolding tokenize_cocobas detokenize_cocobas
toggled o p =
    if not o.tokenize
    then ok (p, o.eol)
    else if get_or p.bytes 0 0 == 0xFF
    then (do
      text ← detokenize_cocobas p.bytes
      ok (record { bytes = text; ftype = some 0; ascii_flag = some 0xFF }, o.eol))
    else ok
        (record { bytes = tokenize_cocobas p.bytes; ftype = some 0; ascii_flag = some 0x00 }, false)

unfoldable pub eol_translated : Bool → Bool → Bool → List ℕ → List ℕ
unfolding native_to_decb decb_to_native
eol_translated do_eol src_is_image dst_is_image bytes =
    if do_eol && not src_is_image && dst_is_image
    then native_to_decb bytes
    else if do_eol && src_is_image && not dst_is_image
    then decb_to_native bytes
    else bytes

unfoldable pub convert : Options → Bool → Bool → Payload → Result Payload
unfolding concatenated toggled eol_translated
convert o src_is_image dst_is_image p = do
  bytes ← concatenated o p.bytes
  (q, do_eol) ← toggled o (record p { bytes = bytes })
  ok (record q { bytes = eol_translated do_eol src_is_image dst_is_image q.bytes })
