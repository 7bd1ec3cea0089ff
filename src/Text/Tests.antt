-- ===== src/Text/Tests.antt =====
-- Integers as Python reads them.
use xroar_dev.Base.{◌≡◌, refl, none, some}
use xroar_dev.Text.{pos, negsuc, int_10, int_0}
use xroar_dev.Basic.Tables.{codes}

hex : int_0 (codes "0x1F") ≡ some (pos 31)
unfolding int_0
hex = refl

signed : int_0 (codes " -1_000 ") ≡ some (negsuc 999)
unfolding int_0
signed = refl

leading_zero : int_0 (codes "012") ≡ none
unfolding int_0
leading_zero = refl

bare_decimal : int_10 (codes "012") ≡ some (pos 12)
unfolding int_10
bare_decimal = refl
