-- ===== src/Names/Tests.antt =====
-- Names in directory entries.
use xroar_dev.Base.{ℕ, ◌≡◌, refl, List, [], ◌∷◌}
use xroar_dev.Names.{encode_name}
use xroar_dev.Error.{ok}

-- "HI      BAS"
abbrev hi_field : List ℕ
hi_field = 72 ∷ 73 ∷ 32 ∷ 32 ∷ 32 ∷ 32 ∷ 32 ∷ 32 ∷ 66 ∷ 65 ∷ 83 ∷ []

-- "hi.bas"
abbrev hi_name : List ℕ
hi_name = 104 ∷ 105 ∷ 46 ∷ 98 ∷ 97 ∷ 115 ∷ []

hi_encodes : encode_name hi_name ≡ ok hi_field
unfolding encode_name
hi_encodes = refl
