-- ===== src/Eol/Laws.antt =====
-- Text goes to Disk BASIC and back; what is translated once stays as it is.
use xroar_dev.Base.{
  ℕ, ◌≡◌, refl, ◌≢◌, ◌⊎◌, inl, inr, List, [], ◌∷◌, arith, ◌==◌, if◌then◌else◌, Bool-cases, All,
}
use xroar_dev.Eol.{
  Ending, crlf, lf, cr, first_ending, replace_byte, strip_byte, translate, native_to_decb,
  decb_to_native,
}
use xroar_dev.Directory.Search.{hit}

-- Each LF written as CR LF.
unfoldable pub to_crlf : List ℕ → List ℕ
to_crlf [] = []
to_crlf (b ∷ bytes) = let rest = to_crlf bytes in if b == 0x0A then 0x0D ∷ 0x0A ∷ rest else b ∷ rest

-- A byte that a text does not hold.
abbrev pub Without : ℕ → List ℕ → Type 0
Without x bytes = All (λ b. b ≢ x) bytes

replace_byte_back :
    (x y : ℕ) (bytes : List ℕ) → Without y bytes → replace_byte y x (replace_byte x y bytes) ≡ bytes
unfolding replace_byte
replace_byte_back x y [] h = refl
replace_byte_back x y (b ∷ bytes) h = ground (arith, replace_byte_back x y bytes h.1)

replace_byte_absent : (x y : ℕ) (bytes : List ℕ) → Without x bytes → replace_byte x y bytes ≡ bytes
unfolding replace_byte
replace_byte_absent x y [] h = refl
replace_byte_absent x y (b ∷ bytes) h = ground (arith, replace_byte_absent x y bytes h.1)

strip_byte_absent : (x : ℕ) (bytes : List ℕ) → Without x bytes → strip_byte x bytes ≡ bytes
unfolding strip_byte
strip_byte_absent x [] h = refl
strip_byte_absent x (b ∷ bytes) h = ground (arith, strip_byte_absent x bytes h.1)

Without-replace : (x y : ℕ) (bytes : List ℕ) → x ≢ y → Without x (replace_byte x y bytes)
unfolding replace_byte
Without-replace x y [] ne = tt
Without-replace x y (b ∷ bytes) ne = (ground arith, Without-replace x y bytes ne)

Without-strip : (x : ℕ) (bytes : List ℕ) → Without x (strip_byte x bytes)
unfolding strip_byte
Without-strip x [] = tt
Without-strip x (b ∷ bytes) = elim (Bool-cases (b == x)) [
  | inl hit ↦ rw hit (Without-strip x bytes)
  | inr other ↦ rw other (ground arith, Without-strip x bytes)
]

-- With no CR the first ending is LF, or there is no ending.
first_ending_unix :
    (bytes : List ℕ)
    → Without 0x0D bytes
    → (first_ending bytes ≡ lf) ⊎ (first_ending bytes ≡ cr) × Without 0x0A bytes
unfolding first_ending
first_ending_unix [] h = inr (refl, tt)
first_ending_unix (b ∷ []) h = elim (Bool-cases (b == 0x0A)) [
  | inl is_lf ↦ inl (ground arith)
  | inr other ↦ inr (ground arith, (ground arith, tt))
]
first_ending_unix (b ∷ c ∷ rest) h = elim (Bool-cases (b == 0x0A)) [
  | inl is_lf ↦ inl (ground arith)
  | inr other ↦ elim (first_ending_unix (c ∷ rest) h.1) [
    | inl e ↦ inl (ground arith)
    | inr (e, none_there) ↦ inr (ground arith, (ground arith, none_there))
  ]
]

-- With no LF nothing is translated.
first_ending_no_lf : (bytes : List ℕ) → Without 0x0A bytes → first_ending bytes ≡ cr
unfolding first_ending
first_ending_no_lf [] h = refl
first_ending_no_lf (b ∷ []) h = ground arith
first_ending_no_lf (b ∷ c ∷ rest) h = ground (arith, first_ending_no_lf (c ∷ rest) h.1)

translate_no_lf : (bytes : List ℕ) → Without 0x0A bytes → native_to_decb bytes ≡ bytes
unfolding native_to_decb
translate_no_lf bytes h = rw (first_ending_no_lf bytes h)

-- A text with LF line endings comes back from a disk as it was.
pub decb_to_native-native_to_decb :
    (text : List ℕ) → Without 0x0D text → decb_to_native (native_to_decb text) ≡ text
unfolding decb_to_native native_to_decb
decb_to_native-native_to_decb text h = elim (first_ending_unix text h) [
  | inl e ↦ rw e (replace_byte_back 0x0A 0x0D text h)
  | inr (e, none_there) ↦ rw e (replace_byte_absent 0x0D 0x0A text h)
]

first_ending_crlf :
    (text : List ℕ) → Without 0x0D text → (first_ending (to_crlf text) ≡ crlf) ⊎ Without 0x0A text
unfolding first_ending to_crlf
first_ending_crlf [] h = inr tt
first_ending_crlf (b ∷ text) h = elim (Bool-cases (b == 0x0A)) [
  | inl is_lf ↦ inl (rw is_lf)
  | inr other ↦ elim (first_ending_crlf text h.1) [
    | inl e ↦ inl (rw other (skip b (to_crlf text) (ground arith) h.0 e))
    | inr none_there ↦ inr (ground arith, none_there)
  ]
]
  where
    skip :
        (b : ℕ) (rest : List ℕ)
        → b ≢ 0x0A
        → b ≢ 0x0D
        → first_ending rest ≡ crlf
        → first_ending (b ∷ rest) ≡ crlf
    skip b [] n1 n2 e = cc e
    skip b (c ∷ rest) n1 n2 e = ground arith

to_crlf_absent : (text : List ℕ) → Without 0x0A text → to_crlf text ≡ text
unfolding to_crlf
to_crlf_absent [] h = refl
to_crlf_absent (b ∷ text) h = ground (arith, to_crlf_absent text h.1)

strip-to_crlf : (text : List ℕ) → strip_byte 0x0A (to_crlf text) ≡ replace_byte 0x0A 0x0D text
unfolding strip_byte to_crlf replace_byte
strip-to_crlf [] = refl
strip-to_crlf (b ∷ text) = ground (arith, strip-to_crlf text)

-- A text with CR LF line endings is stored as the same text with LF endings is.
pub native_to_decb-to_crlf :
    (text : List ℕ) → Without 0x0D text → native_to_decb (to_crlf text) ≡ native_to_decb text
unfolding native_to_decb
native_to_decb-to_crlf text h = elim (first_ending_crlf text h) [
  | inr none_there ↦ rw (to_crlf_absent text none_there)
  | inl e ↦ elim (first_ending_unix text h) [
    | inl e2 ↦ rw (e, e2) (strip-to_crlf text)
    | inr (e2, none_there) ↦ rw (to_crlf_absent text none_there)
  ]
]

-- Translating twice is translating once, for any bytes, mixed line endings included.
pub native_to_decb_idempotent :
    (bytes : List ℕ) → native_to_decb (native_to_decb bytes) ≡ native_to_decb bytes
native_to_decb_idempotent bytes = go (first_ending bytes) refl
  where
    is : (e : Ending) → first_ending bytes ≡ e → native_to_decb bytes ≡ translate e bytes
    is e h = unfold native_to_decb in rw h

    go :
        (e : Ending)
        → first_ending bytes ≡ e
        → native_to_decb (native_to_decb bytes) ≡ native_to_decb bytes
    go crlf h = rw (is crlf h) (translate_no_lf (strip_byte 0x0A bytes) (Without-strip 0x0A bytes))
    go lf h = rw (is lf h) (
        translate_no_lf (replace_byte 0x0A 0x0D bytes)
          (Without-replace 0x0A 0x0D bytes (omega arith)))
    go cr h = rw (is cr h) (is cr h)
