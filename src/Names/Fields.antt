-- ===== src/Names/Fields.antt =====
-- A name field has 11 bytes, and its first byte marks a live entry.
use xroar_dev.Base.{
  ℕ, ◌-◌, ◌≤◌, ◌<◌, ◌≡◌, refl, ◌≢◌, inl, inr, true, ◌||◌, Option, none, some, List, [], ◌∷◌, ◌++◌,
  arith, ltb, ◌==◌, if◌then◌else◌, Bool-cases, length, get_or, replicate, length-append,
  length-replicate, All, All-append,
}
use xroar_dev.Error.{ok}
use xroar_dev.Names.{
  upper_char, drop_slashes, upper, rpartition, split_name, ljust, all_latin1, encode_latin1,
  encode_name,
}
use xroar_dev.Directory.{live}

length-ljust : (n : ℕ) (s : List ℕ) → length s ≤ n → length (ljust n s) ≡ n
unfolding ljust
length-ljust n s h = omega (
  arith,
  length-append s (replicate (n - length s) b' '),
  length-replicate {A = ℕ} (n - length s) b' ',
)

pub encode_latin1-eq-ok :
    (s : List ℕ) {t : List ℕ} → encode_latin1 s ≡ ok t → (t ≡ s) × (all_latin1 s ≡ true)
unfolding encode_latin1
encode_latin1-eq-ok s h = (ground arith, ground arith)

-- What an accepted name encodes to.
pub encode_name-eq-ok :
    (name : List ℕ) {field : List ℕ}
    → encode_name name ≡ ok field
    → let (base, ext) = split_name (drop_slashes (upper name)) in
      (field ≡ ljust 8 base ++ ljust 3 ext)
      × (length base ≤ 8)
      × (length ext ≤ 3)
      × (all_latin1 field ≡ true)
unfolding encode_name
encode_name-eq-ok name {field} h =
    let (base, ext) = split_name (drop_slashes (upper name)) in
    elim (Bool-cases (ltb 8 (length base) || ltb 3 (length ext))) [
      | inl long ↦ absurd (let h2 = rw long at h in cc)
      | inr short ↦
          let h2 = rw short at h in
          let (e, l) = encode_latin1-eq-ok (ljust 8 base ++ ljust 3 ext) h2 in
          (e, ground arith, ground arith, rw e l)
    ]

-- An encoded name has 11 bytes.
pub length-encode_name :
    (name : List ℕ) {field : List ℕ} → encode_name name ≡ ok field → length field ≡ 11
length-encode_name name h =
    let (base, ext) = split_name (drop_slashes (upper name)) in
    let (e, short, short', l) = encode_name-eq-ok name h in
    rw e (
      omega (
        arith,
        length-append (ljust 8 base) (ljust 3 ext),
        length-ljust 8 base short,
        length-ljust 3 ext short',
      ))

pub all_latin1-All : (s : List ℕ) → all_latin1 s ≡ true → All (λ c. c < 256) s
unfolding all_latin1
all_latin1-All [] h = tt
all_latin1-All (c ∷ cs) h = (ground arith, all_latin1-All cs (ground arith))

-- Neither a NUL nor 0xFF: what upper-casing and padding leave of a name with no NUL.
abbrev IsNameChar : ℕ → Type 0
IsNameChar c = (c ≢ 0) × (c ≢ 0xFF)

upper_char-chars : (c : ℕ) → c ≢ 0 → All IsNameChar (upper_char c)
unfolding upper_char
upper_char-chars c h = ground arith

upper-chars : (name : List ℕ) → All (λ c. c ≢ 0) name → All IsNameChar (upper name)
unfolding upper
upper-chars [] h = tt
upper-chars (c ∷ cs) h =
    All-append IsNameChar (upper_char c) (upper cs) (upper_char-chars c h.0) (upper-chars cs h.1)

drop_slashes-chars : (name : List ℕ) → All IsNameChar name → All IsNameChar (drop_slashes name)
unfolding drop_slashes
drop_slashes-chars [] h = tt
drop_slashes-chars (c ∷ cs) h = elim (Bool-cases ((c == b'/') || (c == 0x5C))) [
  | inl slash ↦ rw slash (drop_slashes-chars cs h.1)
  | inr kept ↦ rw kept (h.0, drop_slashes-chars cs h.1)
]

-- The part before the separator has only characters of the text.
abbrev BeforeChars : Option (List ℕ × List ℕ) → Type 0
BeforeChars none = Unit
BeforeChars (some (before, after)) = All IsNameChar before

rpartition_step :
    (sep c : ℕ) (cs : List ℕ) (o : Option (List ℕ × List ℕ))
    → IsNameChar c
    → BeforeChars o
    → BeforeChars (elim o [
      | some (before, after) ↦ some (c ∷ before, after)
      | none ↦ if c == sep then some ([], cs) else none
    ])
rpartition_step sep c cs none h k = ground arith
rpartition_step sep c cs (some (before, after)) h k = (h, k)

rpartition-chars : (sep : ℕ) (s : List ℕ) → All IsNameChar s → BeforeChars (rpartition sep s)
unfolding rpartition
rpartition-chars sep [] h = tt
rpartition-chars sep (c ∷ cs) h =
    rpartition_step sep c cs (rpartition sep cs) h.0 (rpartition-chars sep cs h.1)

split_name_step :
    (s : List ℕ) (o : Option (List ℕ × List ℕ))
    → All IsNameChar s
    → BeforeChars o
    → All IsNameChar (
        let p : List ℕ × List ℕ = elim o [ some (base, ext) ↦ (base, ext) | none ↦ (s, []) ] in p.0)
split_name_step s none h k = h
split_name_step s (some (base, ext)) h k = k

split_name-chars : (s : List ℕ) → All IsNameChar s → All IsNameChar (split_name s).0
unfolding split_name
split_name-chars s h = split_name_step s (rpartition b'.' s) h (rpartition-chars b'.' s h)

padded_live :
    (base ext : List ℕ)
    → All IsNameChar base
    → live (get_or (ljust 8 base ++ ljust 3 ext) 0 0) ≡ true
unfolding ljust
padded_live [] ext k = refl
padded_live (c ∷ cs) ext k = ground arith

-- The field of a name with no NUL begins with a byte that marks a live entry.
pub encode_name-live :
    (name : List ℕ) {field : List ℕ}
    → All (λ c. c ≢ 0) name
    → encode_name name ≡ ok field
    → live (get_or field 0 0) ≡ true
encode_name-live name chars h =
    let (e, short, short', l) = encode_name-eq-ok name h in
    rw e (
      padded_live (split_name (drop_slashes (upper name))).0
        (split_name (drop_slashes (upper name))).1
        (split_name-chars _ (drop_slashes-chars _ (upper-chars name chars))))
