-- ===== src/Directory/Search.antt =====
-- What the two searches of the directory find.
use mathlib.Core.Path.{subst}
use xroar_dev.Base.{
  ℕ, ◌<◌, ◌≡◌, refl, sym, ap, ◌∙◌, ◌≢◌, ◌⊎◌, inl, inr, Bool, true, false, ◌&&◌, Option, none, some,
  List, [], ◌∷◌, arith, ltb, ◌==◌, if◌then◌else◌, lt→ltb, ==_iff, Bool-cases, All, list_eq,
  list_eq→eq, list_eq_refl,
}
use xroar_dev.Error.{ok, ok-injective}
use xroar_dev.Image.{Image, get, slice}
use xroar_dev.Directory.{
  live, find_in, or_else, find_slot_in, dir_slots, find_entry, find_dir_entry,
}

-- A slot of the image holds a live entry of this name.
abbrev pub Holds : Image → List ℕ → ℕ → Type 0
Holds d name_field off = (live (d.byte off) ≡ true) × (slice d off 11 ≡ name_field)

-- Away from the slot `off` the images have the same names.
abbrev pub SameNames : Image → Image → ℕ → ℕ → Type 0
SameNames d e off o = o ≢ off → (e.byte o ≡ d.byte o) × (slice e o 11 ≡ slice d o 11)

pub find_in_here :
    (e : Image) (name_field : List ℕ) (o : ℕ) (offs : List ℕ) (off : ℕ)
    → o < e.size
    → o ≡ off
    → Holds e name_field off
    → find_in e name_field (o ∷ offs) ≡ ok (some off)
unfolding find_in get
find_in_here e name_field o offs off inside is (alive, named) =
    rw (is, find_in, lt→ltb off e.size (rw (← is) inside), alive, named, list_eq_refl name_field)

pub find_in_later :
    (e : Image) (name_field : List ℕ) (o : ℕ) (offs : List ℕ)
    → o < e.size
    → (live (e.byte o) && list_eq (slice e o 11) name_field) ≡ false
    → find_in e name_field (o ∷ offs) ≡ find_in e name_field offs
unfolding find_in get
find_in_later e name_field o offs inside miss = rw (lt→ltb o e.size inside, miss)

-- One round of the search for a slot to write.
pub find_slot_step :
    (d : Image) (name_field : List ℕ) (rewrite : Bool) (o : ℕ) (offs : List ℕ)
    (first_free : Option ℕ) {off : ℕ}
    → find_slot_in d name_field rewrite (o ∷ offs) first_free ≡ ok off
    → ((live (d.byte o) && list_eq (slice d o 11) name_field) ≡ true) × (off ≡ o) × (rewrite ≡ true)
      ⊎ ((live (d.byte o) && list_eq (slice d o 11) name_field) ≡ false)
        × (find_slot_in d name_field rewrite offs
              (if live (d.byte o) then first_free else or_else first_free o)
            ≡ ok off)
unfolding find_slot_in get
find_slot_step d name_field rewrite o offs first_free h = elim (Bool-cases (ltb o d.size)) [
  | inr out ↦ absurd (let h2 = rw out at h in cc)
  | inl inside ↦
      let h2 = rw inside at h in
      elim (Bool-cases (live (d.byte o) && list_eq (slice d o 11) name_field)) [
        | inl hit ↦ let h3 = rw hit at h2 in inl (hit, ground arith, ground arith)
        | inr miss ↦ let h3 = rw miss at h2 in inr (miss, h3)
      ]
]

-- The slot found is one of those searched, or the free one found before.
pub find_slot_All :
    (P : ℕ → Type 0) (d : Image) (name_field : List ℕ) (rewrite : Bool) (offs : List ℕ)
    (first_free : Option ℕ) {off : ℕ}
    → find_slot_in d name_field rewrite offs first_free ≡ ok off
    → All P offs
    → ((o : ℕ) → first_free ≡ some o → P o)
    → P off
find_slot_All P d name_field rewrite [] none h all ff = unfold find_slot_in in cc h
find_slot_All P d name_field rewrite [] (some o) h all ff =
    unfold find_slot_in in rw (← ok-injective h) (ff o refl)
find_slot_All P d name_field rewrite (o ∷ offs) first_free h all ff =
    elim (find_slot_step d name_field rewrite o offs first_free h) [
      | inl (hit, e, r) ↦ rw e all.0
      | inr (miss, rest) ↦
          find_slot_All P d name_field rewrite offs _ rest all.1
            (keeps (live (d.byte o)) first_free ff)
    ]
  where
    keeps :
        (b : Bool) (f : Option ℕ)
        → ((x : ℕ) → f ≡ some x → P x)
        → (x : ℕ) → (if b then f else or_else f o) ≡ some x
        → P x
    keeps true f k x e = k x e
    keeps false none k x e = let e' : o ≡ x = cc e in rw (← e') all.0
    keeps false (some y) k x e = k x e

or_else_ne :
    (b : Bool) (f : Option ℕ) (o off : ℕ)
    → o ≢ off
    → f ≢ some off
    → (if b then f else or_else f o) ≢ some off
or_else_ne true f o off ne k = k
or_else_ne false none o off ne k = λ e. ne (cc e)
or_else_ne false (some y) o off ne k = k

-- Once the slot that was chosen for a name holds it, the name is found there.
pub find_in_chosen :
    (d e : Image) (name_field : List ℕ) (rewrite : Bool) (offs : List ℕ) (first_free : Option ℕ)
    (off : ℕ)
    → find_slot_in d name_field rewrite offs first_free ≡ ok off
    → first_free ≢ some off
    → All (λ o. o < e.size) offs
    → All (SameNames d e off) offs
    → Holds e name_field off
    → find_in e name_field offs ≡ ok (some off)
find_in_chosen d e name_field rewrite [] none off h ne inside same holds =
    unfold find_slot_in in cc h
find_in_chosen d e name_field rewrite [] (some o) off h ne inside same holds =
    unfold find_slot_in in absurd (ne (ap some (ok-injective h)))
find_in_chosen d e name_field rewrite (o ∷ offs) first_free off h ne inside same holds =
    elim (Bool-cases (o == off)) [
      | inl is ↦ find_in_here e name_field o offs off inside.0 ((==_iff o off).0 is) holds
      | inr other ↦
          let o_ne : o ≢ off = ground arith in
          elim (find_slot_step d name_field rewrite o offs first_free h) [
            | inl (hit, eq, r) ↦ absurd (o_ne (sym eq))
            | inr (miss, rest) ↦
                let (b, s) = same.0 o_ne in
                find_in_later e name_field o offs inside.0 (rw (b, s) miss)
                ∙ find_in_chosen d e name_field rewrite offs _ off rest
                    (or_else_ne (live (d.byte o)) first_free o off o_ne ne) inside.1 same.1 holds
          ]
    ]

pub find_entry_intro :
    (d : Image) (name_field : List ℕ) (base : ℕ) {o : Option ℕ}
    → find_in d name_field (dir_slots base) ≡ ok o
    → find_entry d name_field base ≡ ok o
find_entry_intro d name_field base h = unfold find_entry in h

pub find_entry_slots :
    (d : Image) (name_field : List ℕ) (base : ℕ) {o : Option ℕ}
    → find_entry d name_field base ≡ ok o
    → find_in d name_field (dir_slots base) ≡ ok o
find_entry_slots d name_field base h = unfold find_entry in h

pub find_dir_entry-slots :
    (d : Image) (name_field : List ℕ) (rewrite : Bool) (base : ℕ) {off : ℕ}
    → find_dir_entry d name_field rewrite base ≡ ok off
    → find_slot_in d name_field rewrite (dir_slots base) none ≡ ok off
find_dir_entry-slots d name_field rewrite base h = unfold find_dir_entry in h

-- The test of `find_entry` at one slot.
abbrev pub hit : Image → List ℕ → ℕ → Bool
hit d name_field off = live (d.byte off) && list_eq (slice d off 11) name_field

-- The search depends only on its test at each slot.
pub find_in_same :
    (d e : Image) (name_field : List ℕ) (offs : List ℕ)
    → e.size ≡ d.size
    → All (λ o. o < d.size) offs
    → All (λ o. hit e name_field o ≡ hit d name_field o) offs
    → find_in e name_field offs ≡ find_in d name_field offs
find_in_same d e name_field [] size inside same = unfold find_in in refl
find_in_same d e name_field (o ∷ offs) size inside same =
    step (find_in_same d e name_field offs size inside.1 same.1)
  where
    step :
        find_in e name_field offs ≡ find_in d name_field offs
        → find_in e name_field (o ∷ offs) ≡ find_in d name_field (o ∷ offs)
    step ih =
        unfold find_in get in
        rw (lt→ltb o d.size inside.0, lt→ltb o e.size (omega (arith, inside.0, size)), same.0, ih)

-- What is found holds the name, and is one of the slots searched.
pub find_in_sound :
    (P : ℕ → Type 0) (d : Image) (name_field : List ℕ) (offs : List ℕ) {off : ℕ}
    → All P offs
    → find_in d name_field offs ≡ ok (some off)
    → Holds d name_field off × P off
find_in_sound P d name_field [] all h = unfold find_in in cc h
find_in_sound P d name_field (o ∷ offs) {off} all h = elim (Bool-cases (hit d name_field o)) [
  | inl found ↦
      let is : o ≡ off = found_here found h in
      subst (λ x. Holds d name_field x × P x) is
        ((ground arith, list_eq→eq (slice d o 11) name_field (ground arith)), all.0)
  | inr miss ↦ find_in_sound P d name_field offs all.1 (skip miss h)
]
  where
    found_here :
        hit d name_field o ≡ true → find_in d name_field (o ∷ offs) ≡ ok (some off) → o ≡ off
    found_here f k = unfold find_in get in ground arith

    skip :
        hit d name_field o ≡ false
        → find_in d name_field (o ∷ offs) ≡ ok (some off)
        → find_in d name_field offs ≡ ok (some off)
    skip f k = unfold find_in get in ground arith

pub hit-slot :
    (d : Image) (name_field field : List ℕ) (o : ℕ)
    → slice d o 11 ≡ field
    → field ≢ name_field
    → hit d name_field o ≡ false
hit-slot d name_field field o e ne = elim (Bool-cases (list_eq (slice d o 11) name_field)) [
  | inl same ↦ absurd (ne (sym e ∙ list_eq→eq (slice d o 11) name_field same))
  | inr other ↦ ground arith
]
