-- ===== src/Basic/Match.antt =====
-- What one round of the tokenizer emits for the text it takes.
use native.Mathlib.Decide.{ℕ_discrete}
use mathlib.Core.Path.{subst}
use xroar_dev.Base.{
  ℕ, suc, ◌+◌, ◌%◌, ◌<◌, ◌≡◌, refl, ◌≢◌, inl, inr, none, some, List, [], ◌∷◌, ◌++◌, arith, ◌==◌,
  ==_iff, Bool-cases, Option-cases, length, get_elem?,
}
use xroar_dev.Basic.{
  strip_prefix, find_keyword, Mode, plain, quotes, remark, literal, Step, statement_step,
  plain_step, body_step,
}
use xroar_dev.Basic.Tables.{codes, coco_statements, coco_functions}
use xroar_dev.Gat.Chain.{table}

strip_prefix_sound :
    (kw text : List ℕ) {rest : List ℕ} → strip_prefix kw text ≡ some rest → text ≡ kw ++ rest
unfolding strip_prefix
strip_prefix_sound [] text h = cc
strip_prefix_sound (k ∷ kw) [] h = cc
strip_prefix_sound (k ∷ kw) (c ∷ text) {rest} h =
    ground (arith, strip_prefix_sound kw text {rest = rest})

-- An entry of the table, with its place, that the text begins with.
abbrev pub TableEntry : List (List ℕ) → List ℕ → ℕ → List ℕ → Type 0
TableEntry table text k rest =
    (kw : List ℕ) × (get_elem? table k ≡ some kw)
    × (text ≡ kw ++ rest)
    × (strip_prefix kw text ≡ some rest)

find_keyword_sound :
    (table : List (List ℕ)) (j : ℕ) (text : List ℕ) {i : ℕ} {rest : List ℕ}
    → find_keyword table j text ≡ some (i, rest)
    → (k : ℕ) × (i ≡ j + k) × (k < length table) × TableEntry table text k rest
unfolding find_keyword
find_keyword_sound [] j text h = cc
find_keyword_sound (kw ∷ table) j text h = elim (Option-cases (strip_prefix kw text)) [
  | inr (r, e) ↦
      let h2 = rw (e, find_keyword) at h in
      (
        0,
        ground arith,
        omega arith,
        (kw, refl, ground (arith, strip_prefix_sound kw text e), ground arith),
      )
  | inl e ↦
      let h2 = rw (e, find_keyword) at h in
      let (k, is, lt, entry) = find_keyword_sound table (j + 1) text h2 in
      (suc k, omega arith, omega arith, entry)
]

-- Text that survives: no NUL, no `?`, nothing above 0x7F, and no colon right before ELSE.
abbrev pub else_kw : List ℕ
else_kw = codes "ELSE"

abbrev pub IsClean : List ℕ → Type 0
IsClean [] = Unit
IsClean (c ∷ cs) =
    (0 < c) × (c < 0x80) × (c ≢ b'?') × (c ≡ b':' → strip_prefix else_kw cs ≡ none) × IsClean cs

pub IsClean-append : (kw rest : List ℕ) → IsClean (kw ++ rest) → IsClean rest
IsClean-append [] rest h = h
IsClean-append (k ∷ kw) rest h = IsClean-append kw rest h.4

-- The ways in which a round emits what it takes.
pub data Emits (c : ℕ) (cs : List ℕ) (s : Step) : Type 0 where
  character : s.out ≡ c ∷ [] → s.rest ≡ cs → Emits c cs s
  statement :
      (k : ℕ)
      → k < 121
      → k ≢ 3
      → s.out ≡ (0x80 + k) ∷ []
      → TableEntry coco_statements (c ∷ cs) k s.rest
      → Emits c cs s
  apostrophe :
      s.out ≡ 0x3A ∷ 0x83 ∷ [] → TableEntry coco_statements (c ∷ cs) 3 s.rest → Emits c cs s
  function :
      (k : ℕ)
      → k < 45
      → s.out ≡ 0xFF ∷ (0x80 + k) ∷ []
      → TableEntry coco_functions (c ∷ cs) k s.rest
      → Emits c cs s

statements_length : length coco_statements ≡ 121
unfolding coco_statements
statements_length = refl

functions_length : length coco_functions ≡ 45
unfolding coco_functions
functions_length = refl

statement_step-Emits :
    (c : ℕ) (cs : List ℕ) (k : ℕ) (rest : List ℕ)
    → k < 121
    → TableEntry coco_statements (c ∷ cs) k rest
    → Emits c cs (statement_step ((0x80 + k) % 256) rest)
unfolding statement_step
statement_step-Emits c cs k rest lt entry = elim (ℕ_discrete k 3) [
  | yes e ↦
      apostrophe (ground arith) (subst (λ x. TableEntry coco_statements (c ∷ cs) x rest) e entry)
  | no ne ↦ statement k lt ne (ground arith) entry
]

plain_step-Emits : (c : ℕ) (cs : List ℕ) → c < 0x80 → c ≢ b'?' → Emits c cs (plain_step c cs)
unfolding plain_step
plain_step-Emits c cs lt ne = elim (Bool-cases (c == b'"')) [
  | inl quote ↦ rw quote (character (ground arith) refl)
  | inr other ↦ elim (Bool-cases (c == b'?')) [
    | inl mark ↦ absurd (ne ((==_iff c b'?').0 mark))
    | inr other2 ↦ elim (Option-cases (find_keyword coco_statements 0 (c ∷ cs))) [
      | inr ((j, rest), e) ↦
          let (k, is, low, entry) = find_keyword_sound coco_statements 0 (c ∷ cs) e in
          let is' : j ≡ k = omega arith in
          rw (other, other2, e, is')
            (statement_step-Emits c cs k rest (omega (arith, statements_length)) entry)
      | inl none_found ↦ elim (Option-cases (find_keyword coco_functions 0 (c ∷ cs))) [
        | inr ((j, rest), e) ↦
            let (k, is, low, entry) = find_keyword_sound coco_functions 0 (c ∷ cs) e in
            let small : k < 45 = omega (arith, functions_length) in
            rw (other, other2, none_found, e) (function k small (ground arith) entry)
        | inl nothing ↦ rw (other, other2, none_found, nothing) (character (ground arith) refl)
      ]
    ]
  ]
]

pub body_step-Emits :
    (mode : Mode) (c : ℕ) (cs : List ℕ) → c < 0x80 → c ≢ b'?' → Emits c cs (body_step mode c cs)
unfolding body_step
body_step-Emits plain c cs lt ne = plain_step-Emits c cs lt ne
body_step-Emits quotes c cs lt ne = character (ground arith) refl
body_step-Emits remark c cs lt ne = character (ground arith) refl
body_step-Emits literal c cs lt ne = character (ground arith) refl
