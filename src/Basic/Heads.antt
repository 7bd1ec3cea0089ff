-- ===== src/Basic/Heads.antt =====
-- One token in front of a body that is already understood.
use mathlib.Core.Path.{subst}
use xroar_dev.Base.{
  ℕ, zero, suc, ◌+◌, ◌-◌, ◌≤◌, ◌<◌, ◌≡◌, refl, sym, ap, ◌∙◌, ◌≢◌, inl, inr, Bool, true, ◌&&◌, none,
  some, List, [], ◌∷◌, ◌++◌, arith, ltb, ◌==◌, le→leb, ==_iff, Bool-cases, length, get_elem?,
  get_or, length-append, eq→==_false,
}
use xroar_dev.Basic.{
  strip_prefix, Mode, Step, body_step, tokenize_body, detokenize_step, detokenize_body, token_text,
}
use xroar_dev.Basic.Match.{
  else_kw, IsClean, Emits, character, statement, apostrophe, function, body_step-Emits,
}
use xroar_dev.Basic.Tables.{coco_statements, coco_functions}
use xroar_dev.Gat.Chain.{table}

-- A body is followed by its 00; the first byte is then `get_or tail 0 0`.
pub step_literal :
    (ch : ℕ) (tail : List ℕ)
    → ch < 0x80
    → (ch ≡ 0x3A → (get_or tail 0 0 ≢ 0x83) × (get_or tail 0 0 ≢ 0x84))
    → detokenize_step ch tail ≡ (ch ∷ [], tail)
unfolding detokenize_step
step_literal ch [] lt h = ground arith
step_literal ch (b ∷ tail) lt h = elim (Bool-cases (ch == 0x3A)) [
  | inl colon ↦ ground (arith, h ((==_iff ch 0x3A).0 colon))
  | inr other ↦ ground arith
]

pub token_text_lem :
    (table : List (List ℕ)) (k : ℕ) (kw : List ℕ)
    → get_elem? table k ≡ some kw
    → token_text table k ≡ kw
unfolding token_text
token_text_lem table k kw e = ground (arith, e)

pub step_statement :
    (k : ℕ) (kw tail : List ℕ)
    → k < 121
    → get_elem? coco_statements k ≡ some kw
    → detokenize_step (0x80 + k) tail ≡ (kw, tail)
unfolding detokenize_step
step_statement k kw [] lt e =
    let at : 0x80 + k - 0x80 ≡ k = omega arith in
    rw (
      eq→==_false (0x80 + k) 0xFF (omega arith),
      le→leb 0x80 (0x80 + k) (omega arith),
      at,
      token_text_lem coco_statements k kw e,
    )
step_statement k kw (b ∷ tail) lt e =
    let at : 0x80 + k - 0x80 ≡ k = omega arith in
    rw (
      eq→==_false (0x80 + k) 0xFF (omega arith),
      le→leb 0x80 (0x80 + k) (omega arith),
      at,
      token_text_lem coco_statements k kw e,
    )

pub step_function :
    (k : ℕ) (kw tail : List ℕ)
    → k < 45
    → get_elem? coco_functions k ≡ some kw
    → detokenize_step 0xFF ((0x80 + k) ∷ tail) ≡ (kw, tail)
unfolding detokenize_step
step_function k kw tail lt e =
    let at : 0x80 + k - 0x80 ≡ k = omega arith in
    rw (le→leb 0x80 (0x80 + k) (omega arith), at, token_text_lem coco_functions k kw e)

-- One token in front of a body that is already understood.
pub body_cons :
    (fuel ch : ℕ) (rest left out text after : List ℕ)
    → ch ≢ 0
    → detokenize_step ch rest ≡ (out, left)
    → detokenize_body fuel left ≡ (text, after)
    → detokenize_body (suc fuel) (ch ∷ rest) ≡ (out ++ text, after)
unfolding detokenize_body
body_cons fuel ch rest left out text after ne step more = rw (eq→==_false ch 0 ne, step, more)

-- The first byte that a clean text is tokenized to, and what it cannot be before a colon.
abbrev pub emitted : ℕ → Mode → List ℕ → List ℕ → List ℕ
emitted fuel mode text after = tokenize_body fuel mode text ++ 0x00 ∷ after

pub else_entry : get_elem? coco_statements 4 ≡ some else_kw
unfolding coco_statements
else_entry = refl

pub apos_entry : get_elem? coco_statements 3 ≡ some (0x27 ∷ [])
unfolding coco_statements
apos_entry = refl

pub first_safe :
    (fuel : ℕ) (mode : Mode) (text after : List ℕ)
    → length text ≤ fuel
    → IsClean text
    → strip_prefix else_kw text ≡ none
    → (get_or (emitted fuel mode text after) 0 0 ≢ 0x83)
      × (get_or (emitted fuel mode text after) 0 0 ≢ 0x84)
unfolding tokenize_body
first_safe zero mode [] after few clean h = omega arith
first_safe (suc fuel) mode [] after few clean h = omega arith
first_safe zero mode (c ∷ cs) after few clean h = absurd (omega arith)
first_safe (suc fuel) mode (c ∷ cs) after few clean h =
    by_case (body_step mode c cs) (body_step-Emits mode c cs clean.1 clean.2)
  where
    by_case :
        (s : Step)
        → Emits c cs s
        → (get_or ((s.out ++ tokenize_body fuel s.mode s.rest) ++ 0x00 ∷ after) 0 0 ≢ 0x83)
          × (get_or ((s.out ++ tokenize_body fuel s.mode s.rest) ++ 0x00 ∷ after) 0 0 ≢ 0x84)
    by_case s (character e r) = rw e (omega (arith, clean.1))
    by_case s (apostrophe e entry) = rw e (omega arith)
    by_case s (function k lt e entry) = rw e (omega arith)
    by_case s (statement k lt ne e entry) = rw e (
      omega arith,
      λ at.
          let is : k ≡ 4 = omega arith in
          let same : some entry.0 ≡ some else_kw =
            sym entry.1 ∙ ap (get_elem? coco_statements) is ∙ else_entry in
          let kw_is : entry.0 ≡ else_kw = cc same in
          let matched : strip_prefix else_kw (c ∷ cs) ≡ some s.rest =
            subst (λ w. strip_prefix w (c ∷ cs) ≡ some s.rest) kw_is entry.3 in
          cc (matched, h),
    )

pub all_nonempty : List (List ℕ) → Bool
all_nonempty [] = true
all_nonempty (kw ∷ table) = ltb 0 (length kw) && all_nonempty table

pub nonempty_entry :
    (table : List (List ℕ)) (k : ℕ) (kw : List ℕ)
    → all_nonempty table ≡ true
    → get_elem? table k ≡ some kw
    → 0 < length kw
unfolding all_nonempty
nonempty_entry [] k kw h e = cc e
nonempty_entry (w ∷ table) zero kw h e = let is : w ≡ kw = cc e in rw (← is) (ground arith)
nonempty_entry (w ∷ table) (suc k) kw h e = nonempty_entry table k kw (ground arith) e

pub statements_nonempty : all_nonempty coco_statements ≡ true
unfolding all_nonempty coco_statements
statements_nonempty = refl

pub functions_nonempty : all_nonempty coco_functions ≡ true
unfolding all_nonempty coco_functions
functions_nonempty = refl

pub entry_shorter :
    (text kw rest : List ℕ) (n : ℕ)
    → text ≡ kw ++ rest
    → 0 < length kw
    → length text ≤ suc n
    → length rest ≤ n
entry_shorter text kw rest n e pos few = omega (arith, ap length e, length-append kw rest)
