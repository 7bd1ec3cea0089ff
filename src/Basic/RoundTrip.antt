-- ===== src/Basic/RoundTrip.antt =====
-- Tokenizing the statements of a line and detokenizing them gives the text back.
use mathlib.Core.Path.{subst}
use xroar_dev.Base.{
  ℕ, zero, suc, ◌+◌, ◌≤◌, ◌<◌, ◌≡◌, refl, sym, ap, ◌∙◌, List, [], ◌∷◌, ◌++◌, arith, length,
  length-append,
}
use xroar_dev.Basic.{Mode, Step, body_step, tokenize_body, detokenize_step, detokenize_body}
use xroar_dev.Basic.Match.{
  IsClean, Emits, character, statement, apostrophe, function, body_step-Emits, TableEntry,
  IsClean-append,
}
use xroar_dev.Basic.Tables.{coco_statements, coco_functions}
use xroar_dev.Basic.Heads.{
  step_literal, step_statement, step_function, body_cons, emitted, first_safe, nonempty_entry,
  statements_nonempty, functions_nonempty, entry_shorter,
}

-- What the rest of a line comes back as.
abbrev Returns : ℕ → ℕ → List ℕ → Type 0
Returns fuel bound after =
    (fuel' : ℕ) (mode : Mode) (text : List ℕ)
    → length text ≤ fuel
    → fuel' ≤ bound
    → length (tokenize_body fuel mode text) < fuel'
    → IsClean text
    → detokenize_body fuel' (emitted fuel mode text after) ≡ (text, after)

module _ (c : ℕ) (cs : List ℕ) (fuel : ℕ) (after : List ℕ) (few : suc (length cs) ≤ suc fuel)
    (clean : IsClean (c ∷ cs)) where
  rest-IsClean : (kw rest : List ℕ) → c ∷ cs ≡ kw ++ rest → IsClean rest
  rest-IsClean kw rest e = IsClean-append kw rest (subst IsClean e clean)

  apostrophe_back :
      (fuel' : ℕ) (mode : Mode) (rest : List ℕ)
      → Returns fuel fuel' after
      → suc (suc (length (tokenize_body fuel mode rest))) < suc fuel'
      → TableEntry coco_statements (c ∷ cs) 3 rest
      → detokenize_body (suc fuel') (0x3A ∷ 0x83 ∷ emitted fuel mode rest after) ≡ (c ∷ cs, after)
  apostrophe_back zero mode rest ih long entry = absurd (omega arith)
  apostrophe_back (suc f) mode rest ih long (kw, at, text, _) =
      let short =
        entry_shorter (c ∷ cs) kw rest fuel text
          (nonempty_entry coco_statements 3 kw statements_nonempty at) few in
      let tail = emitted fuel mode rest after in
      body_cons (suc f) 0x3A (0x83 ∷ tail) (0x83 ∷ tail) [] (kw ++ rest) after (omega arith)
        (unfold detokenize_step in refl)
        (body_cons f 0x83 tail tail kw rest after (omega arith)
          (step_statement 3 kw tail (omega arith) at)
          (ih f mode rest short (omega arith) (omega arith) (rest-IsClean kw rest text)))
      ∙ ap (λ t. (t, after)) (sym text)

  -- One round of the tokenizer, undone.
  round_back :
      (fuel' : ℕ) (s : Step)
      → Emits c cs s
      → Returns fuel fuel' after
      → length (s.out ++ tokenize_body fuel s.mode s.rest) < suc fuel'
      → detokenize_body (suc fuel') ((s.out ++ tokenize_body fuel s.mode s.rest) ++ 0x00 ∷ after)
        ≡ (c ∷ cs, after)
  round_back fuel' s (character e r) ih long =
      let long' : length (tokenize_body fuel s.mode s.rest) < fuel' =
        omega (arith, ap length e, length-append s.out (tokenize_body fuel s.mode s.rest)) in
      let short : length s.rest ≤ fuel = omega (arith, ap length r) in
      let clean' : IsClean s.rest = subst IsClean (sym r) clean.4 in
      rw e (
        body_cons fuel' c (emitted fuel s.mode s.rest after) _ (c ∷ []) s.rest after
          (omega (arith, clean.0))
          (step_literal c (emitted fuel s.mode s.rest after) clean.1
            (λ colon. first_safe fuel s.mode s.rest after short clean' (rw r (clean.3 colon))))
          (ih fuel' s.mode s.rest short (omega arith) long' clean')
        ∙ ap (λ t. (c ∷ t, after)) r)
  round_back fuel' s (apostrophe e entry) ih long = rw e (
      apostrophe_back fuel' s.mode s.rest ih
        (omega (arith, ap length e, length-append s.out (tokenize_body fuel s.mode s.rest))) entry)
  round_back fuel' s (statement k lt ne e (kw, at, text, _)) ih long =
      let tail = emitted fuel s.mode s.rest after in
      let long' : length (tokenize_body fuel s.mode s.rest) < fuel' =
        omega (arith, ap length e, length-append s.out (tokenize_body fuel s.mode s.rest)) in
      let short =
        entry_shorter (c ∷ cs) kw s.rest fuel text
          (nonempty_entry coco_statements k kw statements_nonempty at) few in
      rw e (
        body_cons fuel' (0x80 + k) tail tail kw s.rest after (omega arith)
          (step_statement k kw tail lt at)
          (ih fuel' s.mode s.rest short (omega arith) long' (rest-IsClean kw s.rest text))
        ∙ ap (λ t. (t, after)) (sym text))
  round_back fuel' s (function k lt e (kw, at, text, _)) ih long =
      let tail = emitted fuel s.mode s.rest after in
      let long' : length (tokenize_body fuel s.mode s.rest) < fuel' =
        omega (arith, ap length e, length-append s.out (tokenize_body fuel s.mode s.rest)) in
      let short =
        entry_shorter (c ∷ cs) kw s.rest fuel text
          (nonempty_entry coco_functions k kw functions_nonempty at) few in
      rw e (
        body_cons fuel' 0xFF ((0x80 + k) ∷ tail) tail kw s.rest after (omega arith)
          (step_function k kw tail lt at)
          (ih fuel' s.mode s.rest short (omega arith) long' (rest-IsClean kw s.rest text))
        ∙ ap (λ t. (t, after)) (sym text))

returns : (fuel bound : ℕ) (after : List ℕ) → Returns fuel bound after
unfolding tokenize_body detokenize_body
returns fuel bound after zero mode text few le long clean = absurd (omega arith)
returns zero bound after (suc fuel') mode [] few le long clean = refl
returns (suc fuel) bound after (suc fuel') mode [] few le long clean = refl
returns zero bound after (suc fuel') mode (c ∷ cs) few le long clean = absurd (omega arith)
returns (suc fuel) bound after (suc fuel') mode (c ∷ cs) few le long clean =
    round_back c cs fuel after few clean fuel' (body_step mode c cs)
      (body_step-Emits mode c cs clean.1 clean.2) (returns fuel fuel' after) long

-- The detokenizer gives back the body of a line from its tokens, whatever mode it begins in and
-- whatever lines follow, for a text of 7-bit characters without NUL, question mark and ELSE straight
-- after a colon, with fuel for its length and that of its tokens.
pub detokenize_body-tokenize_body :
    (fuel fuel' : ℕ) (mode : Mode) (text after : List ℕ)
    → length text ≤ fuel
    → length (tokenize_body fuel mode text) < fuel'
    → IsClean text
    → detokenize_body fuel' (tokenize_body fuel mode text ++ 0x00 ∷ after) ≡ (text, after)
detokenize_body-tokenize_body fuel fuel' mode text after few long clean =
    returns fuel fuel' after fuel' mode text few (omega arith) long clean
