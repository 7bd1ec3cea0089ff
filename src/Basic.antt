-- ===== src/Basic.antt =====
-- The Color BASIC tokenizer and detokenizer of tools/decb.py, on the code points of a Latin-1 text.
pub mod Tables
pub mod Match
pub mod Heads
pub mod RoundTrip
mod Tests
use xroar_dev.Base.{
  ℕ, zero, suc, ◌+◌, ◌-◌, ◌*◌, ◌/◌, ◌%◌, Bool, not, ◌&&◌, ◌||◌, Option, none, some, List, [], ◌∷◌,
  ◌++◌, ltb, leb, ◌==◌, if◌then◌else◌, length, get_elem?, get_or, drop,
}
use xroar_dev.Error.{Result, truncated_header, header_too_long, ok, ◌>>◌, die_if}
use Tables.{coco_statements, coco_functions, tok_print, tok_rem, tok_apos, tok_data, txttab}
use xroar_dev.Gat.Chain.{table}

-- `_split_basic_lines`: a line ends at each CR or LF, and an unfinished last line counts.
abbrev pub cons_line : ℕ → List (List ℕ) → List (List ℕ)
cons_line c [] = (c ∷ []) ∷ []
cons_line c (line ∷ lines) = (c ∷ line) ∷ lines

unfoldable pub split_basic_lines : List ℕ → List (List ℕ)
split_basic_lines [] = []
split_basic_lines (c ∷ cs) =
    let lines = split_basic_lines cs in
    if (c == 0x0D) || (c == 0x0A) then [] ∷ lines else cons_line c lines

-- `raw.startswith(kw, pos)`, with what follows the keyword.
unfoldable pub strip_prefix : List ℕ → List ℕ → Option (List ℕ)
strip_prefix [] text = some text
strip_prefix (k ∷ kw) [] = none
strip_prefix (k ∷ kw) (c ∷ text) = if k == c then strip_prefix kw text else none

-- The first keyword of a table that the text begins with, and its index.
unfoldable pub find_keyword : List (List ℕ) → ℕ → List ℕ → Option (ℕ × List ℕ)
unfolding strip_prefix
find_keyword [] j text = none
find_keyword (kw ∷ table) j text = elim (strip_prefix kw text) [
  | some rest ↦ some (j, rest)
  | none ↦ find_keyword table (j + 1) text
]

-- `in_quotes`, `in_remark` and `in_data`, of which at most one is set.
pub data Mode : Type 0 where
  plain quotes remark literal : Mode

-- What one round of `_tokenize_body` appends, the flags after it, and the text left.
pub record Step : Type 0 where
  pub out : List ℕ
  pub mode : Mode
  pub rest : List ℕ

-- A statement token; `'` is stored behind a colon.
unfoldable pub statement_step : ℕ → List ℕ → Step
statement_step value rest = record {
  out = if value == tok_apos then 0x3A ∷ value ∷ [] else value ∷ [];
  mode =
      if (value == tok_rem) || (value == tok_apos)
      then remark
      else if value == tok_data
      then literal
      else plain;
  rest = rest;
}

unfoldable pub plain_step : ℕ → List ℕ → Step
unfolding find_keyword statement_step
plain_step c cs =
    if c == b'"'
    then record { out = 0x22 ∷ []; mode = quotes; rest = cs }
    else if c == b'?'
    then record { out = tok_print ∷ []; mode = plain; rest = cs }
    else elim (find_keyword coco_statements 0 (c ∷ cs)) [
      | some (j, rest) ↦ statement_step ((0x80 + j) % 256) rest
      | none ↦ elim (find_keyword coco_functions 0 (c ∷ cs)) [
        | some (j, rest) ↦ record { out = 0xFF ∷ (0x80 + j) % 256 ∷ []; mode = plain; rest = rest }
        | none ↦ record { out = c % 256 ∷ []; mode = plain; rest = cs }
      ]
    ]

unfoldable pub body_step : Mode → ℕ → List ℕ → Step
unfolding plain_step
body_step remark c cs = record { out = c % 256 ∷ []; mode = remark; rest = cs }
body_step literal c cs = record {
  out = c % 256 ∷ [];
  mode = if c == b':' then plain else literal;
  rest = cs;
}
body_step quotes c cs = record {
  out = c % 256 ∷ [];
  mode = if c == b'"' then plain else quotes;
  rest = cs;
}
body_step plain c cs = plain_step c cs

-- `_tokenize_body`; each round takes at least one character, so the text's length is fuel enough.
unfoldable pub tokenize_body : ℕ → Mode → List ℕ → List ℕ
unfolding body_step
tokenize_body zero mode text = []
tokenize_body (suc fuel) mode [] = []
tokenize_body (suc fuel) mode (c ∷ cs) =
    let s = body_step mode c cs in s.out ++ tokenize_body fuel s.mode s.rest

-- `str.isdigit` on Latin-1: three superscripts count.
unfoldable pub is_digit : ℕ → Bool
is_digit c = (leb b'0' c && leb c b'9') || (c == 0xB2) || (c == 0xB3) || (c == 0xB9)

-- The line number so far, and the text behind it.
unfoldable pub line_number : ℕ → List ℕ → ℕ × List ℕ
unfolding is_digit
line_number n [] = (n, [])
line_number n (c ∷ cs) =
    let deeper = line_number ((n * 10 + (c - 48)) % 0x10000) cs in
    if is_digit c then deeper else (n, c ∷ cs)

unfoldable pub skip_blanks : List ℕ → List ℕ
skip_blanks [] = []
skip_blanks (c ∷ cs) =
    let rest = skip_blanks cs in
    if (c == b' ') || (c == 0x09) || (c == 0x0B) || (c == 0x0C) then rest else c ∷ cs

-- One line of the program, which `position` bytes precede; a line with no number is dropped.
unfoldable pub tokenize_line : ℕ → List ℕ → List ℕ
unfolding line_number skip_blanks tokenize_body is_digit
tokenize_line position [] = []
tokenize_line position (c ∷ cs) =
    if is_digit c
    then (let (number, text) = line_number 0 (c ∷ cs) in
        let raw = skip_blanks text in
        let body = tokenize_body (length raw) plain raw in
        let link = (txttab + position + (4 + length body + 1)) % 0x10000 in
        (link / 256) % 256 ∷ link % 256 ∷ (number / 256) % 256 ∷ number % 256 ∷ body ++ 0x00 ∷ [])
    else []

unfoldable pub tokenize_lines : ℕ → List (List ℕ) → List ℕ
unfolding tokenize_line
tokenize_lines position [] = []
tokenize_lines position (raw ∷ lines) =
    let line = tokenize_line position raw in line ++ tokenize_lines (position + length line) lines

unfoldable pub tokenize_cocobas : List ℕ → List ℕ
unfolding tokenize_lines split_basic_lines
tokenize_cocobas text =
    let program = tokenize_lines 0 (split_basic_lines text) ++ 0x00 ∷ 0x00 ∷ [] in
    let len = length program % 0x10000 in 0xFF ∷ (len / 256) % 256 ∷ len % 256 ∷ program

-- A table entry, or "!" for a token with none.
unfoldable pub token_text : List (List ℕ) → ℕ → List ℕ
token_text table index = elim (get_elem? table index) [ some kw ↦ kw | none ↦ b'!' ∷ [] ]

-- One token of `detokenize_cocobas`: the text, and the bytes left. A function token below 0x80 has no
-- table entry.
unfoldable pub detokenize_step : ℕ → List ℕ → List ℕ × List ℕ
unfolding token_text
detokenize_step ch [] =
    if ch == 0xFF
    then ([], [])
    else if leb 0x80 ch
    then (token_text coco_statements (ch - 0x80), [])
    else (ch ∷ [], [])
detokenize_step ch (b ∷ rest) =
    if ch == 0xFF
    then ((if leb 0x80 b then token_text coco_functions (b - 0x80) else b'!' ∷ []), rest)
    else if leb 0x80 ch
    then (token_text coco_statements (ch - 0x80), b ∷ rest)
    else if (ch == 0x3A) && ((b == tok_apos) || (b == 0x84))
    then ([], b ∷ rest)
    else (ch ∷ [], b ∷ rest)

-- The statements of one line, up to and without its 00; the length of the data is fuel enough.
unfoldable pub detokenize_body : ℕ → List ℕ → List ℕ × List ℕ
unfolding detokenize_step
detokenize_body zero bytes = ([], bytes)
detokenize_body (suc fuel) [] = ([], [])
detokenize_body (suc fuel) (ch ∷ rest) =
    let (out, left) = detokenize_step ch rest in
    let (outs, after) = detokenize_body fuel left in
    if ch == 0x00 then ([], rest) else (out ++ outs, after)

-- `%d` of a number below 100,000.
unfoldable pub decimal : ℕ → ℕ → List ℕ
decimal zero n = []
decimal (suc places) n =
    let high = decimal places (n / 10) in
    if ltb n 10 then (48 + n) ∷ [] else high ++ (48 + n % 10) ∷ []

unfoldable pub detokenize_lines : ℕ → List ℕ → List ℕ
unfolding detokenize_body decimal
detokenize_lines zero bytes = []
detokenize_lines (suc fuel) (l₁ ∷ l₂ ∷ n₁ ∷ n₂ ∷ bytes) =
    let (body, rest) = detokenize_body (length bytes) bytes in
    let lines = detokenize_lines fuel rest in
    if l₁ * 256 + l₂ == 0 then [] else decimal 5 (n₁ * 256 + n₂) ++ b' ' ∷ body ++ 0x0A ∷ lines
detokenize_lines (suc fuel) bytes = []

unfoldable pub detokenize_cocobas : List ℕ → Result (List ℕ)
unfolding detokenize_lines
detokenize_cocobas bytes =
    let body = detokenize_lines (length bytes) in
    if not (get_or bytes 0 0 == 0xFF) then ok (body bytes) else do
      die_if (ltb (length bytes) 5) truncated_header
      die_if (ltb (length bytes - 3) (get_or bytes 1 0 * 256 + get_or bytes 2 0)) header_too_long
      ok (body (drop 3 bytes))
