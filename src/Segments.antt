-- ===== src/Segments.antt =====
-- DECB segmented binaries: parsing, `copy -c` and `list -s` of tools/decb.py.
pub mod Parse
pub mod Runs
pub mod Ends
mod Tests
use xroar_dev.Base.{
  ℕ, zero, suc, ◌+◌, ◌-◌, ◌*◌, ◌/◌, ◌%◌, true, false, not, Option, none, some, List, [], ◌∷◌, ◌++◌,
  ltb, ◌==◌, if◌then◌else◌, length, get_or, take, drop,
}
use xroar_dev.Error.{
  Result, out_of_fuel, no_postamble, truncated_postamble, truncated_preamble, segment_past_end,
  bad_preamble, ok, err, ◌>>=◌,
}

-- A load address and the bytes that go there.
abbrev pub Segment : Type 0
Segment = ℕ × List ℕ

-- The loop of `parse_decb_segments` on the bytes from `pos` on; a round takes five bytes at least.
unfoldable pub parse_from : ℕ → List ℕ → Result (List Segment × ℕ)
parse_from zero bytes = err out_of_fuel
parse_from (suc fuel) [] = err no_postamble
parse_from (suc fuel) (t ∷ rest) =
    let len = get_or rest 0 0 * 256 + get_or rest 1 0 in
    let addr = get_or rest 2 0 * 256 + get_or rest 3 0 in
    let more = parse_from fuel (drop len (drop 4 rest)) in
    if t == 0xFF
    then (if ltb (length rest) 4 then err truncated_postamble else ok ([], addr))
    else if not (t == 0x00)
    then err (bad_preamble t)
    else if ltb (length rest) 4
    then err truncated_preamble
    else if ltb (length (drop 4 rest)) len
    then err segment_past_end
    else do (segs, exec_addr) ← more; ok ((addr, take len (drop 4 rest)) ∷ segs, exec_addr)

unfoldable pub parse_decb_segments : List ℕ → Result (List Segment × ℕ)
unfolding parse_from
parse_decb_segments bytes = parse_from (length bytes + 1) bytes

-- The 64K image; -1 is `none`.
abbrev pub Ram : Type 0
Ram = ℕ → Option ℕ

abbrev pub empty_ram : Ram
empty_ram = λ k. none

unfoldable pub load_bytes : Ram → ℕ → List ℕ → Ram
load_bytes ram addr [] = ram
load_bytes ram addr (b ∷ bytes) =
    load_bytes (λ k. if k == addr % 0x10000 then some b else ram k) (addr + 1) bytes

unfoldable pub load_segments : Ram → List Segment → Ram
unfolding load_bytes
load_segments ram [] = ram
load_segments ram ((addr, bytes) ∷ segs) = load_segments (load_bytes ram addr bytes) segs

-- `ram[i:j]`, for the largest `j` up to which all addresses are occupied, `n` of them at most.
unfoldable pub run_bytes : Ram → ℕ → ℕ → List ℕ
run_bytes ram zero i = []
run_bytes ram (suc n) i = elim (ram i) [ none ↦ [] | some b ↦ b ∷ run_bytes ram n (i + 1) ]

-- The runs from address `i` on; each round passes an address.
unfoldable pub runs : ℕ → Ram → ℕ → List Segment
unfolding run_bytes
runs zero ram i = []
runs (suc fuel) ram i = elim (ltb i 0x10000) [
  | false ↦ []
  | true ↦ elim (ram i) [
    | none ↦ runs fuel ram (i + 1)
    | some b ↦
        let bytes = run_bytes ram (0x10000 - i) i in (i, bytes) ∷ runs fuel ram (i + length bytes)
  ]
]

unfoldable pub emit_segment : Segment → List ℕ
emit_segment (addr, bytes) =
    0x00 ∷ (length bytes / 256) % 256 ∷ length bytes % 256 ∷ (addr / 256) % 256 ∷ addr % 256 ∷ bytes

unfoldable pub emit_segments : List Segment → ℕ → List ℕ
unfolding emit_segment
emit_segments [] exec_addr = 0xFF ∷ 0x00 ∷ 0x00 ∷ (exec_addr / 256) % 256 ∷ exec_addr % 256 ∷ []
emit_segments (seg ∷ segs) exec_addr = emit_segment seg ++ emit_segments segs exec_addr

unfoldable pub binconcat : List ℕ → Result (List ℕ)
unfolding parse_decb_segments load_segments runs emit_segments
binconcat bytes = do
  (segs, exec_addr) ← parse_decb_segments bytes
  ok (emit_segments (runs 0x10001 (load_segments empty_ram segs) 0) exec_addr)

-- An S1 or S9 record: byte count, address, data, checksum.
pub record Srec : Type 0 where
  pub count : ℕ
  pub addr : ℕ
  pub bytes : List ℕ
  pub checksum : ℕ

unfoldable pub sum : List ℕ → ℕ
sum [] = 0
sum (b ∷ bytes) = b + sum bytes

-- `(0xFF - total) & 0xFF`, also where `total` is larger.
unfoldable pub srec_record : ℕ → List ℕ → Srec
unfolding sum
srec_record a chunk =
    let count = length chunk + 3 in
    let total = count + a / 256 + a % 256 + sum chunk in
    record { count = count; addr = a; bytes = chunk; checksum = 0xFF - total % 256 }

-- The S1 records of one segment; `n` rounds of 32 bytes.
unfoldable pub srec_chunks : ℕ → ℕ → List ℕ → List Srec
unfolding srec_record
srec_chunks zero addr bytes = []
srec_chunks (suc n) addr [] = []
srec_chunks (suc n) addr (b ∷ bytes) =
    srec_record (addr % 0x10000) (take 32 (b ∷ bytes))
    ∷ srec_chunks n (addr + 32) (drop 32 (b ∷ bytes))

unfoldable pub srec_segments : List Segment → List Srec
unfolding srec_chunks
srec_segments [] = []
srec_segments ((addr, bytes) ∷ segs) = srec_chunks (length bytes) addr bytes ++ srec_segments segs

abbrev pub hex_digit : ℕ → ℕ
hex_digit n = if ltb n 10 then b'0' + n else b'A' + (n - 10)

-- `%02X` of a byte.
abbrev pub hex_byte : ℕ → List ℕ
hex_byte b = hex_digit (b / 16) ∷ hex_digit (b % 16) ∷ []

unfoldable pub hex_bytes : List ℕ → List ℕ
hex_bytes [] = []
hex_bytes (b ∷ bytes) = hex_byte b ++ hex_bytes bytes

-- One line, `S1` or `S9`.
unfoldable pub srec_line : ℕ → Srec → List ℕ
unfolding hex_bytes
srec_line kind r =
    b'S' ∷ kind ∷ hex_bytes (r.count ∷ r.addr / 256 ∷ r.addr % 256 ∷ r.bytes ++ r.checksum ∷ [])
    ++ 0x0A ∷ []

unfoldable pub srec_lines : List Srec → ℕ → List ℕ
unfolding srec_line
srec_lines [] exec_addr = srec_line b'9' (srec_record exec_addr [])
srec_lines (r ∷ rs) exec_addr = srec_line b'1' r ++ srec_lines rs exec_addr

unfoldable pub srec_encode : List ℕ → Result (List ℕ)
unfolding parse_decb_segments srec_segments srec_lines srec_record
srec_encode bytes = do
  (segs, exec_addr) ← parse_decb_segments bytes
  ok (srec_lines (srec_segments segs) exec_addr)
