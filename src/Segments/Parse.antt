-- ===== src/Segments/Parse.antt =====
-- Emitted segments are parsed back.
use xroar_dev.Base.{
  ℕ, zero, suc, ◌+◌, ◌*◌, ◌/◌, ◌%◌, ◌<◌, ◌≡◌, false, List, [], ◌∷◌, ◌++◌, arith, ltb, le→ltb_false,
  length, length-append, take-append, drop-append, All,
}
use xroar_dev.Error.{ok}
use xroar_dev.Segments.{Segment, parse_from, parse_decb_segments, emit_segment, emit_segments}

-- What the two 16-bit fields of a preamble can hold.
abbrev pub FitsHeader : Segment → Type 0
FitsHeader (addr, bytes) = (addr < 0x10000) × (length bytes < 0x10000)

word : (n : ℕ) → n < 0x10000 → (n / 256) % 256 * 256 + n % 256 ≡ n
word n h = omega arith

length-emit_segment : (seg : Segment) → length (emit_segment seg) ≡ 5 + length seg.1
unfolding emit_segment
length-emit_segment (addr, bytes) = omega arith

pub parse-emit_from :
    (fuel : ℕ) (segs : List Segment) (exec_addr : ℕ)
    → length (emit_segments segs exec_addr) < fuel
    → All FitsHeader segs
    → exec_addr < 0x10000
    → parse_from fuel (emit_segments segs exec_addr) ≡ ok (segs, exec_addr)
unfolding emit_segments parse_from
parse-emit_from zero segs exec_addr few h e = absurd (omega arith)
parse-emit_from (suc fuel) [] exec_addr few h e = rw (word exec_addr e)
parse-emit_from (suc fuel) ((addr, bytes) ∷ segs) exec_addr few h e =
    let rest = emit_segments segs exec_addr in
    let shorter : length rest < fuel = omega (arith, length-append bytes rest) in
    let ih = parse-emit_from fuel segs exec_addr shorter h.1 e in
    let inside : ltb (length (bytes ++ rest)) (length bytes) ≡ false =
      le→ltb_false (length (bytes ++ rest)) (length bytes)
        (omega (arith, length-append bytes rest)) in
    rw
      (
        word addr h.0.0,
        word (length bytes) h.0.1,
        inside,
        drop-append bytes rest,
        take-append bytes rest,
        ih,
      )
      (ground arith)

-- Parsing what was emitted gives the segments and the exec address back, when addresses and lengths
-- fit 16 bits.
pub parse-emit :
    (segs : List Segment) (exec_addr : ℕ)
    → All FitsHeader segs
    → exec_addr < 0x10000
    → parse_decb_segments (emit_segments segs exec_addr) ≡ ok (segs, exec_addr)
unfolding parse_decb_segments
parse-emit segs exec_addr h e =
    parse-emit_from (length (emit_segments segs exec_addr) + 1) segs exec_addr (omega arith) h e
