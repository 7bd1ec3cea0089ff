-- ===== src/Segments/Tests.antt =====
-- A binary of two segments that meet, and the theorems at it.
use xroar_dev.Base.{ℕ, ◌+◌, ◌/◌, ◌%◌, ◌<◌, ◌≡◌, refl, none, List, [], ◌∷◌, arith}
use xroar_dev.Segments.{
  sum, Segment, parse_decb_segments, empty_ram, load_segments, emit_segments, binconcat, Srec,
  srec_record,
}
use xroar_dev.Error.{ok}
use xroar_dev.Segments.Runs.{binconcat_same_image}
use xroar_dev.Segments.Parse.{parse-emit}
use xroar_dev.Segments.Ends.{srec_record_sums}

abbrev two_segments : List Segment
two_segments = (0x1000, 1 ∷ 2 ∷ []) ∷ (0x1002, 3 ∷ []) ∷ []

-- Two segments, and 0x1000 as exec address.
abbrev binary : List ℕ
binary = 0 ∷ 0 ∷ 2 ∷ 0x10 ∷ 0 ∷ 1 ∷ 2 ∷ 0 ∷ 0 ∷ 1 ∷ 0x10 ∷ 2 ∷ 3 ∷ 0xFF ∷ 0 ∷ 0 ∷ 0x10 ∷ 0 ∷ []

binary_parses : parse_decb_segments binary ≡ ok (two_segments, 0x1000)
unfolding parse_decb_segments
binary_parses = refl

no_byte_at_zero : load_segments empty_ram two_segments 0 ≡ none
unfolding load_segments
no_byte_at_zero = refl

parse-emit_example :
    parse_decb_segments (emit_segments two_segments 0x1000) ≡ ok (two_segments, 0x1000)
parse-emit_example = parse-emit two_segments 0x1000 (omega arith) (omega arith)

binconcat_same_image_example :
    (out : List ℕ) × (segs' : List Segment) × (binconcat binary ≡ ok out)
    × (parse_decb_segments out ≡ ok (segs', 0x1000))
    × ((k : ℕ)
        → k < 0x10000
        → load_segments empty_ram segs' k ≡ load_segments empty_ram two_segments k)
binconcat_same_image_example =
    binconcat_same_image binary two_segments 0x1000 0 binary_parses (omega arith) (omega arith)
      no_byte_at_zero

abbrev one_record : Srec
one_record = srec_record 0x1000 (1 ∷ 2 ∷ [])

srec_record_sums_example :
    (one_record.count
        + one_record.addr / 256
        + one_record.addr % 256
        + sum one_record.bytes
        + one_record.checksum)
      % 256
    ≡ 0xFF
srec_record_sums_example = srec_record_sums 0x1000 (1 ∷ 2 ∷ [])
