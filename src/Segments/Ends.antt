-- ===== src/Segments/Ends.antt =====
-- The parser of binaries ends, and the checksums of S-records.
use xroar_dev.Base.{ℕ, ◌+◌, ◌/◌, ◌%◌, ◌≡◌, List, arith}
use xroar_dev.Segments.{sum, srec_record}

-- The bytes of an S-record, its checksum among them, add up to 0xFF modulo 256.
pub srec_record_sums :
    (addr : ℕ) (chunk : List ℕ)
    → let r = srec_record addr chunk in
      (r.count + r.addr / 256 + r.addr % 256 + sum r.bytes + r.checksum) % 256 ≡ 0xFF
unfolding srec_record
srec_record_sums addr chunk = omega arith
