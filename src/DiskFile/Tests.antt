-- ===== src/DiskFile/Tests.antt =====
-- Runs on a new disk, and the theorems of this part at concrete inputs.
use xroar_dev.Base.{ℕ, ◌*◌, ◌≡◌, refl, false, List, [], ◌∷◌, arith}
use xroar_dev.Error.{Result, file_exists, ok, err}
use xroar_dev.Image.{Image, IsBytes, get, put, slice, splice}
use xroar_dev.Geometry.{sector, spt, num_granules}
use xroar_dev.View.{IsView}
use xroar_dev.DiskFile.{read_file, write_file, allocation}
use xroar_dev.DiskFile.RoundTrip.{read_file-write_file}
use xroar_dev.DiskFile.Allocation.{Covers, allocation-Covers}

abbrev disk : Image
disk = record { size = 35 * spt * sector; byte = λ k. 0xFF }

disk-IsView : IsView disk 0 35
unfolding num_granules
disk-IsView = record { fits = omega arith; has_directory = omega arith; links = omega arith }

disk-IsBytes : IsBytes disk
disk-IsBytes = record { at = λ i. omega arith }

-- "hi.bas"
abbrev hello : List ℕ
hello = b'h' ∷ b'i' ∷ b'.' ∷ b'b' ∷ b'a' ∷ b's' ∷ []

abbrev or_blank : Result Image → Image
or_blank (ok d) = d
or_blank (err e) = disk

abbrev written : Image
written = or_blank (write_file disk hello (1 ∷ 2 ∷ 3 ∷ []) 0 0xFF false 0 35)

write_file_runs : write_file disk hello (1 ∷ 2 ∷ 3 ∷ []) 0 0xFF false 0 35 ≡ ok written
unfolding write_file put get slice splice
write_file_runs = refl

write_again_refused : write_file written hello (4 ∷ []) 0 0xFF false 0 35 ≡ err file_exists
unfolding write_file put get slice splice
write_again_refused = refl

read_file-write_file_example : read_file written hello 0 35 ≡ ok (1 ∷ 2 ∷ 3 ∷ [], 0, 0xFF)
read_file-write_file_example =
    read_file-write_file disk hello (1 ∷ 2 ∷ 3 ∷ []) 0 0xFF false 0 35 disk-IsView disk-IsBytes
      (omega arith) write_file_runs

-- A file of 2,305 bytes takes two granules, one sector of the second.
allocation-Covers_example : Covers 2305 (allocation 2305).0 (allocation 2305).1
allocation-Covers_example = allocation-Covers 2305
