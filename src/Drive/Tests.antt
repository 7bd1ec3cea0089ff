-- ===== src/Drive/Tests.antt =====
-- A new drive on which a file is stored, overwritten, renamed, and stored again and killed.
use xroar_dev.Base.{ℕ, ◌≤◌, ◌<◌, ◌≡◌, refl, true, false, some, List, [], ◌∷◌, arith, length, All}
use xroar_dev.Error.{Result, err, ok}
use xroar_dev.Image.{Image, get, put, slice, splice}
use xroar_dev.Drive.{IsWell}
use xroar_dev.Geometry.{num_granules}
use xroar_dev.Dskini.{blank, new_drive}
use xroar_dev.DiskFile.{write_file, read_file}
use xroar_dev.Commands.Edit.{kill_file, rename_file}
use xroar_dev.Drive.New.{no_files, new_drive_refines}
use xroar_dev.Drive.Refines.{perform_all, after_all, perform_refines}
use xroar_dev.Drive.Contents.{
  contents, Change, write_change, kill_change, rename_change, IsValid, perform, after,
}
use xroar_dev.Names.{encode_name}
use xroar_dev.Directory.{find_entry}

abbrev name_a : List ℕ
name_a = b'A' ∷ []

abbrev pub name_b : List ℕ
name_b = b'B' ∷ []

abbrev changes : List Change
changes =
    write_change name_a (1 ∷ 2 ∷ []) 0 0xFF false
    ∷ write_change name_a (3 ∷ []) 2 0 true
    ∷ rename_change name_a name_b
    ∷ write_change name_a (4 ∷ []) 0 0 false
    ∷ kill_change name_a
    ∷ []

abbrev pub or_blank : Result Image → Image
or_blank (ok d) = d
or_blank (err e) = blank 18

abbrev fresh : Image
fresh = or_blank (new_drive 18 false (some name_a))

abbrev pub changed : Image
changed = or_blank (perform_all changes 0 18 fresh)

made : new_drive 18 false (some name_a) ≡ ok fresh
unfolding new_drive put splice
made = refl

runs : perform_all changes 0 18 fresh ≡ ok changed
unfolding write_file kill_file rename_file put get slice splice new_drive
runs = refl

short_name : (s : List ℕ) → some name_a ≡ some s → length s < 512
short_name s h = let is : name_a ≡ s = cc h in rw (← is) (omega arith)

changes-IsValid : All IsValid changes
changes-IsValid = (
  (omega arith, omega arith),
  ((omega arith, omega arith), (omega arith, ((omega arith, omega arith), (tt, tt)))),
)

few_links : num_granules 18 ≤ 0xC0
unfolding num_granules
few_links = omega arith

new_drive_refines_example :
    IsWell changed 0 18 × ((x : List ℕ) → contents changed 0 18 x ≡ after_all changes no_files x)
new_drive_refines_example =
    new_drive_refines 18 false (some name_a) changes (omega arith) few_links short_name
      changes-IsValid made runs

read_b : read_file changed name_b 0 18 ≡ ok (3 ∷ [], 2, 0)
unfolding read_file write_file kill_file rename_file put get slice splice new_drive
read_b = refl

after_changes : after_all changes no_files name_b ≡ ok (3 ∷ [], 2, 0)
unfolding encode_name
after_changes = refl

pub changed-IsWell : IsWell changed 0 18
changed-IsWell =
    (new_drive_refines 18 false (some name_a) changes (omega arith) few_links short_name
      changes-IsValid made runs).0

abbrev field_b : List ℕ
field_b = b'B' ∷ 32 ∷ 32 ∷ 32 ∷ 32 ∷ 32 ∷ 32 ∷ 32 ∷ 32 ∷ 32 ∷ 32 ∷ []

b_encodes : encode_name name_b ≡ ok field_b
unfolding encode_name
b_encodes = refl

found_b : find_entry changed field_b 0 ≡ ok (some 78848)
unfolding find_entry write_file kill_file rename_file put get slice splice new_drive
found_b = refl

abbrev changed_again : Image
changed_again = or_blank (perform (kill_change name_b) 0 18 changed)

runs_again : perform (kill_change name_b) 0 18 changed ≡ ok changed_again
unfolding write_file kill_file rename_file put get slice splice new_drive
runs_again = refl

perform_refines_example :
    IsWell changed_again 0 18
    × ((x : List ℕ)
        → contents changed_again 0 18 x ≡ after (kill_change name_b) (contents changed 0 18) x)
perform_refines_example =
    perform_refines (kill_change name_b) changed 0 18 changed_again changed-IsWell tt runs_again
