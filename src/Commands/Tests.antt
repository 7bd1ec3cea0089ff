-- ===== src/Commands/Tests.antt =====
-- Commands on a disk that holds two files.
use mathlib.Core.Path.{subst}
use xroar_dev.Base.{
  ℕ, ◌+◌, ◌-◌, ◌*◌, ◌≤◌, ◌<◌, ◌≡◌, refl, sym, ap, ◌∙◌, ◌≢◌, false, ◌&&◌, ◌||◌, none, some, List, [],
  ◌∷◌, arith, ltb, ◌==◌, if◌then◌else◌, length, get_or, All,
}
use xroar_dev.Geometry.{sector, spt, free, deleted, gat_offset, num_granules}
use xroar_dev.Names.{encode_name}
use xroar_dev.Directory.{find_entry, find_dir_entry}
use xroar_dev.Image.{Image, IsBytes, get, put, slice, splice}
use xroar_dev.View.{IsView}
use xroar_dev.DiskFile.{read_file, write_file, allocation, clear_slot}
use xroar_dev.Error.{Result, unsupported_header, ok, err, ok-injective, out_of_fuel}
use xroar_dev.Gat.{chain_granules, find_free_granules}
use xroar_dev.DiskFile.Same.{FileAt}
use xroar_dev.Gat.Chain.{table}
use xroar_dev.Commands.Kill.{kill_file_frees, read_file-kill_file}
use xroar_dev.Commands.Edit.{kill_file, rename_file}
use xroar_dev.DiskFile.Others.{read_file-write_file_other}
use xroar_dev.Commands.Rename.{read_file-rename_file, read_file-rename_file_other}
use xroar_dev.Commands.Succeeds.{kill_file_succeeds, write_file_succeeds}
use xroar_dev.Commands.Check.{check_image, follow}
use xroar_dev.Commands.Check.Clean.{TableByte, check_image_clean_table, follow_terminates}
use xroar_dev.Commands.Load.{Located, load_disk, load_view}
use xroar_dev.Commands.Load.Fits.{load_disk_fits}
use xroar_dev.Text.{pos, negsuc}

abbrev new_disk : Image
new_disk = record { size = 35 * spt * sector; byte = λ k. 0xFF }

-- "A" and "B"
abbrev name_a : List ℕ
name_a = 65 ∷ []

abbrev name_b : List ℕ
name_b = 66 ∷ []

abbrev field_a : List ℕ
field_a = 65 ∷ 32 ∷ 32 ∷ 32 ∷ 32 ∷ 32 ∷ 32 ∷ 32 ∷ 32 ∷ 32 ∷ 32 ∷ []

abbrev field_b : List ℕ
field_b = 66 ∷ 32 ∷ 32 ∷ 32 ∷ 32 ∷ 32 ∷ 32 ∷ 32 ∷ 32 ∷ 32 ∷ 32 ∷ []

abbrev or_new : Result Image → Image
or_new (ok d) = d
or_new (err e) = new_disk

-- The two entries and their granules, as `write_file` leaves them.
abbrev two_files : Image
two_files = record {
  size = 35 * spt * sector;
  byte = λ k.
      if (k == 78859) || (k == 78891)
      then 0
      else if k == 78592
      then 0xC1
      else if k == 78593
      then 0xC1
      else if k == 78848
      then 65
      else if k == 78880
      then 66
      else if ltb 78848 k && ltb k 78859
      then 32
      else if ltb 78880 k && ltb k 78891
      then 32
      else if k == 78861
      then 0
      else if k == 78893
      then 1
      else if k == 78862
      then 0
      else if k == 78894
      then 0
      else if k == 78863
      then 5
      else if k == 78895
      then 7
      else 0xFF;
}

two_files-IsView : IsView two_files 0 35
unfolding num_granules
two_files-IsView = record { fits = omega arith; has_directory = omega arith; links = omega arith }

two_files-IsBytes : IsBytes two_files
two_files-IsBytes = record { at = λ i. ground arith }

a_encodes : encode_name name_a ≡ ok field_a
unfolding encode_name
a_encodes = refl

b_encodes : encode_name name_b ≡ ok field_b
unfolding encode_name
b_encodes = refl

file_a : FileAt two_files 0 35 field_a 78848 (0 ∷ []) 0xC1
unfolding find_entry chain_granules get slice num_granules
file_a = record { found = refl; chain = refl }

file_b : FileAt two_files 0 35 field_b 78880 (1 ∷ []) 0xC1
unfolding find_entry chain_granules get slice num_granules
file_b = record { found = refl; chain = refl }

fields_differ : field_a ≢ field_b
fields_differ h =
    let heads : get_or field_a 0 0 ≡ get_or field_b 0 0 = ap (λ l. get_or l 0 0) h in omega arith

abbrev killed_a : Image
killed_a = or_new (kill_file two_files name_a 0 35)

kill_runs : kill_file two_files name_a 0 35 ≡ ok killed_a
unfolding kill_file get put slice
kill_runs = refl

kill_file_frees_example :
    (killed_a.byte 78848 ≡ deleted)
    × All (λ g. table killed_a (gat_offset 0) g ≡ free) (0 ∷ [])
    × ((g : ℕ)
        → g < num_granules 35
        → All (λ x. g ≢ x) (0 ∷ [])
        → table killed_a (gat_offset 0) g ≡ table two_files (gat_offset 0) g)
kill_file_frees_example =
    kill_file_frees two_files name_a field_a 0 35 78848 (0 ∷ []) 0xC1 two_files-IsView
      two_files-IsBytes a_encodes file_a kill_runs

read_file-kill_file_example : read_file killed_a name_b 0 35 ≡ read_file two_files name_b 0 35
read_file-kill_file_example =
    read_file-kill_file two_files name_a field_a 0 35 78848 (0 ∷ []) 0xC1 name_b field_b 78880
      (1 ∷ []) 0xC1 two_files-IsView two_files-IsBytes a_encodes file_a b_encodes file_b
      fields_differ (omega arith) kill_runs

-- "C", which the disk does not hold.
abbrev name_c : List ℕ
name_c = 67 ∷ []

abbrev field_c : List ℕ
field_c = 67 ∷ 32 ∷ 32 ∷ 32 ∷ 32 ∷ 32 ∷ 32 ∷ 32 ∷ 32 ∷ 32 ∷ 32 ∷ []

c_encodes : encode_name name_c ≡ ok field_c
unfolding encode_name
c_encodes = refl

c_absent : find_entry two_files field_c 0 ≡ ok none
unfolding find_entry get slice
c_absent = refl

abbrev three_files : Image
three_files = or_new (write_file two_files name_c (9 ∷ []) 1 0 false 0 35)

write_c_runs : write_file two_files name_c (9 ∷ []) 1 0 false 0 35 ≡ ok three_files
unfolding write_file put get slice splice
write_c_runs = refl

read_file-write_file_other_example :
    read_file three_files name_b 0 35 ≡ read_file two_files name_b 0 35
read_file-write_file_other_example =
    read_file-write_file_other two_files name_c field_c (9 ∷ []) 1 0 false 0 35 name_b field_b 78880
      (1 ∷ []) 0xC1 two_files-IsView two_files-IsBytes c_encodes c_absent b_encodes file_b
      (omega arith) write_c_runs

abbrev renamed_a : Image
renamed_a = or_new (rename_file two_files name_a name_c 0)

rename_runs : rename_file two_files name_a name_c 0 ≡ ok renamed_a
unfolding rename_file get slice splice
rename_runs = refl

name_c_has_no_nul : All (λ c. c ≢ 0) name_c
name_c_has_no_nul = omega arith

read_file-rename_file_example : read_file renamed_a name_c 0 35 ≡ read_file two_files name_a 0 35
read_file-rename_file_example =
    read_file-rename_file two_files 0 35 78848 name_a name_c field_a (0 ∷ []) 0xC1 two_files-IsView
      a_encodes file_a name_c_has_no_nul rename_runs

read_file-rename_file_other_example :
    read_file renamed_a name_b 0 35 ≡ read_file two_files name_b 0 35
read_file-rename_file_other_example =
    read_file-rename_file_other two_files 0 35 78848 name_a name_c field_a (0 ∷ []) 0xC1 name_b
      field_b 78880 (1 ∷ []) 0xC1 two_files-IsView a_encodes file_a b_encodes file_b fields_differ
      rename_runs

kill_file_succeeds_example : (e : Image) × (kill_file two_files name_a 0 35 ≡ ok e)
kill_file_succeeds_example =
    kill_file_succeeds two_files name_a field_a 0 35 78848 (0 ∷ []) 0xC1 two_files-IsView
      two_files-IsBytes a_encodes file_a

slot_for_c : find_dir_entry two_files field_c false 0 ≡ ok 78912
unfolding find_dir_entry get slice
slot_for_c = refl

-- One byte.
abbrev nine : List ℕ
nine = 9 ∷ []

nothing_cleared : clear_slot two_files 78912 (num_granules 35) 0 ≡ ok two_files
unfolding clear_slot get
nothing_cleared = refl

chosen_for_c :
    find_free_granules two_files (allocation (length nine)).0 (num_granules 35) 0 ≡ ok (2 ∷ [])
unfolding find_free_granules allocation num_granules get
chosen_for_c = refl

room_for_c :
    (cleared : Image)
    → clear_slot two_files 78912 (num_granules 35) 0 ≡ ok cleared
    → (grans : List ℕ) × (find_free_granules cleared
          (allocation (length nine)).0
          (num_granules 35)
          0
        ≡ ok grans)
room_for_c cleared h =
    subst
      (λ x.
        (grans : List ℕ) × (find_free_granules x (allocation (length nine)).0 (num_granules 35) 0
          ≡ ok grans))
      (ok-injective (sym nothing_cleared ∙ h)) (2 ∷ [], chosen_for_c)

write_file_succeeds_example : (e : Image) × (write_file two_files name_c nine 1 0 false 0 35 ≡ ok e)
write_file_succeeds_example =
    write_file_succeeds two_files name_c nine field_c 1 0 false 0 35 78912 two_files-IsView
      two_files-IsBytes c_encodes slot_for_c room_for_c (omega arith) (omega arith)

-- The disk of two files has no problem.
two_files_clean :
    check_image two_files 0 35 ≡ ok (record { problems = []; notes = []; deleted_entries = 0 })
unfolding check_image get slice
two_files_clean = refl

check_image_clean_table_example : TableByte (num_granules 35) (table two_files (gat_offset 0) 1)
check_image_clean_table_example =
    check_image_clean_table two_files 0 35 two_files_clean refl 1
      (unfold num_granules in omega arith)

follow_terminates_example :
    follow 4 two_files 78592 2 name_a
      (record { owner = []; visited = []; sectors = none; found = [] })
      0
    ≢ err out_of_fuel
follow_terminates_example =
    follow_terminates 4 two_files 78592 2 name_a
      (record { owner = []; visited = []; sectors = none; found = [] }) 0 (omega arith)
      (omega arith)

-- The first drive of a pack of two.
abbrev pack : Image
pack = record { size = 2 * 35 * spt * sector; byte = λ k. 0xFF }

-- The second drive, a sector before its start.
abbrev before_second : Located
before_second = record { base = pos (35 * spt * sector - sector); tracks = 35 }

pack_loads : load_disk pack (some (1, negsuc 255)) ≡ ok before_second
unfolding load_disk
pack_loads = refl

load_disk_fits_example :
    (base : ℕ) × (before_second.base ≡ pos base)
    × (base + before_second.tracks * spt * sector ≤ pack.size)
load_disk_fits_example =
    load_disk_fits pack (some (1, negsuc 255)) before_second pack_loads (omega arith)

-- A sector offset below 0 on the first drive: the base lies before the image.
before_image :
    load_disk pack (some (0, negsuc 1279)) ≡ ok (record { base = negsuc 1279; tracks = 35 })
unfolding load_disk
before_image = refl

-- A drive behind a header of two bytes, and one behind a header that it does not understand.
abbrev with_header : ℕ → Image
with_header sides = record {
  size = 18 * spt * sector + 2;
  byte = λ k. if k == 0 then 18 else if k == 1 then sides else 0xFF;
}

header_loads : load_view (with_header 1) none ≡ ok (record { base = 2; tracks = 18 })
unfolding load_view
header_loads = refl

two_sides : load_view (with_header 2) none ≡ err unsupported_header
unfolding load_view
two_sides = refl
