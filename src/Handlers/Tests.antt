-- ===== src/Handlers/Tests.antt =====
-- A host with one image file, on which a file is killed.
use xroar_dev.Base.{
  ℕ, ◌<◌, ◌≡◌, refl, sym, ap, ◌∙◌, ◌≢◌, ◌⊎◌, inl, inr, false, none, some, List, [], ◌∷◌, arith, ltb,
  if◌then◌else◌, lt→ltb, Bool-cases, length, list_eq,
}
use xroar_dev.Error.{cannot_open, err, ok, out_of_fuel, write_failed}
use xroar_dev.Image.{Image, get, put, slice, splice}
use xroar_dev.Handlers.{file_arg}
use xroar_dev.Handlers.Alter.{cmd_kill, cmd_rename, new_name, without_options}
use xroar_dev.Drive.Tests.{changed, changed-IsWell, name_b, or_blank}
use xroar_dev.Drive.{IsWell, IsLive, ChainAt}
use xroar_dev.Geometry.{gat_offset, num_granules}
use xroar_dev.Copy.{open_image}
use xroar_dev.Dskini.{new_drive}
use xroar_dev.Host.{Host, read_host, with_file, image_of, bytes_of, complete}
use xroar_dev.Paths.{ImagePath, split_image_path}
use xroar_dev.DiskFile.{write_file}
use xroar_dev.Basic.Tables.{codes}
use xroar_dev.Handlers.Runs.{cmd_kill_runs, cmd_rename_runs}
use xroar_dev.Handlers.Safe.{cmd_rename_atomic, Target}
use xroar_dev.Handlers.Saved.{loaded-IsWell, IsWellFile}
use xroar_dev.Handlers.Directory.{shown_file, shown_entry, count_granules}
use xroar_dev.Handlers.Refines.{Changed, cmd_kill_refines, cmd_rename_refines}
use xroar_dev.Handlers.Directory.Listed.{shown_entry-IsWell, count_granules_terminates}
use xroar_dev.Commands.Load.{Selected, load_view}
use xroar_dev.Commands.Edit.{kill_file, rename_file}
use xroar_dev.Drive.Contents.{kill_change, rename_change}
use xroar_dev.Host.Reload.{SameBytes, image_of-bytes_of}
use mathlib.Core.Path.{subst}
use xroar_dev.Text.{partition}
use xroar_dev.Copy.Flags.{is_option}
use xroar_dev.Commands.Moved.{outside}

-- The drive of Drive/Tests, with nothing behind its end.
abbrev drive : Image
drive = record { size = 82944; byte = λ k. if ltb k 82944 then changed.byte k else 0 }

changed_size : changed.size ≡ 82944
unfolding write_file kill_file rename_file put get slice splice new_drive
changed_size = refl

drive-SameBytes : SameBytes changed drive
drive-SameBytes = record {
  size = sym changed_size;
  byte = λ k lt. rw (lt→ltb k 82944 (rw (← changed_size) lt));
}

drive-IsWell : IsWell drive 0 18
drive-IsWell =
    loaded-IsWell changed drive 0 18 drive-SameBytes changed-IsWell (record { at = λ k. small k })
  where
    small : (k : ℕ) → drive.byte k < 256
    small k = elim (Bool-cases (ltb k 82944)) [
      | inl inside ↦ rw inside (changed-IsWell.bytes.at k)
      | inr outside ↦ rw outside (omega arith)
    ]

abbrev drive_file : List ℕ
drive_file = bytes_of drive

drive_loads : image_of drive_file ≡ drive
drive_loads = image_of-bytes_of drive (λ k h. ground arith)

abbrev disk_path : List ℕ
disk_path = codes "d.dsk"

abbrev host : Host
host = record {
  abspath = λ p. p;
  file = λ p. if list_eq p disk_path then some drive_file else none;
  is_dir = λ p. false;
  make_dirs = λ p. none;
  write_at = λ p bytes. complete;
  stdout = [];
}

abbrev b_on_disk : ImagePath
b_on_disk = record { disk = disk_path; name = name_b; drive = none }

abbrev whole : Selected
whole = record { base = 0; tracks = 18 }

b_arg : file_arg (codes "d.dsk,B") host ≡ (ok b_on_disk, host)
unfolding file_arg split_image_path
b_arg = refl

selected : load_view drive none ≡ ok whole
unfolding load_view
selected = refl

host-IsWellFile : IsWellFile host b_on_disk 0 18 drive_file
host-IsWellFile = (
  refl,
  ap (λ d. load_view d none) drive_loads ∙ selected,
  subst (λ d. IsWell d 0 18) (sym drive_loads) drive-IsWell,
)

abbrev without_b : Image
without_b = or_blank (kill_file drive name_b 0 18)

b_killed : kill_file drive name_b 0 18 ≡ ok without_b
unfolding write_file kill_file rename_file put get slice splice new_drive
b_killed = refl

abbrev host_after : Host
host_after = with_file host disk_path (bytes_of without_b)

kill_runs : cmd_kill (codes "d.dsk,B" ∷ []) host ≡ (ok tt, host_after)
kill_runs =
    cmd_kill_runs (codes "d.dsk,B") b_on_disk host whole drive_file without_b b_arg refl
      (host-IsWellFile.1) (ap (λ d. kill_file d name_b 0 18) drive_loads ∙ b_killed) refl

cmd_kill_refines_example : Changed (kill_change name_b) host_after b_on_disk 0 18 drive_file
cmd_kill_refines_example =
    cmd_kill_refines (codes "d.dsk,B") b_on_disk host host_after 0 18 drive_file b_arg
      host-IsWellFile kill_runs

-- A rename on an image that is not there.
no_image : cmd_rename (codes "x.dsk,B" ∷ codes "C" ∷ []) host ≡ (err cannot_open, host)
unfolding cmd_rename file_arg split_image_path open_image read_host
no_image = refl

cmd_rename_atomic_example :
    (host ≡ host)
    ⊎ ((cannot_open ≡ write_failed)
        × (p : List ℕ) × Target (file_arg (codes "x.dsk,B")) host p
        × (b : List ℕ) × (host ≡ with_file host p b))
unfolding without_options
cmd_rename_atomic_example =
    cmd_rename_atomic (codes "x.dsk,B" ∷ codes "C" ∷ []) host host cannot_open (λ is. cc is)
      no_image

b-IsLive : IsLive changed 0 78848
unfolding write_file kill_file rename_file put get slice splice new_drive
b-IsLive = ((0, omega arith, refl), refl)

shown_entry-IsWell_example :
    (grans : List ℕ) × (t : ℕ) × ChainAt changed 0 18 78848 grans t
    × (shown_entry changed (gat_offset 0) 0 false (num_granules 18) 78848
        ≡ ok (
            some (
              shown_file
                (slice changed 78848 11)
                (changed.byte 78859)
                (changed.byte 78860)
                (length grans))))
shown_entry-IsWell_example = shown_entry-IsWell changed 0 18 78848 false changed-IsWell b-IsLive

abbrev with_c : Image
with_c = or_blank (rename_file drive name_b (codes "C") 0)

b_renamed : rename_file drive name_b (codes "C") 0 ≡ ok with_c
unfolding write_file kill_file rename_file put get slice splice new_drive
b_renamed = refl

abbrev host_renamed : Host
host_renamed = with_file host disk_path (bytes_of with_c)

b_plain : is_option (codes "d.dsk,B") ≡ false
unfolding is_option
b_plain = refl

c_plain : is_option (codes "C") ≡ false
unfolding is_option
c_plain = refl

c_name : new_name (codes "C") ≡ codes "C"
unfolding partition
c_name = refl

rename_runs : cmd_rename (codes "d.dsk,B" ∷ codes "C" ∷ []) host ≡ (ok tt, host_renamed)
rename_runs =
    cmd_rename_runs (codes "d.dsk,B") (codes "C") b_on_disk host whole drive_file with_c b_plain
      c_plain b_arg refl (host-IsWellFile.1)
      (ap (λ n. rename_file (image_of drive_file) name_b n 0) c_name
        ∙ ap (λ d. rename_file d name_b (codes "C") 0) drive_loads
        ∙ b_renamed)
      refl

cmd_rename_refines_example :
    Changed (rename_change name_b (new_name (codes "C"))) host_renamed b_on_disk 0 18 drive_file
cmd_rename_refines_example =
    cmd_rename_refines (codes "d.dsk,B") (codes "C") b_on_disk host host_renamed 0 18 drive_file
      b_plain c_plain (rw c_name (omega arith)) b_arg host-IsWellFile rename_runs

-- A granule that is linked to itself.
abbrev looped : Image
looped = record { size = 82944; byte = λ k. 0 }

count_granules_terminates_example : count_granules looped (gat_offset 0) 34 35 0 1 ≢ err out_of_fuel
count_granules_terminates_example =
    count_granules_terminates looped (gat_offset 0) 34 35 0 1 (omega arith) (omega arith)
