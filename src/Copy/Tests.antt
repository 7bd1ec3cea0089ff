-- ===== src/Copy/Tests.antt =====
-- Copies between a host of two files and a new disk.
use xroar_dev.Base.{
  ℕ, ◌%◌, ◌<◌, ◌≡◌, refl, ap, ◌∙◌, ◌⊎◌, true, false, none, some, List, [], ◌∷◌, arith, ltb,
  if◌then◌else◌, length, All, list_eq,
}
use xroar_dev.Error.{Result, cannot_open, err, ok, write_failed}
use xroar_dev.Image.{Image, get, put, slice, splice}
use xroar_dev.Geometry.{sector, num_granules}
use xroar_dev.Copy.{copy_into, copy_out, fetch_host, fetch_converted}
use xroar_dev.Host.{Host, image_of, bytes_of, read_host, complete, with_file}
use xroar_dev.Paths.{ImagePath, split_image_path}
use xroar_dev.DiskFile.{write_file}
use xroar_dev.Basic.Tables.{codes}
use xroar_dev.Commands.Load.{Selected, load_view}
use xroar_dev.Image.Slices.{length-slice}
use xroar_dev.Host.Reload.{image_of-bytes_of, All-slice}
use xroar_dev.Copy.Atomic.{copy_into_atomic}
use xroar_dev.Copy.RoundTrip.{copy_out-copy_into}
use xroar_dev.Copy.Steps.{open_saved, copy_into_fails}
use xroar_dev.Copy.Flags.{no_options}

-- A disk of 35 tracks; behind its end there is nothing.
abbrev fresh : Image
fresh = record { size = 161280; byte = λ k. if ltb k 161280 then 0xFF else 0 }

abbrev fresh_file : List ℕ
fresh_file = bytes_of fresh

fresh_loads : image_of fresh_file ≡ fresh
fresh_loads = image_of-bytes_of fresh (λ k h. ground arith)

abbrev disk_path : List ℕ
disk_path = codes "d.dsk"

abbrev note_path : List ℕ
note_path = codes "note"

abbrev note : List ℕ
note = 72 ∷ 73 ∷ 10 ∷ []

abbrev host : Host
host = record {
  abspath = λ p. p;
  file = λ p.
      if list_eq p disk_path
      then some fresh_file
      else if list_eq p note_path
      then some note
      else none;
  is_dir = λ p. false;
  make_dirs = λ p. none;
  write_at = λ p bytes. complete;
  stdout = [];
}

abbrev note_on_disk : ImagePath
note_on_disk = record { disk = disk_path; name = codes "NOTE"; drive = none }

abbrev whole_disk : Selected
whole_disk = record { base = 0; tracks = 35 }

abbrev or_fresh : Result Image → Image
or_fresh (ok d) = d
or_fresh (err e) = fresh

abbrev with_note : Image
with_note = or_fresh (write_file fresh (codes "NOTE") note 2 0 false 0 35)

note_stored : write_file fresh (codes "NOTE") note 2 0 false 0 35 ≡ ok with_note
unfolding write_file put get slice splice
note_stored = refl

fresh_selected : load_view fresh none ≡ ok whole_disk
unfolding load_view
fresh_selected = refl

fresh_bytes : All (λ b. b < 256) fresh_file
unfolding bytes_of
fresh_bytes = All-slice fresh 0 161280 (λ k. ground arith)

fresh_length : length fresh_file ≡ 161280
unfolding bytes_of
fresh_length = length-slice fresh 0 161280 (omega arith)

note_splits : split_image_path (codes "d.dsk,NOTE") ≡ ok (some note_on_disk)
unfolding split_image_path
note_splits = refl

plain_path : split_image_path note_path ≡ ok none
unfolding split_image_path
plain_path = refl

copy_out-copy_into_example :
    (h1 : Host) × (h2 : Host) × (copy_into no_options note_on_disk (note_path ∷ []) host
      ≡ (ok tt, h1))
    × (copy_out no_options (codes "back") (codes "d.dsk,NOTE" ∷ []) h1 ≡ (ok tt, h2))
    × (h2.file (codes "back") ≡ some note)
copy_out-copy_into_example =
    copy_out-copy_into host note_on_disk note_path (codes "d.dsk,NOTE") (codes "back") note
      fresh_file whole_disk with_note plain_path note_splits refl (omega arith) refl refl
      fresh_bytes (ap (λ n. n % sector) fresh_length)
      (ap (λ d. load_view d none) fresh_loads ∙ fresh_selected) (omega arith)
      (unfold num_granules in omega arith)
      (ap (λ d. write_file d (codes "NOTE") note 2 0 false 0 35) fresh_loads ∙ note_stored) refl
      refl refl refl

-- A source that is not there.
abbrev no_source : List (List ℕ)
no_source = codes "gone" ∷ []

source_fails :
    fetch_converted no_options
      (some (record { path = note_on_disk; image = image_of fresh_file; view = whole_disk }))
      true
      (codes "gone")
      host
    ≡ (err cannot_open, host)
unfolding fetch_converted fetch_host read_host split_image_path
source_fails = refl

missing_source : copy_into no_options note_on_disk no_source host ≡ (err cannot_open, host)
missing_source =
    copy_into_fails host note_on_disk (codes "gone")
      (record { path = note_on_disk; image = image_of fresh_file; view = whole_disk }) cannot_open
      (open_saved host note_on_disk fresh_file whole_disk refl
        (ap (λ d. load_view d none) fresh_loads ∙ fresh_selected))
      source_fails

copy_into_atomic_example :
    (host ≡ host)
    ⊎ ((cannot_open ≡ write_failed)
        × (p : List ℕ) × (p ≡ host.abspath note_on_disk.disk)
        × (b : List ℕ) × (host ≡ with_file host p b))
copy_into_atomic_example =
    copy_into_atomic no_options note_on_disk no_source host host cannot_open (λ is. cc is)
      missing_source
