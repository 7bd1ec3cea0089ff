-- ===== src/Copy/RoundTrip.antt =====
-- A host file that is copied into a disk image and out again.
use xroar_dev.Base.{
  ℕ, ◌%◌, ◌≤◌, ◌<◌, ◌≡◌, ◌∙◌, ◌≢◌, true, false, none, some, List, [], ◌∷◌, arith, length, All,
}
use xroar_dev.Error.{ok}
use xroar_dev.Image.{Image}
use xroar_dev.Geometry.{sector, dir_track, num_granules}
use xroar_dev.Copy.{Opened, copy_into, copy_out}
use xroar_dev.Text.{nonempty}
use xroar_dev.Host.{Host, with_file, image_of, bytes_of, complete}
use xroar_dev.Paths.{ImagePath, split_image_path}
use xroar_dev.Commands.Load.{Selected, load_view}
use xroar_dev.Commands.Load.Same.{load_view-size}
use xroar_dev.Copy.Flags.{no_options}
use xroar_dev.DiskFile.{read_file, write_file}
use xroar_dev.View.{IsView}
use xroar_dev.DiskFile.RoundTrip.{read_file-write_file}
use xroar_dev.DiskFile.Size.{size-write_file}
use xroar_dev.DiskFile.Write.{write_file-Run}
use xroar_dev.Commands.Load.Fits.{load_view_fits}
use xroar_dev.Host.Reload.{reloaded, read_file_loaded}
use xroar_dev.Copy.Steps.{
  with_file_same, with_file_other, fetch_host_file, open_saved, copy_into_one, fetch_image_file,
  copy_out_one, stored_named, image_of-IsBytes,
}

-- A host file that is copied without options into a disk image under a name without NUL is copied out
-- again as it was, when the file can be stored and both files can be written: on an image of bytes and
-- whole sectors, whose selected drive has 18 to 97 tracks, into a host path where there is nothing yet.
pub copy_out-copy_into :
    (h : Host) (path : ImagePath) (src arg out bytes disk : List ℕ) (view : Selected) (e : Image)
    → split_image_path src ≡ ok none
    → split_image_path arg ≡ ok (some path)
    → nonempty path.name ≡ true
    → All (λ c. c ≢ 0) path.name
    → h.file (h.abspath src) ≡ some bytes
    → h.file (h.abspath path.disk) ≡ some disk
    → All (λ b. b < 256) disk
    → length disk % sector ≡ 0
    → load_view (image_of disk) path.drive ≡ ok view
    → dir_track < view.tracks
    → num_granules view.tracks ≤ 0xC0
    → write_file (image_of disk) path.name bytes 2 0x00 false view.base view.tracks ≡ ok e
    → h.write_at (h.abspath path.disk) (bytes_of e) ≡ complete
    → h.is_dir (h.abspath out) ≡ false
    → h.file (h.abspath out) ≡ none
    → h.write_at (h.abspath out) bytes ≡ complete
    → (h1 : Host) × (h2 : Host) × (copy_into no_options path (src ∷ []) h ≡ (ok tt, h1))
      × (copy_out no_options out (arg ∷ []) h1 ≡ (ok tt, h2))
      × (h2.file (h.abspath out) ≡ some bytes)
copy_out-copy_into h path src arg out bytes disk view e plain splits some_name chars there image
      byte_list whole loads has_dir links written can no_dir absent can_out =
    let d = image_of disk in
    let dst : Opened = record { path = path; image = d; view = view } in
    let h1 = with_file h (h.abspath path.disk) (bytes_of e) in
    let into =
      copy_into_one h path src dst _ e (open_saved h path disk view image loads)
        (fetch_host_file h (some dst) src bytes plain there)
        (stored_named dst _ bytes e some_name written) can in
    let v : IsView d view.base view.tracks = record {
      fits = load_view_fits d path.drive loads;
      has_directory = has_dir;
      links = links;
    } in
    let b = image_of-IsBytes disk byte_list in
    let size = size-write_file d path.name bytes 2 0x00 false view.base view.tracks v b written in
    let e' = image_of (bytes_of e) in
    let v' : IsView e view.base view.tracks = record {
      fits = omega (arith, size, v.fits);
      has_directory = has_dir;
      links = links;
    } in
    let read : read_file e' path.name view.base view.tracks ≡ ok (bytes, 2, 0x00) =
      read_file_loaded e e' (reloaded e) path.name view.base view.tracks v'
      ∙ read_file-write_file d path.name bytes 2 0x00 false view.base view.tracks v b chars
          written in
    let again : load_view e' path.drive ≡ ok view =
      load_view-size d e' path.drive ((reloaded e).size ∙ size) (unfold image_of in whole)
      ∙ loads in
    let named =
      (write_file-Run d path.name bytes 2 0x00 false view.base view.tracks written).named in
    let fetched =
      fetch_image_file h1 path arg bytes _ 2 0x00 _ splits some_name
        (open_saved h1 path (bytes_of e) view (with_file_same h (h.abspath path.disk) (bytes_of e))
          again)
        read named in
    let gone =
      with_file_other h (h.abspath path.disk) (h.abspath out) (bytes_of e) disk image absent in
    (
      h1,
      with_file h1 (h.abspath out) bytes,
      into,
      copy_out_one h1 out arg _ _ fetched no_dir gone can_out,
      with_file_same h1 (h.abspath out) bytes,
    )
