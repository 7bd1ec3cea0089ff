-- ===== src/Copy.antt =====
-- `cmd_copy` of tools/decb.py, between the host and disk images.
pub mod Flags
pub mod Convert
pub mod Atomic
pub mod Steps
pub mod RoundTrip
mod Tests
use xroar_dev.Base.{
  ℕ, ◌-◌, Bool, true, false, not, ◌&&◌, Option, none, some, List, [], ◌∷◌, ltb, ◌==◌, if◌then◌else◌,
  length, get_or, take, list_eq,
}
use xroar_dev.Error.{Result, usage, not_a_host_path, target_exists, ok, die_if, err}
use xroar_dev.Image.{Image}
use xroar_dev.Copy.Flags.{Options, no_options, copy_args}
use xroar_dev.Copy.Convert.{Payload, convert}
use xroar_dev.Host.{
  Io, ◌>>=◌, ◌>>◌, lift, read_host, write_host, path_exists, is_directory, basename, path_join,
  image_of, bytes_of,
}
use xroar_dev.Names.{encode_name, entry_to_name}
use xroar_dev.Text.{ℤ, pos, negsuc, nonempty}
use xroar_dev.Paths.{ImagePath, split_image_path}
use xroar_dev.DiskFile.{read_file, write_file}
use xroar_dev.Commands.Recover.{recover_deleted, drop_method}
use xroar_dev.Commands.Load.{Selected, load_view}

-- An image file that is loaded, under the path that named it.
pub record Opened : Type 0 where
  pub path : ImagePath
  pub image : Image
  pub view : Selected

-- A source: its bytes, what an image says of its type and flag, and the name it may be stored under.
pub record Fetched : Type 0 where
  pub bytes : List ℕ
  pub src_ftype : Option ℕ
  pub src_ascii : Option ℕ
  pub base_name : List ℕ
  pub src_is_image : Bool

abbrev pub int_eq : ℤ → ℤ → Bool
int_eq (pos a) (pos b) = a == b
int_eq (negsuc a) (negsuc b) = a == b
int_eq (pos a) (negsuc b) = false
int_eq (negsuc a) (pos b) = false

abbrev pub drive_eq : Option (ℕ × ℤ) → Option (ℕ × ℤ) → Bool
drive_eq none none = true
drive_eq none (some d) = false
drive_eq (some d) none = false
drive_eq (some (n, extra)) (some (m, extra')) = (n == m) && int_eq extra extra'

-- `load_disk` from the host, on a base that is not negative.
unfoldable pub open_image : ImagePath → Io Opened
unfolding read_host image_of load_view
open_image path = do
  bytes ← read_host path.disk
  view ← lift (load_view (image_of bytes) path.drive)
  lift (ok (record { path = path; image = image_of bytes; view = view }))

-- The same image file and drive as the destination: the copy in memory serves.
unfoldable pub source_image : Option Opened → ImagePath → Io Opened
unfolding open_image
source_image none path h = open_image path h
source_image (some dst) path h =
    if list_eq (h.abspath path.disk) (h.abspath dst.path.disk) && drive_eq path.drive dst.path.drive
    then (ok dst, h)
    else open_image path h

unfoldable pub fetched_from : Image → Selected → List ℕ → Bool → Result (List ℕ × ℕ × ℕ)
unfolding recover_deleted read_file
fetched_from d view name from_deleted =
    if from_deleted
    then drop_method (recover_deleted d name view.base view.tracks)
    else read_file d name view.base view.tracks

-- A file of an image.
unfoldable pub fetch_image : Options → Option Opened → ImagePath → Io Fetched
unfolding source_image fetched_from entry_to_name encode_name
fetch_image o dst path = do
  lift (die_if (not (nonempty path.name)) usage)
  src ← source_image dst path
  (bytes, ftype, ascii_flag) ← lift (fetched_from src.image src.view path.name o.from_deleted)
  field ← lift (encode_name path.name)
  lift (
      ok (record {
        bytes = bytes;
        src_ftype = some ftype;
        src_ascii = some ascii_flag;
        base_name = entry_to_name field;
        src_is_image = true;
      }))

unfoldable pub fetch_host : Options → List ℕ → Io Fetched
unfolding read_host basename
fetch_host o src = do
  lift (die_if o.from_deleted not_a_host_path)
  bytes ← read_host src
  lift (
      ok (record {
        bytes = bytes;
        src_ftype = none;
        src_ascii = none;
        base_name = basename src;
        src_is_image = false;
      }))

abbrev pub fetch_at : Options → Option Opened → List ℕ → Option ImagePath → Io Fetched
fetch_at o dst src none = fetch_host o src
fetch_at o dst src (some path) = fetch_image o dst path

-- What the options say, or else what the source says.
abbrev pub or_source : Option ℕ → Option ℕ → Option ℕ
or_source none src = src
or_source (some v) src = some v

abbrev pub or_default : Option ℕ → ℕ → ℕ
or_default none d = d
or_default (some v) d = v

abbrev pub with_name : List ℕ → Result Payload → Result (Payload × List ℕ)
with_name base_name (err e) = err e
with_name base_name (ok p) = ok (p, base_name)

-- The payload that is stored, and the name of its own file.
unfoldable pub converted : Options → Bool → Fetched → Result (Payload × List ℕ)
unfolding convert
converted o dst_is_image f = with_name f.base_name (
    convert o f.src_is_image dst_is_image (record {
      bytes = f.bytes;
      ftype = or_source o.ftype f.src_ftype;
      ascii_flag = or_source o.ascii_flag f.src_ascii;
    }))

-- One source, converted.
unfoldable pub fetch_converted : Options → Option Opened → Bool → List ℕ → Io (Payload × List ℕ)
unfolding split_image_path fetch_image fetch_host converted
fetch_converted o dst dst_is_image src = do
  path ← lift (split_image_path src)
  f ← fetch_at o dst src path
  lift (converted o dst_is_image f)

-- The name that an image target gives, or the source's own.
abbrev pub target_name : Opened → List ℕ → List ℕ
target_name dst base_name = if nonempty dst.path.name then dst.path.name else base_name

unfoldable pub stored : Options → Opened → Payload × List ℕ → Result Image
unfolding write_file
stored o dst (p, base_name) =
    write_file dst.image (target_name dst base_name) p.bytes (or_default p.ftype 2)
      (or_default p.ascii_flag 0x00) o.rewrite dst.view.base dst.view.tracks

-- The sources, one after the other, into the image in memory.
unfoldable pub copy_to_image : Options → Opened → List (List ℕ) → Io Image
unfolding fetch_converted stored
copy_to_image o dst [] = lift (ok dst.image)
copy_to_image o dst (src ∷ sources) = do
  got ← fetch_converted o (some dst) true src
  written ← lift (stored o dst got)
  copy_to_image o (record dst { image = written }) sources

unfoldable pub copy_to_host : Options → List ℕ → Bool → List (List ℕ) → Io (Unit {0})
unfolding fetch_converted path_exists write_host path_join
copy_to_host o target dst_is_dir [] = lift (ok tt)
copy_to_host o target dst_is_dir (src ∷ sources) = do
  (p, base_name) ← fetch_converted o none false src
  let out = (if dst_is_dir then path_join target base_name else target)
  exists ← path_exists out
  lift (die_if (exists && not o.rewrite) target_exists)
  write_host out p.bytes
  copy_to_host o target dst_is_dir sources

-- An image target is loaded before the first source is read, and saved after the last one.
unfoldable pub copy_into : Options → ImagePath → List (List ℕ) → Io (Unit {0})
unfolding open_image copy_to_image write_host bytes_of
copy_into o path sources = do
  lift (die_if (nonempty path.name && ltb 1 (length sources)) usage)
  dst ← open_image path
  written ← copy_to_image o dst sources
  write_host path.disk (bytes_of written)

unfoldable pub copy_out : Options → List ℕ → List (List ℕ) → Io (Unit {0})
unfolding is_directory copy_to_host
copy_out o target sources = do
  dst_is_dir ← is_directory target
  lift (die_if (not dst_is_dir && ltb 1 (length sources)) usage)
  copy_to_host o target dst_is_dir sources

abbrev pub copy_at : Options → List ℕ → List (List ℕ) → Option ImagePath → Io (Unit {0})
copy_at o target sources none = copy_out o target sources
copy_at o target sources (some path) = copy_into o path sources

unfoldable pub cmd_copy : List (List ℕ) → Io (Unit {0})
unfolding copy_args split_image_path copy_out copy_into
cmd_copy args = do
  (o, positional) ← lift (copy_args args no_options)
  lift (die_if (ltb (length positional) 2) usage)
  let target = get_or positional (length positional - 1) []
  path ← lift (split_image_path target)
  copy_at o target (take (length positional - 1) positional) path
