-- ===== src/Handlers/Make.antt =====
-- `cmd_dskini` of tools/decb.py, from its arguments on.
use xroar_dev.Base.{
  ℕ, zero, suc, Bool, true, false, not, ◌&&◌, Option, none, some, List, [], ◌∷◌, ◌++◌, ltb, ◌==◌,
  if◌then◌else◌, length, get_or, drop,
}
use xroar_dev.Error.{Result, name_too_long, unknown_option, usage, err, ok, die_if}
use xroar_dev.Host.{◌>>=◌, ◌>>◌, Io, lift, write_host, bytes_of}
use xroar_dev.Text.{ℤ, pos, negsuc, int_10}
use xroar_dev.Dskini.{new_drive}

pub record InitOptions : Type 0 where
  pub tracks : ℕ
  pub hdbdrives : ℕ
  pub disk_name : Option (List ℕ)
  pub skitzo : Bool

abbrev pub init_options : InitOptions
init_options = record { tracks = 35; hdbdrives = 1; disk_name = none; skitzo = false }

abbrev pub hdb_name_max : ℕ
hdb_name_max = 9

-- `-h`: HDB-DOS drives, whose number is the rest of the option.
abbrev pub drive_count : Option ℤ → InitOptions → Result InitOptions
drive_count none o = err usage
drive_count (some (negsuc n)) o = err usage
drive_count (some (pos n)) o =
    if n == 0 then err usage else ok (record o { hdbdrives = n; tracks = 35 })

-- The letters of one option, of which `h` and `n` eat the rest.
unfoldable pub init_flags : List ℕ → InitOptions → Result InitOptions
unfolding int_10
init_flags [] o = ok o
init_flags (c ∷ flags) o =
    if c == b'3'
    then init_flags flags (record o { tracks = 35 })
    else if c == b'4'
    then init_flags flags (record o { tracks = 40 })
    else if c == b'8'
    then init_flags flags (record o { tracks = 80 })
    else if c == b'h'
    then drive_count (int_10 flags) o
    else if c == b'n'
    then if ltb hdb_name_max (length flags)
      then err name_too_long
      else ok (record o { disk_name = some flags })
    else if c == b's'
    then init_flags flags (record o { skitzo = true })
    else err (unknown_option c)

abbrev pub is_init_option : List ℕ → Bool
is_init_option a = (get_or a 0 0 == b'-') && ltb 1 (length a)

-- The options, and the disks.
abbrev pub init_args : List (List ℕ) → InitOptions → Io (InitOptions × List (List ℕ))
init_args [] o = lift (ok (o, []))
init_args (a ∷ args) o = do
  o' ← lift (if is_init_option a then init_flags (drop 1 a) o else ok o)
  (final, disks) ← init_args args o'
  lift (ok (final, if is_init_option a then disks else a ∷ disks))

abbrev pub repeated : ℕ → List ℕ → List ℕ
repeated zero bytes = []
repeated (suc n) bytes = bytes ++ repeated n bytes

abbrev pub write_each : List ℕ → List (List ℕ) → Io (Unit {0})
write_each bytes [] = lift (ok tt)
write_each bytes (disk ∷ disks) = write_host disk bytes >> write_each bytes disks

unfoldable pub cmd_dskini : List (List ℕ) → Io (Unit {0})
unfolding init_flags new_drive write_host bytes_of
cmd_dskini args = do
  (o, disks) ← init_args args init_options
  checked ← lift (die_if (length disks == 0) usage)
  packed ← lift (die_if (ltb 1 o.hdbdrives && not (o.tracks == 35)) usage)
  drive ← lift (new_drive o.tracks o.skitzo o.disk_name)
  write_each (repeated o.hdbdrives (bytes_of drive)) disks
