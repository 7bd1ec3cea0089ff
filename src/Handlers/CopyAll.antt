-- ===== src/Handlers/CopyAll.antt =====
-- `cmd_copyall` of tools/decb.py.
use xroar_dev.Base.{
  ℕ, ◌+◌, Bool, true, false, not, ◌&&◌, ◌||◌, List, [], ◌∷◌, leb, ◌==◌, if◌then◌else◌, length,
  get_or, take,
}
use xroar_dev.Error.{Result, unknown_option, usage, target_exists, err, ok, die_if}
use xroar_dev.Host.{◌>>=◌, Io, lift, write_host, path_exists, make_directory, path_join}
use xroar_dev.Image.{Image, get, slice}
use xroar_dev.Handlers.{command_args, disk_arg}
use xroar_dev.Geometry.{entry_size}
use xroar_dev.Names.{entry_to_name}
use xroar_dev.Copy.{open_image}
use xroar_dev.Directory.{dir_slots, live}
use xroar_dev.Eol.{decb_to_native}
use xroar_dev.Basic.{detokenize_cocobas}
use xroar_dev.DiskFile.{read_entry_payload}
use xroar_dev.Copy.Flags.{is_option}

-- `str.isalnum` on one code point of Latin-1
abbrev pub is_alnum : ℕ → Bool
is_alnum c =
    (leb b'0' c && leb c b'9')
    || (leb b'A' c && leb c b'Z')
    || (leb b'a' c && leb c b'z')
    || (c == 0xAA)
    || (c == 0xB2)
    || (c == 0xB3)
    || (c == 0xB5)
    || (c == 0xB9)
    || (c == 0xBA)
    || (leb 0xBC c && leb c 0xBE)
    || (leb 0xC0 c && not (c == 0xD7) && not (c == 0xF7))

-- Bytes that names on the host may not have become underscores.
unfoldable pub sanitize_host_name : List ℕ → List ℕ
sanitize_host_name [] = []
sanitize_host_name (c ∷ name) =
    (if is_alnum c || (c == b'.') || (c == b'_') || (c == b'-') then c else b'_')
    ∷ sanitize_host_name name

pub record CopyAllOptions : Type 0 where
  pub detoken : Bool
  pub eol : Bool
  pub rewrite : Bool

abbrev pub copyall_options : CopyAllOptions
copyall_options = record { detoken = false; eol = false; rewrite = false }

unfoldable pub copyall_flag : ℕ → CopyAllOptions → Result CopyAllOptions
copyall_flag c o =
    if c == b't'
    then ok (record o { detoken = true })
    else if c == b'l'
    then ok (record o { eol = true })
    else if c == b'r'
    then ok (record o { rewrite = true })
    else err (unknown_option c)

-- The bytes of a file as the host gets them.
unfoldable pub exported : CopyAllOptions → List ℕ → List ℕ → Result (List ℕ)
unfolding detokenize_cocobas decb_to_native
exported o entry payload =
    if o.detoken
      && (get_or entry 11 0 == 0)
      && (get_or entry 12 0 == 0x00)
      && (get_or payload 0 0 == 0xFF)
    then detokenize_cocobas payload
    else if o.eol && (get_or entry 12 0 == 0xFF)
    then ok (decb_to_native payload)
    else ok payload

unfoldable pub copyall_entry : CopyAllOptions → List ℕ → Image → ℕ → ℕ → ℕ → Io (Unit {0})
unfolding slice entry_to_name read_entry_payload exported path_join sanitize_host_name path_exists
    write_host
copyall_entry o outdir d base tracks off = do
  let entry = slice d off entry_size
  payload ← lift (read_entry_payload d entry base tracks)
  bytes ← lift (exported o entry payload)
  let out = path_join outdir (sanitize_host_name (entry_to_name (take 11 entry)))
  exists ← path_exists out
  checked ← lift (die_if (exists && not o.rewrite) target_exists)
  write_host out bytes

-- The live entries, one after the other; the value is their number.
unfoldable pub copyall_slots : CopyAllOptions → List ℕ → Image → ℕ → ℕ → List ℕ → Io ℕ
unfolding get copyall_entry
copyall_slots o outdir d base tracks [] = lift (ok 0)
copyall_slots o outdir d base tracks (off ∷ offs) = do
  first ← lift (get d off)
  done ← (if live first then copyall_entry o outdir d base tracks off else lift (ok tt))
  count ← copyall_slots o outdir d base tracks offs
  lift (ok (if live first then count + 1 else count))

unfoldable pub cmd_copyall : List (List ℕ) → Io ℕ
unfolding copyall_flag is_option disk_arg open_image make_directory copyall_slots dir_slots
cmd_copyall args = do
  (o, positional) ← command_args copyall_flag args copyall_options
  checked ← lift (die_if (not (length positional == 2)) usage)
  path ← disk_arg (get_or positional 0 [])
  opened ← open_image path
  made ← make_directory (get_or positional 1 [])
  copyall_slots o (get_or positional 1 []) opened.image opened.view.base opened.view.tracks
      (dir_slots opened.view.base)
