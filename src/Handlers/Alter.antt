-- ===== src/Handlers/Alter.antt =====
-- `cmd_kill`, `cmd_attr`, `cmd_rename` and `cmd_wipe` of tools/decb.py.
use xroar_dev.Base.{
  ℕ, ◌+◌, ◌-◌, Bool, true, false, not, ◌&&◌, ◌||◌, Option, none, some, List, [], ◌∷◌, leb, ◌==◌,
  if◌then◌else◌, length, get_or,
}
use xroar_dev.Error.{Result, unknown_option, usage, err, ok, die_if}
use xroar_dev.Commands.Wipe.{wipe}
use xroar_dev.Host.{◌>>=◌, ◌>>◌, Io, lift}
use xroar_dev.Image.{Image, get}
use xroar_dev.Handlers.{
  command_args, each_arg, some_args, file_arg, disk_arg, save_image, show_each,
}
use xroar_dev.Names.{encode_name}
use xroar_dev.Copy.{Opened, open_image}
use xroar_dev.Text.{partition}
use xroar_dev.Commands.Edit.{require_entry, kill_file, rename_file, put_option}
use xroar_dev.Drive.Contents.{after}
use xroar_dev.Copy.Flags.{is_option}

-- A file is found, changed in memory, and its image saved.
abbrev pub edit_file : (Opened → List ℕ → Result Image) → List ℕ → Io (Unit {0})
edit_file change raw = do
  path ← file_arg raw
  o ← open_image path
  e ← lift (change o path.name)
  save_image path e

abbrev pub kill_in : Opened → List ℕ → Result Image
kill_in o name = kill_file o.image name o.view.base o.view.tracks

unfoldable pub cmd_kill : List (List ℕ) → Io (Unit {0})
unfolding file_arg open_image kill_file save_image
cmd_kill args = lift (some_args args) >> each_arg (edit_file kill_in) args

-- The file type and the data type that are asked for.
abbrev pub AttrOptions : Type 0
AttrOptions = Option ℕ × Option ℕ

unfoldable pub attr_flag : ℕ → AttrOptions → Result AttrOptions
attr_flag c (ftype, ascii_flag) =
    if leb b'0' c && leb c b'3'
    then ok (some (c - b'0'), ascii_flag)
    else if c == b'a'
    then ok (ftype, some 0xFF)
    else if c == b'b'
    then ok (ftype, some 0x00)
    else err (unknown_option c)

abbrev pub is_given : Option ℕ → Bool
is_given none = false
is_given (some v) = true

-- The types that are shown. The image is saved only where an option changes it.
unfoldable pub attr_arg : AttrOptions → List ℕ → Io (ℕ × ℕ)
unfolding file_arg open_image require_entry encode_name put_option save_image
attr_arg (ftype, ascii_flag) raw = do
  path ← file_arg raw
  o ← open_image path
  name_field ← lift (encode_name path.name)
  off ← lift (require_entry o.image name_field o.view.base)
  typed ← lift (put_option o.image (off + 11) ftype)
  flagged ← lift (put_option typed (off + 12) ascii_flag)
  done ← (if is_given ftype || is_given ascii_flag then save_image path flagged else lift (ok tt))
  ft ← lift (get flagged (off + 11))
  dt ← lift (get flagged (off + 12))
  lift (ok (ft, dt))

unfoldable pub cmd_attr : List (List ℕ) → Io (List (ℕ × ℕ))
unfolding attr_flag is_option attr_arg
cmd_attr args = do
  (o, paths) ← command_args attr_flag args (none, none)
  lift (some_args paths) >> show_each (attr_arg o) paths

-- The arguments that are no options, which are passed over.
unfoldable pub without_options : List (List ℕ) → List (List ℕ)
unfolding is_option
without_options [] = []
without_options (a ∷ args) =
    let rest = without_options args in if is_option a then rest else a ∷ rest

-- `disk,NEW` is allowed too.
abbrev pub new_name : List ℕ → List ℕ
new_name raw = elim (partition b',' raw) [ none ↦ raw | some (before, after) ↦ after ]

abbrev pub rename_to : List ℕ → Opened → List ℕ → Result Image
rename_to new o old = rename_file o.image old new o.view.base

unfoldable pub cmd_rename : List (List ℕ) → Io (Unit {0})
unfolding without_options file_arg open_image rename_file save_image partition
cmd_rename args =
    let paths = without_options args in
    lift (die_if (not (length paths == 2)) usage)
    >> edit_file (rename_to (new_name (get_or paths 1 []))) (get_or paths 0 [])

unfoldable pub wipe_arg : List ℕ → Io (Unit {0})
unfolding disk_arg open_image wipe save_image
wipe_arg raw = do
  path ← disk_arg raw
  o ← open_image path
  e ← lift (wipe o.image o.view.base o.view.tracks)
  save_image path e

unfoldable pub cmd_wipe : List (List ℕ) → Io (Unit {0})
unfolding wipe_arg
cmd_wipe args = lift (some_args args) >> each_arg wipe_arg args
