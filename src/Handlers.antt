-- ===== src/Handlers.antt =====
-- The commands of tools/decb.py from their arguments on: what `main` calls. What a command shows is
-- its value; `list` alone writes bytes to standard output here.
pub mod Alter
pub mod Show
pub mod Directory
pub mod Dir
pub mod Make
pub mod CopyAll
pub mod Safe
pub mod Saved
pub mod Header
pub mod Refines
pub mod Runs
mod Tests
use xroar_dev.Base.{ℕ, Option, none, some, List, [], ◌∷◌, ◌==◌, if◌then◌else◌, length, drop}
use xroar_dev.Error.{Result, value_error, usage, not_image_path, err, ok, die_if}
use xroar_dev.Host.{◌>>=◌, ◌>>◌, Io, lift, write_host, bytes_of}
use xroar_dev.Image.{Image}
use xroar_dev.Text.{nonempty}
use xroar_dev.Paths.{ImagePath, split_image_path, normalize_disk_arg}
use xroar_dev.Copy.Flags.{is_option}

-- The letters of one option.
abbrev pub run_flags : {O : Type 0} → (ℕ → O → Result O) → List ℕ → O → Io O
run_flags flag [] o = lift (ok o)
run_flags flag (c ∷ cs) o = do o' ← lift (flag c o); run_flags flag cs o'

-- The options, and the other arguments in their order.
abbrev pub command_args :
    {O : Type 0} → (ℕ → O → Result O) → List (List ℕ) → O → Io (O × List (List ℕ))
command_args flag [] o = lift (ok (o, []))
command_args flag (a ∷ args) o = do
  o' ← (if is_option a then run_flags flag (drop 1 a) o else lift (ok o))
  (final, positional) ← command_args flag args o'
  lift (ok (final, if is_option a then positional else a ∷ positional))

-- `for a in args:`
abbrev pub each_arg : (List ℕ → Io (Unit {0})) → List (List ℕ) → Io (Unit {0})
each_arg run [] = lift (ok tt)
each_arg run (a ∷ args) = run a >> each_arg run args

-- The same, with what is shown for each argument.
abbrev pub show_each : {A : Type 0} → (List ℕ → Io A) → List (List ℕ) → Io (List A)
show_each run [] = lift (ok [])
show_each run (a ∷ args) = do shown ← run a; rest ← show_each run args; lift (ok (shown ∷ rest))

abbrev pub some_args : List (List ℕ) → Result (Unit {0})
some_args args = die_if (length args == 0) usage

abbrev pub named_path : Option ImagePath → Result ImagePath
named_path none = err not_image_path
named_path (some path) = if nonempty path.name then ok path else err not_image_path

-- `disk,NAME`
unfoldable pub file_arg : List ℕ → Io ImagePath
unfolding split_image_path
file_arg raw = do s ← lift (split_image_path raw); lift (named_path s)

abbrev pub unpacked : Option ImagePath → Result ImagePath
unpacked none = err value_error
unpacked (some path) = ok path

-- `disk`, with or without its comma.
unfoldable pub disk_arg : List ℕ → Io ImagePath
unfolding normalize_disk_arg split_image_path
disk_arg raw = do
  p ← lift (normalize_disk_arg raw)
  s ← lift (split_image_path p)
  lift (unpacked s)

-- `save_disk`
unfoldable pub save_image : ImagePath → Image → Io (Unit {0})
unfolding write_host bytes_of
save_image path d = write_host path.disk (bytes_of d)
