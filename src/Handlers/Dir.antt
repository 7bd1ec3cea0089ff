-- ===== src/Handlers/Dir.antt =====
-- `cmd_dir` of tools/decb.py, from its arguments on.
use xroar_dev.Base.{ℕ, Bool, false, Option, List}
use xroar_dev.Host.{◌>>=◌, ◌>>◌, Io, lift}
use xroar_dev.Handlers.{command_args, show_each, some_args, disk_arg}
use xroar_dev.Handlers.Directory.{Shown, dir_lines, dir_flag}
use xroar_dev.Copy.{open_image}
use xroar_dev.Copy.Flags.{is_option}

unfoldable pub dir_arg : Bool → List ℕ → Io (Option (List ℕ) × List Shown)
unfolding disk_arg open_image dir_lines
dir_arg show_deleted raw = do
  path ← disk_arg raw
  o ← open_image path
  lift (dir_lines o.image o.view.base o.view.tracks show_deleted)

unfoldable pub cmd_dir : List (List ℕ) → Io (List (Option (List ℕ) × List Shown))
unfolding dir_flag is_option dir_arg
cmd_dir args = do
  (show_deleted, paths) ← command_args dir_flag args false
  lift (some_args paths) >> show_each (dir_arg show_deleted) paths
