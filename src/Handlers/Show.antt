-- ===== src/Handlers/Show.antt =====
-- `cmd_free`, `cmd_stat`, `cmd_list`, `cmd_dump` and `cmd_check` of tools/decb.py.
use xroar_dev.Base.{
  ℕ, zero, suc, ◌+◌, ◌-◌, ◌*◌, Bool, true, false, not, ◌&&◌, Option, none, some, List, [], ◌∷◌, ltb,
  ◌==◌, if◌then◌else◌, length, get_or, drop,
}
use xroar_dev.Error.{Result, unknown_option, usage, err, ok, die_if}
use xroar_dev.Host.{◌>>=◌, ◌>>◌, Io, lift, read_host, print_bytes}
use xroar_dev.Image.{Image, slice}
use xroar_dev.Handlers.{
  command_args, each_arg, show_each, some_args, file_arg, disk_arg, named_path,
}
use xroar_dev.Geometry.{sector, granule}
use xroar_dev.Copy.{Opened, open_image}
use xroar_dev.Eol.{decb_to_native}
use xroar_dev.Segments.{srec_encode}
use xroar_dev.Basic.{is_digit, detokenize_cocobas}
use xroar_dev.Paths.{ImagePath, split_image_path, parse_dump_where}
use xroar_dev.DiskFile.{read_file}
use xroar_dev.Commands.Check.{Report, check_image}
use xroar_dev.Commands.Edit.{Stat, free_granules, stat_file}
use xroar_dev.Copy.Flags.{is_option}

-- The free granules and their bytes.
unfoldable pub free_arg : List ℕ → Io (ℕ × ℕ)
unfolding disk_arg open_image free_granules
free_arg raw = do
  path ← disk_arg raw
  o ← open_image path
  n ← lift (free_granules o.image o.view.base o.view.tracks)
  lift (ok (n, n * granule))

unfoldable pub cmd_free : List (List ℕ) → Io (List (ℕ × ℕ))
unfolding free_arg
cmd_free args = lift (some_args args) >> show_each free_arg args

unfoldable pub stat_arg : List ℕ → Io Stat
unfolding file_arg open_image stat_file
stat_arg raw = do
  path ← file_arg raw
  o ← open_image path
  lift (stat_file o.image path.name o.view.base o.view.tracks)

unfoldable pub cmd_stat : List (List ℕ) → Io (List Stat)
unfolding stat_arg
cmd_stat args = lift (some_args args) >> show_each stat_arg args

-- Tokens are to be listed as text, and the bytes as S-records.
abbrev pub ListOptions : Type 0
ListOptions = Bool × Bool

unfoldable pub list_flag : ℕ → ListOptions → Result ListOptions
list_flag c (detoken, srec) =
    if c == b't'
    then ok (true, srec)
    else if c == b's'
    then ok (detoken, true)
    else err (unknown_option c)

abbrev pub payload_at : List ℕ → Option ImagePath → Io (List ℕ)
payload_at p none = read_host p
payload_at p (some path) = do
  named ← lift (named_path (some path))
  o ← open_image named
  (payload, ftype, ascii_flag) ← lift (read_file o.image named.name o.view.base o.view.tracks)
  lift (ok payload)

unfoldable pub list_arg : ListOptions → List ℕ → Io (Unit {0})
unfolding split_image_path open_image read_file read_host detokenize_cocobas srec_encode
    decb_to_native print_bytes
list_arg (detoken, srec) p = do
  path ← lift (split_image_path p)
  payload ← payload_at p path
  text ← lift (if detoken then detokenize_cocobas payload else ok payload)
  shown ← lift (if srec then srec_encode text else ok text)
  print_bytes (decb_to_native shown)

unfoldable pub cmd_list : List (List ℕ) → Io (Unit {0})
unfolding list_flag is_option list_arg
cmd_list args = do
  (o, paths) ← command_args list_flag args (false, false)
  lift (some_args paths) >> each_arg (list_arg o) paths

-- `dump` has no options; a location may begin with a sign.
unfoldable pub is_dump_option : List ℕ → Bool
unfolding is_digit
is_dump_option a = (get_or a 0 0 == b'-') && ltb 1 (length a) && not (is_digit (get_or a 1 0))

unfoldable pub dump_args : List (List ℕ) → Result (Unit {0})
unfolding is_dump_option
dump_args [] = ok tt
dump_args (a ∷ args) = if is_dump_option a then err usage else dump_args args

-- The sectors from `lsn` on, `n` of them, each with its number and its bytes.
unfoldable pub dump_sectors : Image → ℕ → ℕ → ℕ → List (ℕ × List ℕ)
unfolding slice
dump_sectors d base lsn zero = []
dump_sectors d base lsn (suc n) =
    (lsn, slice d (base + lsn * sector) sector) ∷ dump_sectors d base (lsn + 1) n

unfoldable pub dump_where : Opened → List ℕ → Result (List (ℕ × List ℕ))
unfolding parse_dump_where dump_sectors
dump_where o w = elim (parse_dump_where w o.view.tracks) [
  | err e ↦ err e
  | ok (lo, hi) ↦ ok (dump_sectors o.image o.view.base lo (hi + 1 - lo))
]

unfoldable pub cmd_dump : List (List ℕ) → Io (List (List (ℕ × List ℕ)))
unfolding dump_args disk_arg open_image dump_where
cmd_dump args =
    lift (dump_args args)
    >> (lift (die_if (ltb (length args) 2) usage) >> (do
      path ← disk_arg (get_or args 0 [])
      o ← open_image path
      show_each (λ w. lift (dump_where o w)) (drop 1 args)))

unfoldable pub check_arg : List ℕ → Io Report
unfolding disk_arg open_image check_image
check_arg raw = do
  path ← disk_arg raw
  o ← open_image path
  lift (check_image o.image o.view.base o.view.tracks)

abbrev pub exit_status : List Report → ℕ
exit_status [] = 0
exit_status (r ∷ reports) = elim r.problems [ [] ↦ exit_status reports | p ∷ ps ↦ 1 ]

-- The reports and the exit status.
unfoldable pub cmd_check : List (List ℕ) → Io (List Report × ℕ)
unfolding check_arg
cmd_check args = do
  reports ← lift (some_args args) >> show_each check_arg args
  lift (ok (reports, exit_status reports))
