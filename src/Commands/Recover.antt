-- ===== src/Commands/Recover.antt =====
-- Recovery of deleted files: `deleted_status`, `trim_recovered` and `recover_deleted` of tools/decb.py.
use xroar_dev.Base.{
  ℕ, zero, suc, ◌+◌, ◌-◌, ◌*◌, ◌%◌, not, ◌&&◌, ◌||◌, List, [], ◌∷◌, ltb, leb, ◌==◌, if◌then◌else◌,
  length, get_or, take, elem,
}
use xroar_dev.Error.{
  Result, no_deleted_file, many_deleted_files, not_recoverable, ok, err, ◌>>=◌, ◌>>◌, die_if,
}
use xroar_dev.Image.{Image, get, slice}
use xroar_dev.Geometry.{sector, entry_size, free, deleted, gat_offset, num_granules}
use xroar_dev.Names.{encode_name}
use xroar_dev.Directory.{dir_slots, find_deleted}
use xroar_dev.DiskFile.{read_granules}
use xroar_dev.Gat.{last_sector_size}

-- The two reasons against recovery, or none.
pub data Status : Type 0 where
  bad_first_granule reallocated recoverable : Status

unfoldable pub deleted_status : Image → List ℕ → ℕ → ℕ → Result Status
unfolding gat_offset
deleted_status d entry total_grans base =
    let first = get_or entry 13 0 in
    if leb total_grans first
    then ok bad_first_granule
    else do b ← get d (gat_offset base + first); ok (if b == free then recoverable else reallocated)

-- How the length of a recovered run was found.
pub data Method : Type 0 where
  basic_header decb_postamble only_fill approximate : Method

-- The offset of the postamble behind the segments from `pos` on; each takes five bytes at least.
unfoldable pub skip_segments : ℕ → List ℕ → ℕ → ℕ
skip_segments zero raw pos = pos
skip_segments (suc fuel) raw pos =
    let next =
      skip_segments fuel raw
        (pos + (5 + (get_or raw (pos + 1) 0 * 256 + get_or raw (pos + 2) 0))) in
    if leb (pos + 5) (length raw) && (get_or raw pos 0 == 0x00) then next else pos

-- The length without the bytes `fill` at the end.
unfoldable pub trim_fill : ℕ → List ℕ → ℕ
trim_fill fill [] = 0
trim_fill fill (b ∷ bytes) = elim (trim_fill fill bytes) [
  | zero ↦ if b == fill then 0 else 1
  | suc n ↦ suc (suc n)
]

abbrev last_byte : List ℕ → ℕ
last_byte raw = get_or raw (length raw - 1) 0

-- The third rule: strip the fill, and round up to a size that fits the last-sector byte count.
unfoldable pub trim_approximate : List ℕ → ℕ → List ℕ × Method
unfolding trim_fill
trim_approximate raw lss =
    let filled = ltb 0 (length raw) && ((last_byte raw == 0xFF) || (last_byte raw == 0x00)) in
    let t = (if filled then trim_fill (last_byte raw) raw else length raw) in
    let s = t + (lss + t * 255) % sector in
    if t == 0
    then ([], only_fill)
    else (take (if ltb (length raw) s then t else s) raw, approximate)

unfoldable pub trim_decb : List ℕ → ℕ → List ℕ × Method
unfolding skip_segments trim_approximate
trim_decb raw lss =
    let pos = skip_segments (length raw) raw 0 in
    if (get_or raw 0 1 == 0x00)
      && (leb (pos + 5) (length raw)
          && (get_or raw pos 0 == 0xFF)
          && (get_or raw (pos + 1) 0 == 0)
          && (get_or raw (pos + 2) 0 == 0))
    then (take (pos + 5) raw, decb_postamble)
    else trim_approximate raw lss

unfoldable pub trim_recovered : List ℕ → ℕ → List ℕ × Method
unfolding trim_decb
trim_recovered raw lss =
    let n = get_or raw 1 0 * 256 + get_or raw 2 0 in
    if (get_or raw 0 0 == 0xFF) && leb 3 (length raw) && ltb 0 n && leb n (length raw - 3)
    then (take (3 + n) raw, basic_header)
    else trim_decb raw lss

-- The first granules of the other deleted entries.
unfoldable pub stops_in : Image → ℕ → List ℕ → Result (List ℕ)
stops_in d off [] = ok []
stops_in d off (o ∷ offs) = do
  first ← get d o
  stops ← stops_in d off offs
  if (first == deleted) && not (o == off) then (do g ← get d (o + 13); ok (g ∷ stops)) else ok stops

-- The free run from `g` on, `n` granules at most.
unfoldable pub free_run : Image → ℕ → List ℕ → ℕ → ℕ → Result (List ℕ)
free_run d gat stops zero g = ok []
free_run d gat stops (suc n) g = do
  b ← get d (gat + g)
  let rest = free_run d gat stops n (g + 1)
  if (b == free) && not (elem g stops) then (do grans ← rest; ok (g ∷ grans)) else ok []

-- The payload, the file type, the ASCII flag and how the length was found.
unfoldable pub recover_deleted : Image → List ℕ → ℕ → ℕ → Result (List ℕ × ℕ × ℕ × Method)
unfolding encode_name find_deleted deleted_status stops_in free_run trim_recovered last_sector_size
    read_granules gat_offset num_granules dir_slots
recover_deleted d name base tracks = do
  let total_grans = num_granules tracks
  name_field ← encode_name name
  hits ← find_deleted d name_field base
  elim hits [
    | [] ↦ err no_deleted_file
    | off ∷ more ↦ do
      die_if (ltb 0 (length more)) many_deleted_files
      let entry = slice d off entry_size
      status ← deleted_status d entry total_grans base
      elim status [
        | recoverable ↦ do
          stops ← stops_in d off (dir_slots base)
          let first = get_or entry 13 0
          run ← free_run d (gat_offset base) stops (total_grans - (first + 1)) (first + 1)
          let raw = read_granules d base (first ∷ run)
          let (payload, method) =
              trim_recovered raw (last_sector_size (get_or entry 14 0) (get_or entry 15 0))
          ok (payload, get_or entry 11 0, get_or entry 12 0, method)
        | _ ↦ err not_recoverable
      ]
  ]

-- The payload with its type and flag only.
abbrev pub drop_method : Result (List ℕ × ℕ × ℕ × Method) → Result (List ℕ × ℕ × ℕ)
drop_method (err e) = err e
drop_method (ok (payload, ftype, ascii_flag, method)) = ok (payload, ftype, ascii_flag)
