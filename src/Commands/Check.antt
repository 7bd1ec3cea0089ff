-- ===== src/Commands/Check.antt =====
-- `cmd_check` of tools/decb.py, from the loaded image on: what it reports, in the order in which it
-- finds it. A problem is a value with what its message shows.
pub mod Clean
use xroar_dev.Base.{
  ℕ, zero, suc, ◌+◌, ◌-◌, ◌*◌, ◌%◌, Bool, true, false, not, ◌&&◌, ◌||◌, Option, none, some, List,
  [], ◌∷◌, ◌++◌, ltb, leb, ◌==◌, if◌then◌else◌, length, get_or, take, drop, list_eq, elem,
}
use xroar_dev.Error.{Result, out_of_fuel, err, ok, ◌>>=◌}
use xroar_dev.Image.{Image, get, slice}
use xroar_dev.Geometry.{
  granule_sectors, free, sector, entry_size, deleted, gat_offset, num_granules,
}
use xroar_dev.Names.{entry_to_name}
use xroar_dev.Directory.{dir_slots}
use xroar_dev.Commands.Wipe.{any_set}

pub data Problem : Type 0 where
  bad_table_byte : ℕ → ℕ → Problem
  duplicate_entry : List ℕ → Problem
  bad_file_type bad_data_type : List ℕ → ℕ → Problem
  points_past_disk : List ℕ → ℕ → Problem
  cross_linked : List ℕ → ℕ → List ℕ → Problem
  chain_loops runs_into_free : List ℕ → ℕ → Problem
  bad_terminator : List ℕ → ℕ → ℕ → Problem
  bad_last_bytes bytes_without_sectors : List ℕ → ℕ → Problem
  orphaned_granules : List ℕ → Problem

-- 1. Every table byte must be free, a valid link, or a terminator.
abbrev pub valid_table_byte : ℕ → ℕ → Bool
valid_table_byte total_grans b =
    (b == free) || ltb b total_grans || (leb 0xC0 b && leb b (0xC0 + granule_sectors))

unfoldable pub table_problems : Image → ℕ → ℕ → ℕ → ℕ → Result (List Problem)
table_problems d gat total_grans zero g = ok []
table_problems d gat total_grans (suc n) g = do
  b ← get d (gat + g)
  rest ← table_problems d gat total_grans n (g + 1)
  ok (if valid_table_byte total_grans b then rest else bad_table_byte g b ∷ rest)

-- `owner`, `visited`, `sectors` and the problems of the walk along one chain.
pub record Trail : Type 0 where
  pub owner : List (ℕ × List ℕ)
  pub visited : List ℕ
  pub sectors : Option ℕ
  pub found : List Problem

abbrev pub owner_of : ℕ → List (ℕ × List ℕ) → Option (List ℕ)
owner_of g [] = none
owner_of g ((h, name) ∷ owner) = if h == g then some name else owner_of g owner

abbrev pub stop_with : Trail → Problem → Result Trail
stop_with s problem = ok (record s { found = s.found ++ problem ∷ [] })

-- The loop that walks a live file's chain. Each round visits a granule or stops.
unfoldable pub follow : ℕ → Image → ℕ → ℕ → List ℕ → Trail → ℕ → Result Trail
follow zero d gat total_grans name s g = err out_of_fuel
follow (suc fuel) d gat total_grans name s g =
    if leb total_grans g then stop_with s (points_past_disk name g) else elim (owner_of g s.owner) [
      | some other ↦ stop_with s (cross_linked name g other)
      | none ↦
          if elem g s.visited || ltb total_grans (length s.visited)
          then stop_with s (chain_loops name g)
          else do
            b ← get d (gat + g)
            let s' = record s { owner = (g, name) ∷ s.owner; visited = g ∷ s.visited }
            let rest = follow fuel d gat total_grans name s' b
            if b == free
                then stop_with s' (runs_into_free name g)
                else if leb 0xC0 b
                then (if ltb granule_sectors (b % 64)
                    then stop_with s' (bad_terminator name b (b % 64))
                    else ok (record s' {
                      sectors = some ((length s'.visited - 1) * granule_sectors + b % 64);
                    }))
                else rest
    ]

-- `seen_names`, `owner`, the count of deleted entries and the problems so far.
pub record Scan : Type 0 where
  pub owner : List (ℕ × List ℕ)
  pub seen_names : List (List ℕ)
  pub deleted_entries : ℕ
  pub problems : List Problem

unfoldable pub name_seen : List ℕ → List (List ℕ) → Bool
name_seen name [] = false
name_seen name (seen ∷ names) = list_eq name seen || name_seen name names

-- The byte count of the last sector against the sectors of the chain.
abbrev pub last_sector_problems : List ℕ → List ℕ → Option ℕ → List Problem
last_sector_problems name entry none = []
last_sector_problems name entry (some sectors) =
    let lss = get_or entry 14 0 * 256 + get_or entry 15 0 in
    (if ltb 0 sectors && not (leb 1 lss && leb lss sector)
      then bad_last_bytes name lss ∷ []
      else [])
    ++ (if (sectors == 0) && not (lss == 0) then bytes_without_sectors name lss ∷ [] else [])

-- A live entry.
unfoldable pub check_entry : Image → ℕ → ℕ → List ℕ → Scan → Result Scan
unfolding follow name_seen entry_to_name
check_entry d gat total_grans entry s = do
  let name = entry_to_name (take 11 entry)
  let ft = get_or entry 11 0
  let dt = get_or entry 12 0
  let problems =
      s.problems
      ++ (if name_seen name s.seen_names then duplicate_entry name ∷ [] else [])
      ++ (if ltb 3 ft then bad_file_type name ft ∷ [] else [])
      ++ (if (dt == 0x00) || (dt == 0xFF) then [] else bad_data_type name dt ∷ [])
  trail ←
      follow (total_grans + 2) d gat total_grans name
        (record { owner = s.owner; visited = []; sectors = none; found = problems })
        (get_or entry 13 0)
  ok (record {
    owner = trail.owner;
    seen_names = name ∷ s.seen_names;
    deleted_entries = s.deleted_entries;
    problems = trail.found ++ last_sector_problems name entry trail.sectors;
  })

-- 2. Walk every live file's chain.
unfoldable pub check_slots : Image → ℕ → ℕ → List ℕ → Scan → Result Scan
unfolding check_entry any_set
check_slots d gat total_grans [] s = ok s
check_slots d gat total_grans (off ∷ offs) s = do
  first ← get d off
  let entry = slice d off entry_size
  s' ←
      if first == free
      then ok s
      else if first == deleted
      then ok (
          if any_set (take 10 (drop 1 entry))
          then record s { deleted_entries = s.deleted_entries + 1 }
          else s)
      else check_entry d gat total_grans entry s
  check_slots d gat total_grans offs s'

abbrev pub is_owned : Option (List ℕ) → Bool
is_owned none = false
is_owned (some name) = true

-- 3. Allocated granules no live file owns.
unfoldable pub orphans_from : Image → ℕ → List (ℕ × List ℕ) → ℕ → ℕ → Result (List ℕ)
orphans_from d gat owner zero g = ok []
orphans_from d gat owner (suc n) g = do
  b ← get d (gat + g)
  rest ← orphans_from d gat owner n (g + 1)
  ok (if not (b == free) && not (is_owned (owner_of g owner)) then g ∷ rest else rest)

-- Runs of granules that follow one another.
abbrev pub add_to_runs : ℕ → List (List ℕ) → List (List ℕ)
add_to_runs g [] = (g ∷ []) ∷ []
add_to_runs g ([] ∷ runs) = (g ∷ []) ∷ runs
add_to_runs g ((h ∷ run) ∷ runs) =
    if h == g + 1 then (g ∷ h ∷ run) ∷ runs else (g ∷ []) ∷ (h ∷ run) ∷ runs

unfoldable pub runs_of : List ℕ → List (List ℕ)
runs_of [] = []
runs_of (g ∷ grans) = add_to_runs g (runs_of grans)

unfoldable pub all_reserved : Image → ℕ → List ℕ → Result Bool
all_reserved d gat [] = ok true
all_reserved d gat (g ∷ run) = do
  b ← get d (gat + g)
  rest ← all_reserved d gat run
  ok ((b == 0x00) && rest)

-- The problems of orphaned runs, and the reserved runs, which are only noted.
unfoldable pub report_runs : Image → ℕ → List (List ℕ) → Result (List Problem × List (List ℕ))
unfolding all_reserved
report_runs d gat [] = ok ([], [])
report_runs d gat (run ∷ rest) = do
  reserved ← all_reserved d gat run
  (problems, notes) ← report_runs d gat rest
  ok (if reserved then (problems, run ∷ notes) else (orphaned_granules run ∷ problems, notes))

pub record Report : Type 0 where
  pub problems : List Problem
  pub notes : List (List ℕ)
  pub deleted_entries : ℕ

-- One drive; the exit status is 1 where there is a problem.
unfoldable pub check_image : Image → ℕ → ℕ → Result Report
unfolding table_problems check_slots orphans_from runs_of report_runs num_granules gat_offset
    dir_slots
check_image d base tracks = do
  let total_grans = num_granules tracks
  let gat = gat_offset base
  table_errors ← table_problems d gat total_grans total_grans 0
  s ←
      check_slots d gat total_grans (dir_slots base)
        (record { owner = []; seen_names = []; deleted_entries = 0; problems = table_errors })
  orphans ← orphans_from d gat s.owner total_grans 0
  (errors, notes) ← report_runs d gat (runs_of orphans)
  ok (record {
    problems = s.problems ++ errors;
    notes = notes;
    deleted_entries = s.deleted_entries;
  })
