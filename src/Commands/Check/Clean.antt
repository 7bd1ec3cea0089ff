-- ===== src/Commands/Check/Clean.antt =====
-- What `check` guarantees of a drive in which it finds no problem.
use mathlib.Core.Path.{subst}
use native.Mathlib.Decide.{ℕ_discrete}
use xroar_dev.Base.{
  ℕ, zero, suc, ◌+◌, ◌≤◌, ◌<◌, ◌≡◌, refl, sym, ap, ◌∙◌, ◌≢◌, ◌⊎◌, true, List, [], ◌∷◌, ◌++◌, arith,
  ◌==◌, if◌then◌else◌, length, take, drop,
}
use xroar_dev.Error.{out_of_fuel, err, ok, ok-injective, bind-eq-ok, Result}
use xroar_dev.Image.{Image, get, slice}
use xroar_dev.Gat.Chain.{table}
use xroar_dev.Commands.Check.{
  valid_table_byte, table_problems, Trail, follow, Scan, check_entry, check_slots, orphans_from,
  runs_of, report_runs, Report, check_image,
}
use xroar_dev.Geometry.{entry_size, free, deleted, gat_offset, num_granules}
use xroar_dev.Directory.{dir_slots}
use xroar_dev.Commands.Wipe.{any_set}

table_round :
    (d : Image) (gat total n g : ℕ)
    → table_problems d gat total (suc n) g ≡ ok []
    → (valid_table_byte total (table d gat g) ≡ true)
      × (table_problems d gat total n (g + 1) ≡ ok [])
unfolding table_problems get
table_round d gat total n g h = (ground arith, ground arith)

table_problems-none :
    (d : Image) (gat total n g : ℕ)
    → table_problems d gat total n g ≡ ok []
    → (k : ℕ) → g ≤ k
    → k < g + n
    → valid_table_byte total (table d gat k) ≡ true
table_problems-none d gat total zero g h k lo hi = absurd (omega arith)
table_problems-none d gat total (suc n) g h k lo hi =
    let (here, rest) = table_round d gat total n g h in
    elim (ℕ_discrete k g) [
      | yes is ↦ subst (λ x. valid_table_byte total (table d gat x) ≡ true) (sym is) here
      | no ne ↦ table_problems-none d gat total n (g + 1) rest k (omega arith) (omega arith)
    ]

-- The walk along a chain ends: where the fuel and the granules visited are more than those of the
-- drive by two, and those visited more by one at most, the fuel never runs out.
pub follow_terminates :
    (fuel : ℕ) (d : Image) (gat total : ℕ) (name : List ℕ) (s : Trail) (g : ℕ)
    → total + 2 ≤ fuel + length s.visited
    → length s.visited ≤ total + 1
    → follow fuel d gat total name s g ≢ err out_of_fuel
unfolding follow get
follow_terminates zero d gat total name s g enough few h = omega arith
follow_terminates (suc fuel) d gat total name s g enough few h = ground (
  arith,
  follow_terminates fuel d gat total name
      (record s { owner = (g, name) ∷ s.owner; visited = g ∷ s.visited }) (d.byte (gat + g)),
)

append_none : {A : Type 0} (xs ys : List A) → xs ++ ys ≡ [] → (xs ≡ []) × (ys ≡ [])
append_none [] ys h = (refl, h)
append_none (x ∷ xs) ys h = cc h

append_one : {A : Type 0} (xs : List A) (y : A) → xs ++ y ∷ [] ≢ []
append_one [] y h = cc h
append_one (x ∷ xs) y h = cc h

-- A walk adds problems and removes none.
follow_keeps :
    (fuel : ℕ) (d : Image) (gat total : ℕ) (name : List ℕ) (s : Trail) (g : ℕ) {r : Trail}
    → follow fuel d gat total name s g ≡ ok r
    → r.found ≡ []
    → s.found ≡ []
unfolding follow get
follow_keeps zero d gat total name s g h none_found = cc h
follow_keeps (suc fuel) d gat total name s g {r} h none_found = ground (
  arith,
  append_one s.found,
  follow_keeps fuel d gat total name
      (record s { owner = (g, name) ∷ s.owner; visited = g ∷ s.visited }) (d.byte (gat + g))
      {r = r},
)

check_entry_keeps :
    (d : Image) (gat total : ℕ) (entry : List ℕ) (s : Scan) {r : Scan}
    → check_entry d gat total entry s ≡ ok r
    → r.problems ≡ []
    → s.problems ≡ []
unfolding check_entry
check_entry_keeps d gat total entry s {r} h clean =
    let (trail, walked, is) = bind-eq-ok (follow (total + 2) d gat total _ _ _) _ h in
    let all = ap (λ x. x.problems) (ok-injective is) ∙ clean in
    let start =
      follow_keeps (total + 2) d gat total _ _ _ walked (append_none trail.found _ all).0 in
    (append_none _ _ (append_none _ _ (append_none _ _ start).0).0).0

-- One slot of the scan.
abbrev slot_step : Image → ℕ → ℕ → ℕ → ℕ → Scan → Result Scan
slot_step d gat total off first s =
    if first == free
    then ok s
    else if first == deleted
    then ok (
        if any_set (take 10 (drop 1 (slice d off entry_size)))
        then record s { deleted_entries = s.deleted_entries + 1 }
        else s)
    else check_entry d gat total (slice d off entry_size) s

slot_step_keeps :
    (d : Image) (gat total off first : ℕ) (s : Scan) {r : Scan}
    → slot_step d gat total off first s ≡ ok r
    → r.problems ≡ []
    → s.problems ≡ []
slot_step_keeps d gat total off first s {r} h clean =
    ground (arith, check_entry_keeps d gat total (slice d off entry_size) s {r = r})

check_slots_keeps :
    (d : Image) (gat total : ℕ) (offs : List ℕ) (s : Scan) {r : Scan}
    → check_slots d gat total offs s ≡ ok r
    → r.problems ≡ []
    → s.problems ≡ []
unfolding check_slots get
check_slots_keeps d gat total [] s {r} h clean = ap (λ x. x.problems) (ok-injective h) ∙ clean
check_slots_keeps d gat total (off ∷ offs) s {r} h clean =
    let (first, read, h1) = bind-eq-ok (get d off) _ h in
    let (s', step, h2) = bind-eq-ok (slot_step d gat total off first s) _ h1 in
    slot_step_keeps d gat total off first s step (check_slots_keeps d gat total offs s' h2 clean)

-- A free mark, a granule of the drive, or a terminator of at most nine sectors.
abbrev pub TableByte : ℕ → ℕ → Type 0
TableByte total b = (b ≡ 0xFF) ⊎ (b < total) ⊎ ((0xC0 ≤ b) × (b ≤ 0xC9))

valid_table_byte_lem : (total b : ℕ) → valid_table_byte total b ≡ true → TableByte total b
valid_table_byte_lem total b h = ground arith

-- On a drive in which `check` finds no problem, every byte of the table is the free mark, a link to a
-- granule of the drive, or a terminator of at most nine sectors.
pub check_image_clean_table :
    (d : Image) (base tracks : ℕ) {r : Report}
    → check_image d base tracks ≡ ok r
    → r.problems ≡ []
    → (g : ℕ) → g < num_granules tracks
    → TableByte (num_granules tracks) (table d (gat_offset base) g)
unfolding check_image
check_image_clean_table d base tracks {r} h clean g lt =
    let total = num_granules tracks in
    let gat = gat_offset base in
    let (table_errors, scanned, h1) = bind-eq-ok (table_problems d gat total total 0) _ h in
    let (s, walked, h2) = bind-eq-ok (check_slots d gat total (dir_slots base) _) _ h1 in
    let (orphans, found, h3) = bind-eq-ok (orphans_from d gat s.owner total 0) _ h2 in
    let (reported, told, h4) = bind-eq-ok (report_runs d gat (runs_of orphans)) _ h3 in
    let all = ap (λ x. x.problems) (ok-injective h4) ∙ clean in
    let none_first : table_errors ≡ [] =
      check_slots_keeps d gat total (dir_slots base) _ walked
        (append_none s.problems reported.0 all).0 in
    valid_table_byte_lem total (table d gat g) (
      table_problems-none d gat total total 0
        (subst (λ x. table_problems d gat total total 0 ≡ ok x) none_first scanned) g (omega arith)
        (omega arith))
