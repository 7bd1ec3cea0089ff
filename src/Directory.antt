-- ===== src/Directory.antt =====
-- The directory of tools/decb.py: 72 slots of 32 bytes in sectors 3 to 11 of track 17.
pub mod Slots
pub mod Search
pub mod Fresh
use xroar_dev.Base.{
  ℕ, zero, suc, ◌+◌, ◌-◌, ◌*◌, ◌/◌, Bool, not, ◌&&◌, ◌||◌, Option, none, some, List, [], ◌∷◌, ◌++◌,
  ◌==◌, if◌then◌else◌, take, drop, list_eq,
}
use xroar_dev.Error.{Result, file_exists, directory_full, ok, err, ◌>>=◌}
use xroar_dev.Image.{Image, get, slice}
use xroar_dev.Geometry.{
  sector, dir_track, dir_first_sector, dir_last_sector, entry_size, free, deleted, track_offset,
}

-- `range(0, SECTOR, ENTRY_SIZE)` of one sector, and the sectors from `dir_first_sector` on.
unfoldable pub sector_slots : ℕ → ℕ → List ℕ
sector_slots off zero = []
sector_slots off (suc n) = off ∷ sector_slots (off + entry_size) n

unfoldable pub sectors_slots : ℕ → ℕ → List ℕ
unfolding sector_slots
sectors_slots off zero = []
sectors_slots off (suc n) = sector_slots off (sector / entry_size) ++ sectors_slots (off + sector) n

-- The offsets that `iter_dir_entries` yields, in its order.
unfoldable pub dir_slots : ℕ → List ℕ
unfolding sectors_slots track_offset
dir_slots base =
    sectors_slots (track_offset dir_track base + dir_first_sector * sector)
      (dir_last_sector + 1 - dir_first_sector)

-- `first not in (FREE, DELETED)`
abbrev pub live : ℕ → Bool
live first = not ((first == free) || (first == deleted))

-- `find_entry` from some slots on.
unfoldable pub find_in : Image → List ℕ → List ℕ → Result (Option ℕ)
find_in d name_field [] = ok none
find_in d name_field (off ∷ offs) = do
  first ← get d off
  let rest = find_in d name_field offs
  if live first && list_eq (slice d off 11) name_field then ok (some off) else rest

unfoldable pub find_entry : Image → List ℕ → ℕ → Result (Option ℕ)
unfolding find_in dir_slots
find_entry d name_field base = find_in d name_field (dir_slots base)

-- `first_free`, after a slot that may serve.
abbrev pub or_else : Option ℕ → ℕ → Option ℕ
or_else none off = some off
or_else (some o) off = some o

-- `find_dir_entry` from some slots on, with `first_free` so far.
unfoldable pub find_slot_in : Image → List ℕ → Bool → List ℕ → Option ℕ → Result ℕ
find_slot_in d name_field rewrite [] none = err directory_full
find_slot_in d name_field rewrite [] (some off) = ok off
find_slot_in d name_field rewrite (off ∷ offs) first_free = do
  first ← get d off
  let rest =
      find_slot_in d name_field rewrite offs
        (if live first then first_free else or_else first_free off)
  if live first && list_eq (slice d off 11) name_field
      then (if rewrite then ok off else err file_exists)
      else rest

unfoldable pub find_dir_entry : Image → List ℕ → Bool → ℕ → Result ℕ
unfolding find_slot_in dir_slots
find_dir_entry d name_field rewrite base = find_slot_in d name_field rewrite (dir_slots base) none

-- The entries that match a deleted name on bytes 1 to 10.
unfoldable pub deleted_in : Image → List ℕ → List ℕ → Result (List ℕ)
deleted_in d name_field [] = ok []
deleted_in d name_field (off ∷ offs) = do
  first ← get d off
  hits ← deleted_in d name_field offs
  ok (
      if (first == deleted) && list_eq (slice d (off + 1) 10) (take 10 (drop 1 name_field))
      then off ∷ hits
      else hits)

unfoldable pub find_deleted : Image → List ℕ → ℕ → Result (List ℕ)
unfolding deleted_in dir_slots
find_deleted d name_field base = deleted_in d name_field (dir_slots base)
