-- ===== src/Commands/Wipe.antt =====
-- `cmd_wipe` of tools/decb.py, from the loaded image on.
use xroar_dev.Base.{
  ℕ, zero, suc, ◌+◌, ◌-◌, ◌*◌, ◌%◌, min, Bool, false, not, ◌&&◌, ◌||◌, Option, none, some, List, [],
  ◌∷◌, leb, ◌==◌, if◌then◌else◌, replicate,
}
use xroar_dev.Error.{Result, ok, ◌>>=◌}
use xroar_dev.Image.{Image, get, slice, splice}
use xroar_dev.Geometry.{
  sector, granule_sectors, entry_size, free, deleted, granule_offset, gat_offset, num_granules,
}
use xroar_dev.Directory.{dir_slots}

-- `n` sectors from offset `off` on.
unfoldable pub zero_sectors : Image → ℕ → ℕ → Image
zero_sectors d off zero = d
zero_sectors d off (suc n) =
    zero_sectors (splice d off sector (replicate sector 0x00)) (off + sector) n

-- The first sector that is not in use, by the granule's byte in the table; `none` for a granule that
-- is not the last of a chain.
unfoldable pub slack_from : ℕ → Option ℕ
slack_from b =
    if b == free then some 0 else if leb 0xC0 b then some (min (b % 64) granule_sectors) else none

unfoldable pub wipe_granule : Image → ℕ → ℕ → Option ℕ → Image
unfolding zero_sectors granule_offset
wipe_granule d base g none = d
wipe_granule d base g (some lo) =
    zero_sectors d (granule_offset g base + lo * sector) (granule_sectors - lo)

-- The granules from `g` on, `n` of them.
unfoldable pub wipe_granules : Image → ℕ → ℕ → ℕ → Result Image
unfolding wipe_granule slack_from gat_offset
wipe_granules d base zero g = ok d
wipe_granules d base (suc n) g = do
  b ← get d (gat_offset base + g)
  wipe_granules (wipe_granule d base g (slack_from b)) base n (g + 1)

-- `any(bytes)`
unfoldable pub any_set : List ℕ → Bool
any_set [] = false
any_set (b ∷ bytes) = not (b == 0) || any_set bytes

unfoldable pub scrub_slots : Image → List ℕ → Result Image
unfolding any_set
scrub_slots d [] = ok d
scrub_slots d (off ∷ offs) = do
  first ← get d off
  scrub_slots
      (if (first == deleted) && any_set (slice d (off + 1) (entry_size - 1))
        then splice d off entry_size (replicate entry_size 0x00)
        else d)
      offs

unfoldable pub wipe : Image → ℕ → ℕ → Result Image
unfolding wipe_granules scrub_slots num_granules dir_slots
wipe d base tracks = do
  wiped ← wipe_granules d base (num_granules tracks) 0
  scrub_slots wiped (dir_slots base)
