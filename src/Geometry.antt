-- ===== src/Geometry.antt =====
-- Where things lie on a disk image: the constants and the offset functions of tools/decb.py.
pub mod Bounds
use xroar_dev.Base.{ℕ, ◌+◌, ◌-◌, ◌*◌, ◌/◌, ◌%◌, leb, ◌==◌, if◌then◌else◌}
use xroar_dev.Image.{Image}

abbrev pub sector : ℕ
sector = 256

-- sectors per track
abbrev pub spt : ℕ
spt = 18

abbrev pub granule_sectors : ℕ
granule_sectors = 9

abbrev pub granule : ℕ
granule = granule_sectors * sector

abbrev pub dir_track : ℕ
dir_track = 17

abbrev pub gat_sector : ℕ
gat_sector = 1

abbrev pub dir_first_sector : ℕ
dir_first_sector = 2

abbrev pub dir_last_sector : ℕ
dir_last_sector = 10

abbrev pub entry_size : ℕ
entry_size = 32

abbrev pub free : ℕ
free = 0xFF

abbrev pub deleted : ℕ
deleted = 0x00

-- one 35-track drive of an HDB-DOS pack
abbrev pub drive_size : ℕ
drive_size = 35 * spt * sector

unfoldable pub granule_track : ℕ → ℕ
granule_track g = let t = g / 2 in if leb dir_track t then t + 1 else t

unfoldable pub granule_offset : ℕ → ℕ → ℕ
unfolding granule_track
granule_offset g base =
    let t = granule_track g in
    let half = if g % 2 == 0 then 0 else granule_sectors in base + (t * spt + half) * sector

unfoldable pub track_offset : ℕ → ℕ → ℕ
track_offset track base = base + track * spt * sector

unfoldable pub gat_offset : ℕ → ℕ
unfolding track_offset
gat_offset base = track_offset dir_track base + gat_sector * sector

-- Python's -2 for no track at all is 0 here; it is only compared with and counted up to.
unfoldable pub num_granules : ℕ → ℕ
num_granules tracks = (tracks - 1) * 2

unfoldable pub disk_tracks : Image → ℕ
disk_tracks d = d.size / (spt * sector)
