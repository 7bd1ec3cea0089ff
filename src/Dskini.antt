-- ===== src/Dskini.antt =====
-- `cmd_dskini` of tools/decb.py: the options, and the bytes of a new drive.
use xroar_dev.Base.{
  ℕ, zero, suc, ◌+◌, ◌*◌, Bool, Option, none, some, List, [], ◌∷◌, ◌++◌, if◌then◌else◌, length,
}
use xroar_dev.Error.{Result, ok, ◌>>=◌}
use xroar_dev.Image.{Image, put, splice}
use xroar_dev.Geometry.{sector, spt, dir_track, track_offset, gat_offset}
use xroar_dev.Names.{encode_latin1}

-- `bytearray(b"\xFF" * (tracks * SPT * SECTOR))`
unfoldable pub blank : ℕ → Image
blank tracks = record { size = tracks * spt * sector; byte = λ k. 0xFF }

-- `dskini -s`: granules 0 to `n - 1` are reserved.
unfoldable pub reserve : ℕ → Image → ℕ → ℕ → Result Image
reserve gat d zero g = ok d
reserve gat d (suc n) g = do d' ← put d (gat + g) 0x00; reserve gat d' n (g + 1)

abbrev pub skitzo_granules : ℕ
skitzo_granules = 34

abbrev pub hdb_name_sector : ℕ
hdb_name_sector = 16

-- `dskini -n`: the name and a NUL.
unfoldable pub name_drive : Option (List ℕ) → Image → Result Image
unfolding encode_latin1 track_offset
name_drive none d = ok d
name_drive (some disk_name) d = do
  encoded ← encode_latin1 disk_name
  let field = encoded ++ 0x00 ∷ []
  ok (splice d (track_offset dir_track 0 + hdb_name_sector * sector) (length field) field)

unfoldable pub new_drive : ℕ → Bool → Option (List ℕ) → Result Image
unfolding blank reserve name_drive gat_offset
new_drive tracks skitzo disk_name = do
  reserved ←
      (if skitzo
        then reserve (gat_offset 0) (blank tracks) skitzo_granules 0
        else ok (blank tracks))
  name_drive disk_name reserved
