-- ===== src/Paths/Tests.antt =====
-- Paths and locations as the command line takes them.
use xroar_dev.Base.{ℕ, ◌*◌, ◌≤◌, ◌<◌, ◌≡◌, refl, Option, some, List, [], arith}
use xroar_dev.Text.{pos, ℤ}
use xroar_dev.Paths.{split_image_path, normalize_disk_arg, parse_dump_where}
use xroar_dev.Error.{ok}
use xroar_dev.Basic.Tables.{codes}
use xroar_dev.Geometry.{spt}
use xroar_dev.Paths.Normal.{parse_dump_where-IsRange, split-normalize}

pack_path :
    split_image_path (codes "pack.dsk,GAME.BIN:2+0x10")
    ≡ ok (
        some
          (record { disk = codes "pack.dsk"; name = codes "GAME.BIN"; drive = some (2, pos 4096) }))
unfolding split_image_path
pack_path = refl

windows_path : normalize_disk_arg (codes "C:disk.dsk") ≡ ok (codes "C:disk.dsk,")
unfolding normalize_disk_arg
windows_path = refl

second_drive : normalize_disk_arg (codes "disk:2") ≡ ok (codes "disk,:2")
unfolding normalize_disk_arg
second_drive = refl

track_sector : parse_dump_where (codes "17.2") 35 ≡ ok (307, 307)
unfolding parse_dump_where
track_sector = refl

split-normalize_example :
    (disk : List ℕ) × (drive : Option (ℕ × ℤ)) × (split_image_path (codes "disk,:2")
      ≡ ok (some (record { disk = disk; name = []; drive = drive })))
split-normalize_example =
    split-normalize (codes "disk:2") (codes "disk,:2") (omega arith) second_drive

parse_dump_where-IsRange_example : (307 ≤ 307) × (307 < 35 * spt)
parse_dump_where-IsRange_example =
    parse_dump_where-IsRange (codes "17.2") 35 (307, 307) track_sector
