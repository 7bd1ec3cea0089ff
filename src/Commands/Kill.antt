-- ===== src/Commands/Kill.antt =====
-- What `kill` does to its file and to the others.
use xroar_dev.Base.{ℕ, ◌<◌, ◌≡◌, ◌≢◌, List, [], ◌∷◌, All, All-map}
use xroar_dev.Error.{ok}
use xroar_dev.Image.{Image, IsBytes}
use xroar_dev.Geometry.{deleted, gat_offset, num_granules, free}
use xroar_dev.Names.{encode_name}
use xroar_dev.View.{IsView}
use xroar_dev.DiskFile.Same.{FileAt, FileAt-IsSlot, FileAt-below}
use xroar_dev.Gat.Chain.{table}
use xroar_dev.Commands.Edit.{kill_file}
use xroar_dev.DiskFile.{read_file}
use xroar_dev.Directory.Search.{hit-slot}
use xroar_dev.DiskFile.Frame.{Disjoint, read_file-SlotEdit}
use xroar_dev.Commands.Killed.{
  freed, kill-SlotEdit, entry_dead, miss_killed, kill_granules, kill_links,
}

-- A kill that succeeds on a file of the drive marks the entry deleted and frees the granules of the
-- file's chain; the table bytes of the drive's other granules stay.
pub kill_file_frees :
    (d : Image) (name field : List ℕ) (base tracks off : ℕ) (grans : List ℕ) (t : ℕ) {e : Image}
    → IsView d base tracks
    → IsBytes d
    → encode_name name ≡ ok field
    → FileAt d base tracks field off grans t
    → kill_file d name base tracks ≡ ok e
    → (e.byte off ≡ deleted)
      × All (λ g. table e (gat_offset base) g ≡ free) grans
      × ((g : ℕ)
          → g < num_granules tracks
          → All (λ x. g ≢ x) grans
          → table e (gat_offset base) g ≡ table d (gat_offset base) g)
kill_file_frees d name field base tracks off grans t view bytes named f killed = (
  entry_dead d name field base tracks off grans t view bytes named f killed,
  (freed d name field base tracks off grans t view bytes named f killed).freed,
  kill_links d name field base tracks off grans t view bytes named f killed,
)

-- A kill that succeeds leaves what a file of another name reads as, if the two chains share no
-- granule.
pub read_file-kill_file :
    (d : Image) (name field : List ℕ) (base tracks off : ℕ) (grans : List ℕ) (t : ℕ)
    (other field' : List ℕ) (off' : ℕ) (grans' : List ℕ) (t' : ℕ) {e : Image}
    → IsView d base tracks
    → IsBytes d
    → encode_name name ≡ ok field
    → FileAt d base tracks field off grans t
    → encode_name other ≡ ok field'
    → FileAt d base tracks field' off' grans' t'
    → field ≢ field'
    → Disjoint grans' grans
    → kill_file d name base tracks ≡ ok e
    → read_file e other base tracks ≡ read_file d other base tracks
read_file-kill_file d name field base tracks off grans t other field' off' grans' t' {e} view bytes
      named f named' f' ne apart killed =
    read_file-SlotEdit d e base tracks off view
      (kill-SlotEdit d name field base tracks off grans t view bytes named f killed) other field'
      off' grans' t' named' f' (hit-slot d field' field off (FileAt-IsSlot f).0.1 ne)
      (miss_killed d name field base tracks off grans t view bytes named f killed field')
      (both grans' (FileAt-below f') apart)
      (All-map
        (λ g h. kill_granules d name field base tracks off grans t view bytes named f killed g)
        grans' apart)
  where
    both :
        (gs : List ℕ)
        → All (λ g. g < num_granules tracks) gs
        → Disjoint gs grans
        → All (λ g. table e (gat_offset base) g ≡ table d (gat_offset base) g) gs
    both [] a b = tt
    both (g ∷ gs) a b = (
      kill_links d name field base tracks off grans t view bytes named f killed g a.0 b.0,
      both gs a.1 b.1,
    )
