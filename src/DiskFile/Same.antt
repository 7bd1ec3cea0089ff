-- ===== src/DiskFile/Same.antt =====
-- What reading a file depends on.
use xroar_dev.Base.{
  ℕ, ◌+◌, ◌-◌, ◌*◌, ◌%◌, ◌≤◌, ◌<◌, ◌≡◌, ◌∙◌, inl, inr, some, List, [], ◌∷◌, arith, ◌==◌, Bool-cases,
  length, get_or, All,
}
use xroar_dev.Error.{ok}
use xroar_dev.Image.{Image, slice}
use xroar_dev.Geometry.{
  granule, entry_size, granule_offset, gat_offset, num_granules, sector, granule_sectors,
}
use xroar_dev.Names.{encode_name}
use xroar_dev.Directory.{dir_slots, find_entry}
use xroar_dev.DiskFile.{read_granules, read_file, read_entry_payload}
use xroar_dev.Gat.{chain_granules, entry_geometry, last_sector_size}
use xroar_dev.Directory.Search.{Holds, find_entry_slots, find_in_sound}
use xroar_dev.Directory.Slots.{IsSlot, dir_slots_lem}
use xroar_dev.DiskFile.Store.{read_granules_ext}
use xroar_dev.Gat.Chain.{IsChain, table, walk_sound}
use xroar_dev.Gat.Nodup.{walk_same, walk-length}

-- A file of the drive: its slot, its chain and the terminator.
pub record FileAt (d : Image) (base tracks : ℕ) (field : List ℕ) (off : ℕ) (grans : List ℕ) (t : ℕ)
    : Type 0 where
  pub found : find_entry d field base ≡ ok (some off)
  pub chain :
      chain_granules d (get_or (slice d off entry_size) 13 0) (num_granules tracks) base
      ≡ ok (grans, t)

pub FileAt-IsSlot :
    {d : Image} {base tracks : ℕ} {field : List ℕ} {off : ℕ} {grans : List ℕ} {t : ℕ}
    → FileAt d base tracks field off grans t
    → Holds d field off × IsSlot base off
FileAt-IsSlot {d} {base} {tracks} {field} f =
    find_in_sound (IsSlot base) d field (dir_slots base) (dir_slots_lem base)
      (find_entry_slots d field base f.found)

-- The chain as the table has it, from the entry's first granule.
pub FileAt-IsChain :
    {d : Image} {base tracks : ℕ} {field : List ℕ} {off : ℕ} {grans : List ℕ} {t : ℕ}
    → FileAt d base tracks field off grans t
    → IsChain (table d (gat_offset base)) (num_granules tracks) grans t
      × (get_or grans 0 0 ≡ get_or (slice d off entry_size) 13 0)
FileAt-IsChain {d} {base} {tracks} {field} {off} {grans} {t} f =
    walk_sound d (gat_offset base) (num_granules tracks) (num_granules tracks + 2) 0
      (get_or (slice d off entry_size) 13 0) grans t (unfold chain_granules in f.chain)

pub IsChain-below :
    (f : ℕ → ℕ) (total : ℕ) (grans : List ℕ) (t : ℕ)
    → IsChain f total grans t
    → All (λ g. g < total) grans
IsChain-below f total [] t h = tt
IsChain-below f total (g ∷ []) t h = (h.0, tt)
IsChain-below f total (g ∷ x ∷ grans) t h = (h.0, IsChain-below f total (x ∷ grans) t h.3)

pub FileAt-below :
    {d : Image} {base tracks : ℕ} {field : List ℕ} {off : ℕ} {grans : List ℕ} {t : ℕ}
    → FileAt d base tracks field off grans t
    → All (λ g. g < num_granules tracks) grans
FileAt-below {d} {base} {tracks} {field} {off} {grans} {t} f =
    IsChain-below (table d (gat_offset base)) (num_granules tracks) grans t (FileAt-IsChain f).0

pub FileAt-length :
    {d : Image} {base tracks : ℕ} {field : List ℕ} {off : ℕ} {grans : List ℕ} {t : ℕ}
    → FileAt d base tracks field off grans t
    → length grans ≤ num_granules tracks + 1
FileAt-length {d} {base} {tracks} {field} {off} {grans} {t} f =
    let few =
      walk-length d (gat_offset base) (num_granules tracks) (num_granules tracks + 2) 0
        (get_or (slice d off entry_size) 13 0) grans t (unfold chain_granules in f.chain) in
    omega (arith, few)

-- Two images that agree on a file: its entry, its table bytes and its granules.
pub record Agree (d e : Image) (base : ℕ) (field : List ℕ) (off : ℕ) (grans : List ℕ) : Type 0 where
  pub size : e.size ≡ d.size
  pub lookup : find_entry e field base ≡ find_entry d field base
  pub entry : slice e off entry_size ≡ slice d off entry_size
  pub links : All (λ g. table e (gat_offset base) g ≡ table d (gat_offset base) g) grans
  pub granules :
      All
        (λ g. slice e (granule_offset g base) granule ≡ slice d (granule_offset g base) granule)
        grans

pub chain_same :
    (d e : Image) (base total first : ℕ) (grans : List ℕ) (t : ℕ)
    → e.size ≡ d.size
    → All (λ g. table e (gat_offset base) g ≡ table d (gat_offset base) g) grans
    → chain_granules d first total base ≡ ok (grans, t)
    → chain_granules e first total base ≡ ok (grans, t)
unfolding chain_granules
chain_same d e base total first grans t size same h =
    walk_same d e (gat_offset base) total (total + 2) 0 first grans t size h same

pub geometry_of_chain :
    (d e : Image) (base total : ℕ) (entry grans : List ℕ) (t : ℕ)
    → chain_granules d (get_or entry 13 0) total base ≡ ok (grans, t)
    → chain_granules e (get_or entry 13 0) total base ≡ ok (grans, t)
    → (sectors : ℕ) × (n : ℕ) × (entry_geometry d entry total base ≡ ok (grans, sectors, n))
      × (entry_geometry e entry total base ≡ ok (grans, sectors, n))
unfolding entry_geometry
geometry_of_chain d e base total entry grans t h k =
    let total_sectors = (length grans - 1) * granule_sectors + t % 64 in
    elim (Bool-cases (total_sectors == 0)) [
      | inl empty ↦ (0, 0, rw (h, empty), rw (k, empty))
      | inr used ↦ (
        total_sectors,
        (total_sectors - 1) * sector + last_sector_size (get_or entry 14 0) (get_or entry 15 0),
        rw (h, used),
        rw (k, used),
      )
    ]

pub payload_same :
    (d e : Image) (base tracks : ℕ) (entry grans : List ℕ) (t : ℕ)
    → chain_granules d (get_or entry 13 0) (num_granules tracks) base ≡ ok (grans, t)
    → chain_granules e (get_or entry 13 0) (num_granules tracks) base ≡ ok (grans, t)
    → read_granules e base grans ≡ read_granules d base grans
    → read_entry_payload e entry base tracks ≡ read_entry_payload d entry base tracks
unfolding read_entry_payload
payload_same d e base tracks entry grans t h k same =
    let (sectors, n, gd, ge) = geometry_of_chain d e base (num_granules tracks) entry grans t h k in
    rw (gd, ge, same)

-- The file is read alike from images that agree on it.
pub read_file_same :
    (d e : Image) (base tracks : ℕ) (name field : List ℕ) (off : ℕ) (grans : List ℕ) (t : ℕ)
    → encode_name name ≡ ok field
    → FileAt d base tracks field off grans t
    → Agree d e base field off grans
    → read_file e name base tracks ≡ read_file d name base tracks
unfolding read_file
read_file_same d e base tracks name field off grans t named f a =
    let entry = slice d off entry_size in
    let chain' =
      chain_same d e base (num_granules tracks) (get_or entry 13 0) grans t a.size a.links
        f.chain in
    let found' : find_entry e field base ≡ ok (some off) = a.lookup ∙ f.found in
    rw (
      named,
      f.found,
      found',
      a.entry,
      payload_same d e base tracks entry grans t f.chain chain'
          (read_granules_ext d e base grans a.granules),
    )
