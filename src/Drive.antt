-- ===== src/Drive.antt =====
-- A well-formed drive: what `write_file`, `cmd_kill` and `cmd_rename` of tools/decb.py rely on and
-- keep, and what an edit of one slot must leave alone for that.
pub mod Bytes
pub mod Keeps
pub mod Store
pub mod Remove
pub mod Move
pub mod Contents
pub mod Refines
pub mod New
pub mod Tests
use xroar_dev.Base.{ℕ, ◌+◌, ◌<◌, ◌≡◌, ◌≢◌, ◌⊎◌, true, false, some, List, get_or, All}
use xroar_dev.Error.{ok}
use xroar_dev.Image.{Image, IsBytes, slice}
use xroar_dev.Geometry.{granule, entry_size, granule_offset, gat_offset, num_granules}
use xroar_dev.Directory.{dir_slots, live, find_entry}
use xroar_dev.View.{IsView}
use xroar_dev.Gat.{chain_granules}
use xroar_dev.Directory.Search.{find_entry_slots, find_in_sound}
use xroar_dev.Directory.Slots.{IsSlot, dir_slots_lem}
use xroar_dev.DiskFile.Frame.{Disjoint, SlotEdit}
use xroar_dev.Gat.Chain.{IsChain, table, walk_sound}

-- A slot of the directory that holds a live entry.
abbrev pub IsLive : Image → ℕ → ℕ → Type 0
IsLive d base off = IsSlot base off × (live (d.byte off) ≡ true)

-- The chain of the entry in a slot, and its terminator.
abbrev pub ChainAt : Image → ℕ → ℕ → ℕ → List ℕ → ℕ → Type 0
ChainAt d base tracks off grans t =
    chain_granules d (get_or (slice d off entry_size) 13 0) (num_granules tracks) base
    ≡ ok (grans, t)

-- Every live entry has a chain that ends in a terminator of at most nine sectors; two live entries
-- have different names, and their chains share no granule.
pub record IsWell (d : Image) (base tracks : ℕ) : Type 0 where
  pub view : IsView d base tracks
  pub bytes : IsBytes d
  pub ends :
      (off : ℕ)
      → IsLive d base off
      → (grans : List ℕ) × (t : ℕ) × ChainAt d base tracks off grans t × (t < 0xCA)
  pub names :
      (off other : ℕ)
      → IsLive d base off
      → IsLive d base other
      → off ≢ other
      → slice d off 11 ≢ slice d other 11
  pub apart :
      (off other : ℕ) (grans : List ℕ) (t : ℕ) (grans' : List ℕ) (t' : ℕ)
      → IsLive d base off
      → IsLive d base other
      → off ≢ other
      → ChainAt d base tracks off grans t
      → ChainAt d base tracks other grans' t'
      → Disjoint grans grans'

-- The slot of a name is live, and its chain is the file's.
pub found-IsLive :
    (d : Image) (base : ℕ) (field : List ℕ) (off : ℕ)
    → find_entry d field base ≡ ok (some off)
    → IsLive d base off × (slice d off 11 ≡ field)
found-IsLive d base field off h =
    let (holds, slot) =
      find_in_sound (IsSlot base) d field (dir_slots base) (dir_slots_lem base)
        (find_entry_slots d field base h) in
    ((slot, holds.0), holds.1)

pub ChainAt-IsChain :
    (d : Image) (base tracks off : ℕ) (grans : List ℕ) (t : ℕ)
    → ChainAt d base tracks off grans t
    → IsChain (table d (gat_offset base)) (num_granules tracks) grans t
ChainAt-IsChain d base tracks off grans t h =
    (walk_sound d (gat_offset base) (num_granules tracks) (num_granules tracks + 2) 0
      (get_or (slice d off entry_size) 13 0) grans t (unfold chain_granules in h)).0

pub same_end :
    (d : Image) (base tracks off : ℕ) (grans : List ℕ) (t : ℕ) (grans' : List ℕ) (t' : ℕ)
    → ChainAt d base tracks off grans t
    → ChainAt d base tracks off grans' t'
    → t ≡ t'
same_end d base tracks off grans t grans' t' a b = cc (a, b)

-- An edit of one slot: the other slots, and what their chains refer to, stay.
pub record Edit (d e : Image) (base tracks off : ℕ) : Type 0 where
  pub slot : IsSlot base off
  pub entries : SlotEdit d e base off
  pub links :
      (o : ℕ) (grans : List ℕ) (t : ℕ)
      → IsLive d base o
      → o ≢ off
      → ChainAt d base tracks o grans t
      → All (λ g. table e (gat_offset base) g ≡ table d (gat_offset base) g) grans
  pub granules :
      (o : ℕ) (grans : List ℕ) (t : ℕ)
      → IsLive d base o
      → o ≢ off
      → ChainAt d base tracks o grans t
      → All
          (λ g. slice e (granule_offset g base) granule ≡ slice d (granule_offset g base) granule)
          grans

-- What the edited slot holds afterwards: no live entry, or one of a new name with a chain of its own.
abbrev pub Settled : Image → Image → ℕ → ℕ → ℕ → Type 0
Settled d e base tracks off =
    (live (e.byte off) ≡ false)
    ⊎ (grans : List ℕ) × (t : ℕ) × ChainAt e base tracks off grans t
      × (t < 0xCA)
      × ((o : ℕ) → IsLive d base o → o ≢ off → slice e off 11 ≢ slice d o 11)
      × ((o : ℕ) (grans' : List ℕ) (t' : ℕ)
          → IsLive d base o
          → o ≢ off
          → ChainAt d base tracks o grans' t'
          → Disjoint grans' grans)
