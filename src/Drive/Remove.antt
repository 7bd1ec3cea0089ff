-- ===== src/Drive/Remove.antt =====
-- `cmd_kill` keeps a drive well formed.
use xroar_dev.Base.{ℕ, ◌+◌, ◌<◌, ◌≡◌, inl, false, some, List, [], ◌∷◌, All, All-map}
use xroar_dev.Error.{ok, bind-eq-ok}
use xroar_dev.Image.{Image, IsBytes}
use xroar_dev.Drive.{IsLive, IsWell, Edit, found-IsLive, ChainAt-IsChain}
use xroar_dev.Geometry.{gat_offset, num_granules}
use xroar_dev.Names.{encode_name}
use xroar_dev.Directory.{live, find_entry}
use xroar_dev.Gat.{free_chain}
use xroar_dev.DiskFile.Frame.{Disjoint}
use xroar_dev.DiskFile.Same.{FileAt, IsChain-below}
use xroar_dev.Gat.Chain.{table}
use xroar_dev.Gat.Release.{release_lem}
use xroar_dev.Commands.Killed.{
  require_entry-eq-ok, marked, kill_steps, marked-IsBytes, kill-SlotEdit, entry_dead, kill_granules,
  kill_links,
}
use xroar_dev.Commands.Edit.{require_entry, kill_file}
use xroar_dev.Drive.Keeps.{Edit-IsWell}

-- The file that a kill found.
pub record Found (d : Image) (name : List ℕ) (base tracks : ℕ) : Type 0 where
  pub field : List ℕ
  pub off : ℕ
  pub grans : List ℕ
  pub t : ℕ
  pub named : encode_name name ≡ ok field
  pub alive : IsLive d base off
  pub file : FileAt d base tracks field off grans t

pub lookup-Found :
    (d : Image) (name field : List ℕ) (base tracks off : ℕ)
    → IsWell d base tracks
    → encode_name name ≡ ok field
    → find_entry d field base ≡ ok (some off)
    → Found d name base tracks
lookup-Found d name field base tracks off well named found =
    let (alive, is) = found-IsLive d base field off found in
    let (grans, t, c, small) = well.ends off alive in
    record {
      field = field;
      off = off;
      grans = grans;
      t = t;
      named = named;
      alive = alive;
      file = record { found = found; chain = c };
    }

pub kill-Found :
    (d : Image) (name : List ℕ) (base tracks : ℕ) {e : Image}
    → IsWell d base tracks
    → kill_file d name base tracks ≡ ok e
    → Found d name base tracks
unfolding kill_file
kill-Found d name base tracks well h =
    let (field, named, h1) = bind-eq-ok (encode_name name) _ h in
    let (off, found, h2) = bind-eq-ok (require_entry d field base) _ h1 in
    lookup-Found d name field base tracks off well named (require_entry-eq-ok d field base found)

free_chain-IsBytes :
    (d : Image) (first total base : ℕ) {e : Image}
    → IsBytes d
    → first < 256
    → free_chain d first total base ≡ ok e
    → IsBytes e
unfolding free_chain
free_chain-IsBytes d first total base b lt h =
    (release_lem d (gat_offset base) (total + 1) first b lt h).bytes

module _ (d : Image) (name : List ℕ) (base tracks : ℕ) {e : Image} (well : IsWell d base tracks)
    (f : Found d name base tracks) (killed : kill_file d name base tracks ≡ ok e) where
  pub kill-Edit : Edit d e base tracks f.off
  kill-Edit = record {
    slot = f.alive.0;
    entries =
        kill-SlotEdit d name f.field base tracks f.off f.grans f.t well.view well.bytes f.named
          f.file killed;
    links = λ o grans t alive ne c.
        links grans
          (IsChain-below (table d (gat_offset base)) (num_granules tracks) grans t
            (ChainAt-IsChain d base tracks o grans t c))
          (well.apart o f.off grans t f.grans f.t alive f.alive ne c f.file.chain);
    granules = λ o grans t alive ne c.
        All-map
          (λ g _.
            kill_granules d name f.field base tracks f.off f.grans f.t well.view well.bytes f.named
              f.file killed g)
          grans
          (IsChain-below (table d (gat_offset base)) (num_granules tracks) grans t
            (ChainAt-IsChain d base tracks o grans t c));
  }
    where
      links :
          (gs : List ℕ)
          → All (λ g. g < num_granules tracks) gs
          → Disjoint gs f.grans
          → All (λ g. table e (gat_offset base) g ≡ table d (gat_offset base) g) gs
      links [] a b = tt
      links (g ∷ gs) a b = (
        kill_links d name f.field base tracks f.off f.grans f.t well.view well.bytes f.named f.file
            killed g a.0 b.0,
        links gs a.1 b.1,
      )

  pub kill_dead : live (e.byte f.off) ≡ false
  kill_dead =
      let is =
        entry_dead d name f.field base tracks f.off f.grans f.t well.view well.bytes f.named f.file
          killed in
      rw is

  kill-IsBytes : IsBytes e
  kill-IsBytes =
      let steps =
        kill_steps d name f.field base tracks f.off f.grans f.t well.view well.bytes f.named f.file
          killed in
      let small =
        marked-IsBytes d name f.field base tracks f.off f.grans f.t well.view well.bytes f.named
          f.file killed in
      free_chain-IsBytes (marked d f.off) (d.byte (f.off + 13)) (num_granules tracks) base small
        (well.bytes.at (f.off + 13)) steps

  -- A kill keeps a drive well formed.
  pub kill_file-IsWell : IsWell e base tracks
  kill_file-IsWell = Edit-IsWell d e base tracks f.off well kill-Edit (inl kill_dead) kill-IsBytes
