-- ===== src/Handlers/Saved.antt =====
-- A drive that is well formed in memory is well formed in the file that it is saved to.
use xroar_dev.Base.{ℕ, ◌+◌, ◌<◌, ◌≡◌, sym, ◌∙◌, some, List, arith, get_or, All}
use xroar_dev.Error.{ok}
use xroar_dev.Image.{Image, IsBytes, slice}
use xroar_dev.Drive.{IsLive, ChainAt, IsWell}
use xroar_dev.Geometry.{entry_size, gat_offset, num_granules}
use xroar_dev.View.{slot_fits}
use xroar_dev.Host.{Host, image_of, bytes_of}
use xroar_dev.Paths.{ImagePath}
use xroar_dev.Gat.{chain_granules}
use xroar_dev.Commands.Load.{load_view}
use xroar_dev.Host.Reload.{SameBytes, reloaded, slice_same, walk_loaded, All-slice}
use xroar_dev.Copy.Steps.{image_of-IsBytes}

module _ (d e : Image) (base tracks : ℕ) (same : SameBytes d e) (well : IsWell d base tracks) where
  loaded-ChainAt :
      (off : ℕ) (grans : List ℕ) (t : ℕ)
      → ChainAt d base tracks off grans t
      → ChainAt e base tracks off grans t
  unfolding chain_granules
  loaded-ChainAt off grans t c =
      rw
        (
          slice_same d e same off entry_size,
          walk_loaded d e same (gat_offset base) (num_granules tracks) (num_granules tracks + 2) 0
              (get_or (slice d off entry_size) 13 0),
        )
        c

  was_loaded-ChainAt :
      (off : ℕ) (grans : List ℕ) (t : ℕ)
      → ChainAt e base tracks off grans t
      → ChainAt d base tracks off grans t
  unfolding chain_granules
  was_loaded-ChainAt off grans t c =
      sym (
        walk_loaded d e same (gat_offset base) (num_granules tracks) (num_granules tracks + 2) 0
          (get_or (slice d off entry_size) 13 0))
      ∙ (rw (slice_same d e same off entry_size) at c)

  was_loaded-IsLive : (off : ℕ) → IsLive e base off → IsLive d base off
  was_loaded-IsLive off (slot, alive) =
      let fits = slot_fits d base tracks well.view off slot in
      let at_off = same.byte off (omega (arith, fits)) in (slot, rw (← at_off) alive)

  pub loaded-IsWell : IsBytes e → IsWell e base tracks
  loaded-IsWell bytes = record {
    view = record {
      fits = rw same.size well.view.fits;
      has_directory = well.view.has_directory;
      links = well.view.links;
    };
    bytes = bytes;
    ends = λ off alive.
        let (grans, t, c, small) = well.ends off (was_loaded-IsLive off alive) in
        (grans, t, loaded-ChainAt off grans t c, small);
    names = λ off other alive alive' ne.
        rw (slice_same d e same off 11, slice_same d e same other 11)
          (well.names off other (was_loaded-IsLive off alive) (was_loaded-IsLive other alive') ne);
    apart = λ off other grans t grans' t' alive alive' ne c c'.
        well.apart off other grans t grans' t' (was_loaded-IsLive off alive)
          (was_loaded-IsLive other alive') ne (was_loaded-ChainAt off grans t c)
          (was_loaded-ChainAt other grans' t' c');
  }

small_bytes : (d : Image) → IsBytes d → All (λ b. b < 256) (bytes_of d)
unfolding bytes_of
small_bytes d b = All-slice d 0 d.size (λ k. b.at k)

pub reloaded-IsWell :
    (d : Image) (base tracks : ℕ)
    → IsWell d base tracks
    → IsWell (image_of (bytes_of d)) base tracks
reloaded-IsWell d base tracks well =
    loaded-IsWell d (image_of (bytes_of d)) base tracks (reloaded d) well
      (image_of-IsBytes (bytes_of d) (small_bytes d well.bytes))

-- The drive that a path selects in a host file is well formed.
abbrev pub IsWellFile : Host → ImagePath → ℕ → ℕ → List ℕ → Type 0
IsWellFile h path base tracks bytes =
    (h.file (h.abspath path.disk) ≡ some bytes)
    × (load_view (image_of bytes) path.drive ≡ ok (record { base = base; tracks = tracks }))
    × IsWell (image_of bytes) base tracks
