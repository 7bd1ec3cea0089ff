-- ===== src/Drive/Move.antt =====
-- `cmd_rename` keeps a drive well formed.
use xroar_dev.Base.{
  ℕ, ◌<◌, ◌≡◌, sym, ◌∙◌, inr, true, false, none, List, [], ◌∷◌, arith, length, get_or, All, All-map,
  list_eq_refl,
}
use xroar_dev.Error.{ok, bind-eq-ok}
use xroar_dev.Image.{Image, slice, splice}
use xroar_dev.Drive.{IsLive, ChainAt, IsWell, Edit, Settled, ChainAt-IsChain}
use xroar_dev.Geometry.{entry_size, gat_offset, num_granules}
use xroar_dev.Directory.{dir_slots, find_in, find_entry}
use xroar_dev.Directory.Fresh.{missed}
use xroar_dev.Directory.Search.{find_entry_slots, hit}
use xroar_dev.Directory.Slots.{dir_slots-at}
use xroar_dev.DiskFile.Same.{IsChain-below, chain_same}
use xroar_dev.Gat.Chain.{table}
use xroar_dev.Commands.Moved.{
  name_fits, size-renamed, rename-SlotEdit, entry_kept, links_kept, granule_kept,
}
use xroar_dev.Image.Slices.{slice-splice_self}
use xroar_dev.Drive.Keeps.{Edit-IsWell}
use xroar_dev.Drive.Bytes.{splice-IsBytes}
use mathlib.Core.Path.{subst}
use xroar_dev.Names.{encode_name}
use xroar_dev.Commands.Killed.{require_entry-eq-ok}
use xroar_dev.Commands.Edit.{require_entry, rename_file}
use xroar_dev.Drive.Remove.{Found, lookup-Found}

-- Where a name is not found, no slot holds it.
All-missed :
    (d : Image) (field : List ℕ) (offs : List ℕ)
    → find_in d field offs ≡ ok none
    → All (λ o. hit d field o ≡ false) offs
All-missed d field [] h = tt
All-missed d field (o ∷ offs) h =
    let (miss, rest) = missed d field o offs h in (miss, All-missed d field offs rest)

-- The image that a rename makes, for a file and a field that no live entry has.
module _ (d : Image) (base tracks off : ℕ) (new : List ℕ) (well : IsWell d base tracks)
    (alive : IsLive d base off) (named : length new ≡ 11) where
  abbrev pub moved : Image
  moved = splice d off (length new) new

  pub rename-Edit : Edit d moved base tracks off
  rename-Edit = record {
    slot = alive.0;
    entries = rename-SlotEdit d base tracks off new well.view alive.0 named;
    links = λ o grans t there ne c.
        All-map (λ g lt. links_kept d base tracks off new well.view alive.0 named g lt) grans
          (IsChain-below (table d (gat_offset base)) (num_granules tracks) grans t
            (ChainAt-IsChain d base tracks o grans t c));
    granules = λ o grans t there ne c.
        All-map (λ g _. granule_kept d base tracks off new well.view alive.0 named g) grans
          (IsChain-below (table d (gat_offset base)) (num_granules tracks) grans t
            (ChainAt-IsChain d base tracks o grans t c));
  }

  pub head_moved : slice moved off 11 ≡ new
  head_moved =
      subst (λ n. slice moved off n ≡ new) named
        (slice-splice_self d off new (name_fits d base tracks off new well.view alive.0 named))

  moved_chain :
      (grans : List ℕ) (t : ℕ)
      → ChainAt d base tracks off grans t
      → ChainAt moved base tracks off grans t
  moved_chain grans t c =
      let first =
        entry_kept d base tracks off new well.view alive.0 named 13 (omega arith) (omega arith) in
      rw (first) (
        chain_same d moved base (num_granules tracks) (get_or (slice d off entry_size) 13 0) grans t
          (size-renamed d base tracks off new well.view alive.0 named)
          (All-map (λ g lt. links_kept d base tracks off new well.view alive.0 named g lt) grans
            (IsChain-below (table d (gat_offset base)) (num_granules tracks) grans t
              (ChainAt-IsChain d base tracks off grans t c)))
          c)

  rename-Settled : find_entry d new base ≡ ok none → Settled d moved base tracks off
  rename-Settled absent =
      let (grans, t, c, small) = well.ends off alive in
      inr (
        grans,
        t,
        moved_chain grans t c,
        small,
        λ o there ne is. not_found o there (sym is ∙ head_moved),
        λ o grans' t' there ne c'. well.apart o off grans' t' grans t there alive ne c' c,
      )
    where
      not_found : (o : ℕ) → IsLive d base o → slice d o 11 ≡ new → ⊥
      not_found o there is =
          let found : hit d new o ≡ true = rw (there.1, is, list_eq_refl new) in
          let nowhere =
            dir_slots-at (λ x. hit d new x ≡ false) base o
              (All-missed d new (dir_slots base) (find_entry_slots d new base absent)) there.0 in
          cc (found, nowhere)

  -- A rename to a name that no live entry has keeps a drive well formed.
  pub moved-IsWell :
      find_entry d new base ≡ ok none → All (λ b. b < 256) new → IsWell moved base tracks
  moved-IsWell absent small =
      Edit-IsWell d moved base tracks off well rename-Edit (rename-Settled absent)
        (splice-IsBytes d off (length new) new well.bytes small)

-- The file that a rename found.
pub rename-Found :
    (d : Image) (old new : List ℕ) (base tracks : ℕ) {e : Image}
    → IsWell d base tracks
    → rename_file d old new base ≡ ok e
    → Found d old base tracks
unfolding rename_file
rename-Found d old new base tracks well h =
    let (field, named, h1) = bind-eq-ok (encode_name old) _ h in
    let (off, found, h2) = bind-eq-ok (require_entry d field base) _ h1 in
    lookup-Found d old field base tracks off well named (require_entry-eq-ok d field base found)
