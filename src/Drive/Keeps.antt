-- ===== src/Drive/Keeps.antt =====
-- An edit of one slot keeps a drive well formed, and every file of another name.
use xroar_dev.Base.{
  ℕ, ◌<◌, ◌≡◌, refl, sym, ap, ◌∙◌, ◌≢◌, ◌⊎◌, inl, inr, Bool, true, false, Option, none, some, List,
  [], ◌∷◌, get_or, All, All-map, list_eq_refl,
}
use xroar_dev.Error.{ok, ok-injective, Error, Result, err}
use xroar_dev.Image.{Image, slice, IsBytes}
use xroar_dev.Drive.{IsLive, ChainAt, IsWell, Edit, Settled, found-IsLive}
use xroar_dev.Geometry.{entry_size, num_granules}
use xroar_dev.View.{slot_fits}
use xroar_dev.Gat.{chain_granules}
use xroar_dev.Directory.Slots.{IsSlot}
use xroar_dev.DiskFile.Stored.{SameNames-slot}
use xroar_dev.DiskFile.Frame.{Disjoint, find_entry-SlotEdit, read_file-SlotEdit}
use xroar_dev.DiskFile.Same.{chain_same}
use mathlib.Core.Path.{subst}
use native.Mathlib.Decide.{ℕ_discrete}
use xroar_dev.Names.{encode_name}
use xroar_dev.Directory.{find_entry}
use xroar_dev.DiskFile.{read_file}
use xroar_dev.Directory.Search.{hit}

Disjoint-sym : (xs ys : List ℕ) → Disjoint xs ys → Disjoint ys xs
Disjoint-sym xs [] h = tt
Disjoint-sym xs (y ∷ ys) h = (heads xs h, Disjoint-sym xs ys (All-map (λ x p. p.1) xs h))
  where
    heads : (zs : List ℕ) → Disjoint zs (y ∷ ys) → All (λ x. y ≢ x) zs
    heads zs k = All-map (λ x p e. p.0 (sym e)) zs k

module _ (d e : Image) (base tracks off : ℕ) (well : IsWell d base tracks)
    (edit : Edit d e base tracks off) where
  -- Another slot is live as before, with the same name and chain.
  pub same_slot :
      (o : ℕ) → IsSlot base o → o ≢ off → (e.byte o ≡ d.byte o) × (slice e o 11 ≡ slice d o 11)
  same_slot o slot ne =
      SameNames-slot d e base tracks off o edit.entries.size
        (slot_fits d base tracks well.view o slot) (edit.entries.slots o slot) ne

  was-IsLive : (o : ℕ) → o ≢ off → IsLive e base o → IsLive d base o
  was-IsLive o ne (slot, alive) = (slot, rw (← (same_slot o slot ne).0) alive)

  same_chain :
      (o : ℕ) (grans : List ℕ) (t : ℕ)
      → IsLive d base o
      → o ≢ off
      → ChainAt d base tracks o grans t
      → ChainAt e base tracks o grans t
  same_chain o grans t alive ne c =
      subst (λ s. chain_granules e (get_or s 13 0) (num_granules tracks) base ≡ ok (grans, t))
        (sym (edit.entries.slots o alive.0 ne))
        (chain_same d e base (num_granules tracks) (get_or (slice d o entry_size) 13 0) grans t
          edit.entries.size (edit.links o grans t alive ne c) c)

  was_chain :
      (o : ℕ) (grans : List ℕ) (t : ℕ)
      → IsLive d base o
      → o ≢ off
      → ChainAt e base tracks o grans t
      → ChainAt d base tracks o grans t
  was_chain o grans t alive ne c =
      let (gs, u, before, _) = well.ends o alive in
      let same : ok (gs, u) ≡ ok (grans, t) = sym (same_chain o gs u alive ne before) ∙ c in
      before ∙ same

  -- Two live slots of which one is the edited one.
  names_new :
      (o : ℕ)
      → Settled d e base tracks off
      → IsLive e base off
      → IsLive e base o
      → o ≢ off
      → slice e off 11 ≢ slice e o 11
  names_new o (inl dead) (_, alive) alive' ne = λ _. both dead alive
    where
      both : {b : Bool} → b ≡ false → b ≡ true → ⊥
      both x y = cc (x, y)
  names_new o (inr (gs, t, c, small, fresh, away)) alive alive' ne =
      λ is. fresh o (was-IsLive o ne alive') ne (is ∙ (same_slot o alive'.0 ne).1)

  apart_new :
      (o : ℕ) (grans : List ℕ) (t : ℕ) (grans' : List ℕ) (t' : ℕ)
      → Settled d e base tracks off
      → IsLive e base off
      → IsLive e base o
      → o ≢ off
      → ChainAt e base tracks off grans t
      → ChainAt e base tracks o grans' t'
      → Disjoint grans' grans
  apart_new o grans t grans' t' (inl dead) (_, alive) alive' ne c c' = absurd (both dead alive)
    where
      both : {b : Bool} → b ≡ false → b ≡ true → ⊥
      both x y = cc (x, y)
  apart_new o grans t grans' t' (inr (gs, u, k, small, fresh, away)) alive alive' ne c c' =
      let same : ok (gs, u) ≡ ok (grans, t) = sym k ∙ c in
      let is : gs ≡ grans = ap (λ p. p.0) (ok-injective same) in
      let was = was-IsLive o ne alive' in
      subst (Disjoint grans') is (away o grans' t' was ne (was_chain o grans' t' was ne c'))

  ends_kept :
      (o : ℕ)
      → Settled d e base tracks off
      → IsLive e base o
      → (grans : List ℕ) × (t : ℕ) × ChainAt e base tracks o grans t × (t < 0xCA)
  ends_kept o settled alive = elim (ℕ_discrete o off) [
    | yes is ↦ at_edited settled (subst (IsLive e base) is alive) is
    | no ne ↦
        let was = was-IsLive o ne alive in
        let (gs, t, c, small) = well.ends o was in (gs, t, same_chain o gs t was ne c, small)
  ]
    where
      at_edited :
          Settled d e base tracks off
          → IsLive e base off
          → o ≡ off
          → (grans : List ℕ) × (t : ℕ) × ChainAt e base tracks o grans t × (t < 0xCA)
      at_edited (inl dead) (_, alive) is = absurd (cc (dead, alive))
      at_edited (inr (gs, t, c, small, _, _)) _ is =
          (gs, t, subst (λ x. ChainAt e base tracks x gs t) (sym is) c, small)

  names_kept :
      (o p : ℕ)
      → Settled d e base tracks off
      → IsLive e base o
      → IsLive e base p
      → o ≢ p
      → slice e o 11 ≢ slice e p 11
  names_kept o p settled alive alive' ne = elim (ℕ_discrete o off) [
    | yes is ↦
        subst (λ x. slice e x 11 ≢ slice e p 11) (sym is)
          (names_new p settled (subst (IsLive e base) is alive) alive' (λ x. ne (is ∙ sym x)))
    | no o_ne ↦ elim (ℕ_discrete p off) [
      | yes is ↦ λ x.
          names_new o settled (subst (IsLive e base) is alive') alive o_ne
            (ap (λ y. slice e y 11) (sym is) ∙ sym x)
      | no p_ne ↦ λ x.
          well.names o p (was-IsLive o o_ne alive) (was-IsLive p p_ne alive') ne
            (sym (same_slot o alive.0 o_ne).1 ∙ x ∙ (same_slot p alive'.0 p_ne).1)
    ]
  ]

  apart_kept :
      (o p : ℕ) (grans : List ℕ) (t : ℕ) (grans' : List ℕ) (t' : ℕ)
      → Settled d e base tracks off
      → IsLive e base o
      → IsLive e base p
      → o ≢ p
      → ChainAt e base tracks o grans t
      → ChainAt e base tracks p grans' t'
      → Disjoint grans grans'
  apart_kept o p grans t grans' t' settled alive alive' ne c c' = elim (ℕ_discrete o off) [
    | yes is ↦ Disjoint-sym grans' grans (
        apart_new p grans t grans' t' settled (subst (IsLive e base) is alive) alive'
          (λ x. ne (is ∙ sym x)) (subst (λ x. ChainAt e base tracks x grans t) is c) c')
    | no o_ne ↦ elim (ℕ_discrete p off) [
      | yes is ↦
          apart_new o grans' t' grans t settled (subst (IsLive e base) is alive') alive o_ne
            (subst (λ x. ChainAt e base tracks x grans' t') is c') c
      | no p_ne ↦
          let was = was-IsLive o o_ne alive in
          let was' = was-IsLive p p_ne alive' in
          well.apart o p grans t grans' t' was was' ne (was_chain o grans t was o_ne c)
            (was_chain p grans' t' was' p_ne c')
    ]
  ]

  pub Edit-IsWell : Settled d e base tracks off → IsBytes e → IsWell e base tracks
  Edit-IsWell settled bytes = record {
    view = record {
      fits = rw edit.entries.size well.view.fits;
      has_directory = well.view.has_directory;
      links = well.view.links;
    };
    bytes = bytes;
    ends = λ o alive. ends_kept o settled alive;
    names = λ o p. names_kept o p settled;
    apart = λ o p grans t grans' t'. apart_kept o p grans t grans' t' settled;
  }

  -- A name that is neither the edited slot's old one nor its new one is read as before, whether the
  -- drive holds it or not.
  pub read_file-Edit :
      (name field : List ℕ)
      → encode_name name ≡ ok field
      → hit d field off ≡ false
      → hit e field off ≡ false
      → read_file e name base tracks ≡ read_file d name base tracks
  read_file-Edit name field named miss miss' = elim (lookup (find_entry d field base) refl) [
    | inl (o, found) ↦
        let (alive, is) = found-IsLive d base field o found in
        let (grans, t, c, small) = well.ends o alive in
        let hits : hit d field o ≡ true = rw (alive.1, is, list_eq_refl field) in
        let ne : o ≢ off = λ x. cc (ap (hit d field) x, hits, miss) in
        read_file-SlotEdit d e base tracks off well.view edit.entries name field o grans t named
          (record { found = found; chain = c }) miss miss' (edit.links o grans t alive ne c)
          (edit.granules o grans t alive ne c)
    | inr absent ↦ no_file absent
  ]
    where
      same : find_entry e field base ≡ find_entry d field base
      same = find_entry-SlotEdit d e base tracks off well.view edit.entries field (miss' ∙ sym miss)

      lookup :
          (r : Result (Option ℕ))
          → find_entry d field base ≡ r
          → ((o : ℕ) × (find_entry d field base ≡ ok (some o)))
            ⊎ ((find_entry d field base ≡ ok none)
                ⊎ ((x : Error) × (find_entry d field base ≡ err x)))
      lookup (ok (some o)) h = inl (o, h)
      lookup (ok none) h = inr (inl h)
      lookup (err x) h = inr (inr (x, h))

      no_file :
          (find_entry d field base ≡ ok none) ⊎ ((x : Error) × (find_entry d field base ≡ err x))
          → read_file e name base tracks ≡ read_file d name base tracks
      no_file (inl h) = unfold read_file in rw (named, same, h)
      no_file (inr (x, h)) = unfold read_file in rw (named, same, h)
