-- ===== src/Gat/Release.antt =====
-- `free_chain` writes only `free`, and only inside the allocation table's sector.
use mathlib.Core.Path.{subst}
use xroar_dev.Base.{
  ℕ, zero, suc, ◌+◌, ◌/◌, ◌%◌, ◌≤◌, ◌<◌, ◌≡◌, refl, ◌∙◌, ◌≢◌, ◌⊎◌, inl, inr, List, [], ◌∷◌, arith,
  ◌==◌, Bool-cases, length, All, All-map,
}
use xroar_dev.Error.{ok, bind-eq-ok, ok-injective}
use xroar_dev.Image.{Image, IsBytes, get, update, put}
use xroar_dev.Geometry.{free}
use xroar_dev.Gat.{release}
use xroar_dev.Image.Slices.{get-eq-ok, put-eq-ok, update_ne, update_self}
use xroar_dev.Gat.Chain.{IsChain, table}
use xroar_dev.Gat.Nodup.{chain_first_once, IsChain-ext_on}

-- Two images that differ at most in table bytes, which are as before or free.
pub record Released (d e : Image) (gat : ℕ) : Type 0 where
  pub size : e.size ≡ d.size
  pub outside : (k : ℕ) → (k < gat) ⊎ (gat + 256 ≤ k) → e.byte k ≡ d.byte k
  pub inside : (k : ℕ) → (e.byte k ≡ d.byte k) ⊎ (e.byte k ≡ free)
  pub bytes : IsBytes e

pub Released-refl : (d : Image) (gat : ℕ) → IsBytes d → Released d d gat
Released-refl d gat b = record {
  size = refl;
  outside = λ k h. refl;
  inside = λ k. inl refl;
  bytes = b;
}

pub update-IsBytes :
    (d : Image) (i v : ℕ) → v < 256 → IsBytes d → IsBytes (record d { byte = update d.byte i v })
update-IsBytes d i v lt b = record { at = λ k. ground (arith, b.at k) }

Released-step :
    (d e : Image) (gat g : ℕ)
    → g < 256
    → Released (record d { byte = update d.byte (gat + g) free }) e gat
    → Released d e gat
Released-step d e gat g lt r = record {
  size = r.size;
  outside = λ k h. r.outside k h ∙ update_ne d.byte (gat + g) free k (outside_ne k h);
  inside = λ k. ground (arith, r.inside k);
  bytes = r.bytes;
}
  where
    outside_ne : (k : ℕ) → (k < gat) ⊎ (gat + 256 ≤ k) → k ≢ gat + g
    outside_ne k (inl h) = omega arith
    outside_ne k (inr h) = omega arith

pub release_lem :
    (d : Image) (gat rounds g : ℕ) {e : Image}
    → IsBytes d
    → g < 256
    → release d gat rounds g ≡ ok e
    → Released d e gat
unfolding release
release_lem d gat zero g b lt h = rw (← ok-injective h) (Released-refl d gat b)
release_lem d gat (suc rounds) g {e} b lt h =
    let (nxt, read, h2) = bind-eq-ok (get d (gat + g)) _ h in
    let at_g : d.byte (gat + g) ≡ nxt = (get-eq-ok d (gat + g) read).1 in
    let (d', wrote, h3) = bind-eq-ok (put d (gat + g) free) _ h2 in
    let is : d' ≡ record d { byte = update d.byte (gat + g) free } =
      (put-eq-ok d (gat + g) free wrote).2 in
    let b' : IsBytes (record d { byte = update d.byte (gat + g) free }) =
      update-IsBytes d (gat + g) free (omega arith) b in
    let h4 = rw is at h3 in
    elim (Bool-cases ((nxt / 64) % 4 == 3)) [
      | inl end ↦
          let h5 = rw end at h4 in
          rw (← ok-injective h5) (Released-step d _ gat g lt (Released-refl _ gat b'))
      | inr more ↦
          let h5 = rw more at h4 in
          Released-step d e gat g lt (
            release_lem (record d { byte = update d.byte (gat + g) free }) gat rounds nxt b'
              (rw (← at_g) (b.at (gat + g))) h5)
    ]

-- Exactly the granules of a chain become free.
pub record Freed (d e : Image) (gat : ℕ) (grans : List ℕ) : Type 0 where
  pub size : e.size ≡ d.size
  pub freed : All (λ g. e.byte (gat + g) ≡ free) grans
  pub others : (k : ℕ) → All (λ g. k ≢ gat + g) grans → e.byte k ≡ d.byte k

abbrev pub with_free : Image → ℕ → Image
with_free d i = record d { byte = update d.byte i free }

release_end :
    (d : Image) (gat rounds g t : ℕ) {e : Image}
    → d.byte (gat + g) ≡ t
    → 0xC0 ≤ t
    → t < 256
    → release d gat (suc rounds) g ≡ ok e
    → with_free d (gat + g) ≡ e
unfolding release get put
release_end d gat rounds g t at_g end byte h = ground arith

release_more :
    (d : Image) (gat rounds g nxt : ℕ) {e : Image}
    → d.byte (gat + g) ≡ nxt
    → nxt < 0xC0
    → release d gat (suc rounds) g ≡ ok e
    → release (with_free d (gat + g)) gat rounds nxt ≡ ok e
unfolding release get put
release_more d gat rounds g nxt at_g small h = ground arith

-- Freeing an image of bytes from the first granule of a chain on, with rounds enough for the chain,
-- makes exactly the granules of the chain free.
pub release_exact :
    (d : Image) (gat total rounds g : ℕ) (grans : List ℕ) (t : ℕ) {e : Image}
    → IsBytes d
    → length grans < rounds
    → IsChain (table d gat) total (g ∷ grans) t
    → release d gat rounds g ≡ ok e
    → Freed d e gat (g ∷ grans)
release_exact d gat total zero g grans t b few chain h = absurd (omega arith)
release_exact d gat total (suc rounds) g [] t {e} b few chain h =
    let is = release_end d gat rounds g t chain.1 chain.2 (rw (← chain.1) (b.at (gat + g))) h in
    subst (λ x. Freed d x gat (g ∷ [])) is
      (record {
        size = refl;
        freed = (update_self d.byte (gat + g) free, tt);
        others = λ k ne. update_ne d.byte (gat + g) free k ne.0;
      })
release_exact d gat total (suc rounds) g (x ∷ grans) t {e} b few chain h =
    let once = chain_first_once (table d gat) total g (x ∷ grans) t chain in
    let d' : Image = with_free d (gat + g) in
    let chain' : IsChain (table d' gat) total (x ∷ grans) t =
      IsChain-ext_on (table d gat) (table d' gat) total (x ∷ grans) t
        (All-map (λ y ne. update_ne d.byte (gat + g) free (gat + y) (omega arith)) (x ∷ grans) once)
        chain.3 in
    let f =
      release_exact d' gat total rounds x grans t (update-IsBytes d (gat + g) free (omega arith) b)
        (omega arith) chain' (release_more d gat rounds g x chain.1 chain.2 h) in
    record {
      size = f.size;
      freed = (
        f.others (gat + g) (All-map (λ y ne. omega arith) (x ∷ grans) once)
            ∙ update_self d.byte (gat + g) free,
        f.freed,
      );
      others = λ k ne. f.others k ne.1 ∙ update_ne d.byte (gat + g) free k ne.0;
    }
