-- ===== src/Gat/Link.antt =====
-- `link_chain` writes the chain that `chain_granules` walks, and nothing else.
use xroar_dev.Base.{ℕ, ◌+◌, ◌%◌, ◌≤◌, ◌<◌, ◌≡◌, refl, ◌∙◌, ◌≢◌, List, [], ◌∷◌, arith, All, All-map}
use xroar_dev.Error.{ok}
use xroar_dev.Image.{Image, update, put}
use xroar_dev.Gat.{link_chain}
use xroar_dev.Gat.Chain.{IsChain, table}
use xroar_dev.Gat.Free.{IsAscending}
use xroar_dev.Image.Slices.{put_ok, update_self, update_ne}

-- What linking leaves alone: the size, and every byte but those of the granules.
pub record Linked (d e : Image) (gat : ℕ) (grans : List ℕ) : Type 0 where
  pub size : e.size ≡ d.size
  pub others : (k : ℕ) → All (λ g. k ≢ gat + g) grans → e.byte k ≡ d.byte k

-- Linking ascending granules that are links and lie in the image succeeds: it writes a chain of
-- exactly these granules with the sector count in its terminator, and changes no other byte.
pub link_chain_lem :
    (d : Image) (gat total g : ℕ) (grans : List ℕ) (last : ℕ)
    → gat + total ≤ d.size
    → total ≤ 0xC0
    → All (λ h. h < total) (g ∷ grans)
    → IsAscending (g ∷ grans)
    → (e : Image) × (link_chain d gat (g ∷ grans) last ≡ ok e)
      × Linked d e gat (g ∷ grans)
      × IsChain (table e gat) total (g ∷ grans) (0xC0 + last % 64)
unfolding link_chain
link_chain_lem d gat total g [] last fits small below asc = (
  record d { byte = update d.byte (gat + g) (0xC0 + last % 64) },
  put_ok d (gat + g) _ (omega arith) (omega arith),
  record { size = refl; others = λ k h. update_ne d.byte (gat + g) _ k h.0 },
  (below.0, update_self d.byte (gat + g) _, omega arith),
)
link_chain_lem d gat total g (h ∷ grans) last fits small below asc =
    let d' : Image = record d { byte = update d.byte (gat + g) h } in
    let (e, r, same, chain) = link_chain_lem d' gat total h grans last fits small below.1 asc.1 in
    let put_link : put d (gat + g) h ≡ ok d' = put_ok d (gat + g) h (omega arith) (omega arith) in
    let above : All (λ x. gat + g ≢ gat + x) (h ∷ grans) =
      All-map (λ x lt. omega arith) (h ∷ grans) asc.0 in
    (
      e,
      rw put_link r,
      record {
        size = same.size;
        others = λ k out. same.others k out.1 ∙ update_ne d.byte (gat + g) h k out.0;
      },
      (below.0, same.others (gat + g) above ∙ update_self d.byte (gat + g) h, omega arith, chain),
    )
