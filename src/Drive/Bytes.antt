-- ===== src/Drive/Bytes.antt =====
-- What `write_file` stores is bytes.
use xroar_dev.Base.{
  ℕ, zero, suc, ◌+◌, ◌-◌, ◌/◌, ◌%◌, ◌<◌, min, ◌≡◌, sym, Bool, List, [], ◌∷◌, arith, length, get_or,
  take, drop, replicate, All, All-map, All-append, All-take, All-drop,
}
use xroar_dev.Error.{ok, ok-injective, bind-eq-ok}
use xroar_dev.Image.{Image, IsBytes, put, splice}
use xroar_dev.Geometry.{granule, entry_size, granule_offset, gat_offset, num_granules}
use xroar_dev.Names.{encode_name}
use xroar_dev.View.{IsView}
use xroar_dev.DiskFile.{last_sector_bytes, lay}
use xroar_dev.Gat.{link_chain}
use xroar_dev.DiskFile.Outcome.{Run-Outcome}
use xroar_dev.DiskFile.Write.{Run, clear_slot-Released}
use xroar_dev.Gat.Release.{update-IsBytes}
use xroar_dev.Image.Slices.{put-eq-ok}
use mathlib.Core.Path.{subst}
use xroar_dev.Names.Fields.{encode_name-eq-ok, all_latin1-All}

-- Values that fit a byte.
abbrev pub AreBytes : List ℕ → Type 0
AreBytes xs = All (λ b. b < 256) xs

get_or-AreBytes : (xs : List ℕ) (i : ℕ) → AreBytes xs → get_or xs i 0 < 256
get_or-AreBytes [] i h = omega arith
get_or-AreBytes (x ∷ xs) zero h = h.0
get_or-AreBytes (x ∷ xs) (suc i) h = get_or-AreBytes xs i h.1

AreBytes-zeros : (n : ℕ) → AreBytes (replicate n 0)
AreBytes-zeros zero = tt
AreBytes-zeros (suc n) = (omega arith, AreBytes-zeros n)

pub splice-IsBytes :
    (d : Image) (off n : ℕ) (xs : List ℕ) → IsBytes d → AreBytes xs → IsBytes (splice d off n xs)
unfolding splice
splice-IsBytes d off n xs b h = record {
  at = λ k. ground (
    arith,
    b.at k,
    get_or-AreBytes xs (k - min off d.size) h,
    b.at (k - min off d.size - length xs + min (off + n) d.size),
  );
}

lay-IsBytes :
    (d : Image) (base : ℕ) (grans payload : List ℕ)
    → IsBytes d
    → AreBytes payload
    → IsBytes (lay d base grans payload)
unfolding lay
lay-IsBytes d base [] payload b h = b
lay-IsBytes d base (g ∷ grans) payload b h =
    let chunk = take granule payload in
    lay-IsBytes (splice d (granule_offset g base) (length chunk) chunk) base grans
      (drop granule payload)
      (splice-IsBytes d (granule_offset g base) (length chunk) chunk b
        (All-take (λ b. b < 256) granule payload h))
      (All-drop (λ b. b < 256) granule payload h)

put-IsBytes : (d : Image) (i v : ℕ) {e : Image} → v < 256 → IsBytes d → put d i v ≡ ok e → IsBytes e
put-IsBytes d i v lt b h = subst IsBytes (sym (put-eq-ok d i v h).2) (update-IsBytes d i v lt b)

link_chain-IsBytes :
    (d : Image) (gat : ℕ) (grans : List ℕ) (last : ℕ) {e : Image}
    → IsBytes d
    → AreBytes grans
    → link_chain d gat grans last ≡ ok e
    → IsBytes e
unfolding link_chain
link_chain-IsBytes d gat [] last b h k = subst IsBytes (ok-injective k) b
link_chain-IsBytes d gat (g ∷ []) last b h k =
    put-IsBytes d (gat + g) (0xC0 + last % 64) (omega arith) b k
link_chain-IsBytes d gat (g ∷ x ∷ grans) last b h k =
    let (d', wrote, rest) = bind-eq-ok (put d (gat + g) x) _ k in
    link_chain-IsBytes d' gat (x ∷ grans) last (put-IsBytes d (gat + g) x h.1.0 b wrote) h.1 rest

pub encode_name-AreBytes :
    (name : List ℕ) {field : List ℕ} → encode_name name ≡ ok field → AreBytes field
encode_name-AreBytes name {field} h = all_latin1-All field (encode_name-eq-ok name h).3

pub write_file-IsBytes :
    (d : Image) (name payload : List ℕ) (ftype ascii_flag : ℕ) (rewrite : Bool) (base tracks : ℕ)
    {e : Image}
    → IsView d base tracks
    → IsBytes d
    → AreBytes payload
    → Run d name payload ftype ascii_flag rewrite base tracks e
    → IsBytes e
write_file-IsBytes d name payload ftype ascii_flag rewrite base tracks view bytes small r =
    let out = Run-Outcome d name payload ftype ascii_flag rewrite base tracks view bytes r in
    let grans_small : AreBytes r.grans =
      All-map (λ g lt. omega (arith, view.links)) r.grans out.below in
    let cleared = (clear_slot-Released d r.off (num_granules tracks) base bytes r.clearing).bytes in
    let linked =
      link_chain-IsBytes r.cleared (gat_offset base) r.grans _ cleared grans_small r.linking in
    let lss = last_sector_bytes (length payload) in
    let tail : AreBytes
        (ftype ∷ ascii_flag ∷ get_or r.grans 0 0 ∷ (lss / 256) % 256 ∷ lss % 256 ∷ replicate 16 0) =
      (
        r.type_byte,
        (
          r.ascii_byte,
          (get_or-AreBytes r.grans 0 grans_small, (omega arith, (omega arith, AreBytes-zeros 16))),
        ),
      ) in
    subst IsBytes (sym r.result) (
      splice-IsBytes (lay r.linked base r.grans payload) r.off entry_size _
        (lay-IsBytes r.linked base r.grans payload linked small)
        (All-append (λ b. b < 256) r.field _ (encode_name-AreBytes name r.named) tail))
