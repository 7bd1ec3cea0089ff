-- ===== src/Symbols/Lines.antt =====
-- The lines of a symbol file that hold no symbol.
use xroar_dev.Base.{
  ℕ, ◌≡◌, sym, ap, inl, inr, false, List, [], ◌∷◌, if◌then◌else◌, Bool-cases, list_eq,
}
use xroar_dev.Error.{Result, ok, ok-injective, bind-eq-ok}
use xroar_dev.Symbols.{
  SymbolFile, read_image, read_sym, read_dp, read_equate, read_range, words_from, hex, natural,
  tag_build, tag_image,
}
use xroar_dev.Text.{strip_space, int_10}

-- The other lines do not touch the symbols.
abbrev pub Same : SymbolFile → SymbolFile → Type 0
Same f g = g.by_name ≡ f.by_name

read_image-Same : (f g : SymbolFile) (ws : List (List ℕ)) → read_image f ws ≡ ok g → Same f g
read_image-Same f g (name ∷ org ∷ base ∷ size ∷ digest ∷ []) k =
    let (o, _, k1) = bind-eq-ok (hex org) _ k in
    let (b, _, k2) = bind-eq-ok (hex base) _ k1 in
    let (n, _, k3) = bind-eq-ok (natural (int_10 size)) _ k2 in
    ap (λ x. x.by_name) (sym (ok-injective k3))
read_image-Same f g [] k = cc k
read_image-Same f g (a ∷ []) k = cc k
read_image-Same f g (a ∷ b ∷ []) k = cc k
read_image-Same f g (a ∷ b ∷ c ∷ []) k = cc k
read_image-Same f g (a ∷ b ∷ c ∷ d ∷ []) k = cc k
read_image-Same f g (a ∷ b ∷ c ∷ d ∷ e ∷ w ∷ ws) k = cc k

read_dp-Same : (f g : SymbolFile) (ws : List (List ℕ)) → read_dp f ws ≡ ok g → Same f g
read_dp-Same f g (name ∷ off ∷ logical ∷ phys ∷ []) k =
    let (o, _, k1) = bind-eq-ok (hex off) _ k in
    let (l, _, k2) = bind-eq-ok (hex logical) _ k1 in
    let (p, _, k3) = bind-eq-ok (hex phys) _ k2 in ap (λ x. x.by_name) (sym (ok-injective k3))
read_dp-Same f g [] k = cc k
read_dp-Same f g (a ∷ []) k = cc k
read_dp-Same f g (a ∷ b ∷ []) k = cc k
read_dp-Same f g (a ∷ b ∷ c ∷ []) k = cc k
read_dp-Same f g (a ∷ b ∷ c ∷ d ∷ e ∷ ws) k = cc k

read_equate-Same : (f g : SymbolFile) (ws : List (List ℕ)) → read_equate f ws ≡ ok g → Same f g
read_equate-Same f g (name ∷ value ∷ []) k =
    let (v, _, k1) = bind-eq-ok (hex value) _ k in ap (λ x. x.by_name) (sym (ok-injective k1))
read_equate-Same f g [] k = cc k
read_equate-Same f g (a ∷ []) k = cc k
read_equate-Same f g (a ∷ b ∷ c ∷ ws) k = cc k

read_range-Same : (f g : SymbolFile) (ws : List (List ℕ)) → read_range f ws ≡ ok g → Same f g
read_range-Same f g (cls ∷ lo ∷ hi ∷ []) k = elim (Bool-cases (list_eq cls (b'C' ∷ []))) [
  | inl code ↦
      let (l, _, k1) = bind-eq-ok (hex lo) _ (rw code at k) in
      let (h, _, k2) = bind-eq-ok (hex hi) _ k1 in ap (λ x. x.by_name) (sym (ok-injective k2))
  | inr data_range ↦ ap (λ x. x.by_name) (sym (ok-injective (rw data_range at k)))
]
read_range-Same f g [] k = cc k
read_range-Same f g (a ∷ []) k = cc k
read_range-Same f g (a ∷ b ∷ []) k = cc k
read_range-Same f g (a ∷ b ∷ c ∷ d ∷ ws) k = cc k

-- What `read_row` does with a line that is not empty.
abbrev pub by_kind : SymbolFile → List ℕ → List ℕ → Result SymbolFile
by_kind f kind rest =
    if list_eq kind tag_build
    then ok (record f { build = strip_space rest })
    else if list_eq kind tag_image
    then read_image f (words_from [] rest)
    else if list_eq kind (b'S' ∷ [])
    then read_sym f (words_from [] rest)
    else if list_eq kind (b'D' ∷ [])
    then read_dp f (words_from [] rest)
    else if list_eq kind (b'E' ∷ [])
    then read_equate f (words_from [] rest)
    else if list_eq kind (b'M' ∷ [])
    then read_range f (words_from [] rest)
    else ok f

pub other_kind-Same :
    (f g : SymbolFile) (kind rest : List ℕ)
    → list_eq kind (b'S' ∷ []) ≡ false
    → by_kind f kind rest ≡ ok g
    → Same f g
other_kind-Same f g kind rest c j = elim (Bool-cases (list_eq kind tag_build)) [
  | inl a ↦ ap (λ x. x.by_name) (sym (ok-injective (rw a at j)))
  | inr a ↦ elim (Bool-cases (list_eq kind tag_image)) [
    | inl b ↦ read_image-Same f g (words_from [] rest) (rw (a, b) at j)
    | inr b ↦ elim (Bool-cases (list_eq kind (b'D' ∷ []))) [
      | inl d ↦ read_dp-Same f g (words_from [] rest) (rw (a, b, c, d) at j)
      | inr d ↦ elim (Bool-cases (list_eq kind (b'E' ∷ []))) [
        | inl e ↦ read_equate-Same f g (words_from [] rest) (rw (a, b, c, d, e) at j)
        | inr e ↦ elim (Bool-cases (list_eq kind (b'M' ∷ []))) [
          | inl m ↦ read_range-Same f g (words_from [] rest) (rw (a, b, c, d, e, m) at j)
          | inr m ↦ ap (λ x. x.by_name) (sym (ok-injective (rw (a, b, c, d, e, m) at j)))
        ]
      ]
    ]
  ]
]
