-- ===== src/Symbols/Lookup.antt =====
-- A lookup by name, against the lines of the file.
use xroar_dev.Base.{
  ℕ, ◌≡◌, refl, sym, ap, ◌∙◌, inl, inr, true, false, none, List, [], ◌∷◌, ◌++◌, if◌then◌else◌,
  Bool-cases, list_eq, list_eq→eq, list_eq_refl,
}
use xroar_dev.Error.{Result, ok, err, undefined_symbol, ambiguous_symbol, ok-injective, bind-eq-ok}
use xroar_dev.Symbols.{
  Sym, SymbolFile, empty_file, add_sym, group_of, get_key, only_one, sym_of, read_sym, read_row,
  load_rows, kind_of, words_from, hex,
}
use xroar_dev.Text.{partition}
use mathlib.Core.List.{append-nil, append_assoc}
use mathlib.Core.Path.{subst}
use xroar_dev.Symbols.Lines.{Same, by_kind, other_kind-Same}

-- The symbol that the words of an `S` line give.
abbrev pub one_sym : List ℕ → List ℕ → Result ℕ → Result ℕ → List Sym
one_sym name image (ok l) (ok p) = record { name = name; image = image; logical = l; phys = p } ∷ []
one_sym name image (ok l) (err e) = []
one_sym name image (err e) phys = []

abbrev pub sym_line : List (List ℕ) → List Sym
sym_line (name ∷ image ∷ logical ∷ phys ∷ []) = one_sym name image (hex logical) (hex phys)
sym_line _ = []

abbrev pub kind_syms : List ℕ × List ℕ → List Sym
kind_syms (kind, rest) = if list_eq kind (b'S' ∷ []) then sym_line (words_from [] rest) else []

-- The symbols of the `S` lines, in order.
unfoldable pub lines_syms : List (List ℕ) → List Sym
unfolding words_from partition
lines_syms [] = []
lines_syms (row ∷ rows) = kind_syms (kind_of row) ++ lines_syms rows

-- The symbols of one name.
abbrev pub named : List ℕ → List Sym → List Sym
named name [] = []
named name (s ∷ syms) = if list_eq s.name name then s ∷ named name syms else named name syms

-- One symbol, and the errors of none and of several.
abbrev pub unique : List Sym → Result Sym
unique [] = err undefined_symbol
unique (s ∷ []) = ok s
unique (s ∷ t ∷ syms) = err ambiguous_symbol

named-append : (name : List ℕ) (a b : List Sym) → named name (a ++ b) ≡ named name a ++ named name b
named-append name [] b = refl
named-append name (s ∷ a) b = elim (Bool-cases (list_eq s.name name)) [
  | inl same ↦ rw same (ap (λ x. s ∷ x) (named-append name a b))
  | inr other ↦ rw other (named-append name a b)
]

group_of_none : (name : List ℕ) → group_of name [] ≡ []
unfolding group_of get_key
group_of_none name = refl

group_of_here :
    (name k : List ℕ) (group : List Sym) (groups : List (List ℕ × List Sym))
    → list_eq k name ≡ true
    → group_of name ((k, group) ∷ groups) ≡ group
unfolding group_of get_key
group_of_here name k group groups same = rw (group_of, same)

group_of_later :
    (name k : List ℕ) (group : List Sym) (groups : List (List ℕ × List Sym))
    → list_eq k name ≡ false
    → group_of name ((k, group) ∷ groups) ≡ group_of name groups
unfolding group_of get_key
group_of_later name k group groups other = rw (group_of, other)

-- The group of a name after a symbol is added.
group_of-add_sym :
    (name : List ℕ) (s : Sym) (groups : List (List ℕ × List Sym))
    → group_of name (add_sym s.name s groups) ≡ group_of name groups ++ named name (s ∷ [])
unfolding add_sym
group_of-add_sym name s [] = elim (Bool-cases (list_eq s.name name)) [
  | inl same ↦ rw (same, group_of_none name) (group_of_here name s.name (s ∷ []) [] same)
  | inr other ↦
      rw (other, group_of_none name)
        (group_of_later name s.name (s ∷ []) [] other ∙ group_of_none name)
]
group_of-add_sym name s ((k, group) ∷ groups) = elim (Bool-cases (list_eq k s.name)) [
  | inl same ↦
      let is : k ≡ s.name = list_eq→eq k s.name same in
      elim (Bool-cases (list_eq k name)) [
        | inl here ↦
            let here' : list_eq s.name name ≡ true = rw is at here in
            rw (same, here', group_of_here name k group groups here)
              (group_of_here name k (group ++ s ∷ []) groups here)
        | inr later ↦
            let later' : list_eq s.name name ≡ false = rw is at later in
            rw (same, later', group_of_later name k group groups later)
              (group_of_later name k (group ++ s ∷ []) groups later
                ∙ sym (append-nil (group_of name groups)))
      ]
  | inr other ↦ elim (Bool-cases (list_eq k name)) [
    | inl here ↦ elim (Bool-cases (list_eq s.name name)) [
      | inl both ↦ absurd (apart k here other both)
      | inr differs ↦
          rw (other, differs, group_of_here name k group groups here)
            (group_of_here name k group (add_sym s.name s groups) here ∙ sym (append-nil group))
    ]
    | inr later ↦
        rw (other, group_of_later name k group groups later)
          (group_of_later name k group (add_sym s.name s groups) later
            ∙ group_of-add_sym name s groups)
  ]
]
  where
    apart :
        (key : List ℕ)
        → list_eq key name ≡ true
        → list_eq key s.name ≡ false
        → list_eq s.name name ≡ true
        → ⊥
    apart key here other both =
        let is : key ≡ s.name = list_eq→eq key name here ∙ sym (list_eq→eq s.name name both) in
        let no : list_eq s.name s.name ≡ false = rw is at other in
        let yes = list_eq_refl s.name in cc (no, yes)

-- `g` is `f` with these symbols more.
abbrev Extends : SymbolFile → SymbolFile → List Sym → Type 0
Extends f g syms =
    (name : List ℕ) → group_of name g.by_name ≡ group_of name f.by_name ++ named name syms

sym_line_lem :
    (name image logical phys : List ℕ) (l p : ℕ)
    → hex logical ≡ ok l
    → hex phys ≡ ok p
    → sym_line (name ∷ image ∷ logical ∷ phys ∷ [])
      ≡ record { name = name; image = image; logical = l; phys = p } ∷ []
sym_line_lem name image logical phys l p is_l is_p =
    ap (λ r. one_sym name image r (hex phys)) is_l ∙ ap (λ r. one_sym name image (ok l) r) is_p

read_sym-Extends :
    (f g : SymbolFile) (ws : List (List ℕ)) → read_sym f ws ≡ ok g → Extends f g (sym_line ws)
read_sym-Extends f g (a ∷ image ∷ logical ∷ phys ∷ []) k name =
    let (l, is_l, k1) = bind-eq-ok (hex logical) _ k in
    let (p, is_p, k2) = bind-eq-ok (hex phys) _ k1 in
    let s : Sym = record { name = a; image = image; logical = l; phys = p } in
    let line : sym_line (a ∷ image ∷ logical ∷ phys ∷ []) ≡ s ∷ [] =
      sym_line_lem a image logical phys l p is_l is_p in
    ap (λ x. group_of name x.by_name) (sym (ok-injective k2))
    ∙ group_of-add_sym name s f.by_name
    ∙ ap (λ x. group_of name f.by_name ++ named name x) (sym line)
read_sym-Extends f g [] k name = cc k
read_sym-Extends f g (a ∷ []) k name = cc k
read_sym-Extends f g (a ∷ b ∷ []) k name = cc k
read_sym-Extends f g (a ∷ b ∷ c ∷ []) k name = cc k
read_sym-Extends f g (a ∷ b ∷ c ∷ d ∷ e ∷ ws) k name = cc k

Same-Extends : (f g : SymbolFile) → Same f g → Extends f g []
Same-Extends f g same name = ap (group_of name) same ∙ sym (append-nil (group_of name f.by_name))

by_kind-Extends :
    (f g : SymbolFile) (kind rest : List ℕ)
    → by_kind f kind rest ≡ ok g
    → Extends f g (kind_syms (kind, rest))
by_kind-Extends f g kind rest j = elim (Bool-cases (list_eq kind (b'S' ∷ []))) [
  | inl here ↦
      let is : kind ≡ b'S' ∷ [] = list_eq→eq kind (b'S' ∷ []) here in
      let read : read_sym f (words_from [] rest) ≡ ok g =
        subst (λ x. by_kind f x rest ≡ ok g) is j in
      rw here (read_sym-Extends f g (words_from [] rest) read)
  | inr other ↦ rw other (Same-Extends f g (other_kind-Same f g kind rest other j))
]

read_row-Extends :
    (f g : SymbolFile) (row : List ℕ)
    → read_row f row ≡ ok g
    → Extends f g (kind_syms (kind_of row))
unfolding read_row
read_row-Extends f g [] k = Same-Extends f g (ap (λ x. x.by_name) (sym (ok-injective k)))
read_row-Extends f g (c ∷ cs) k = go (kind_of (c ∷ cs)) k
  where
    go : (p : List ℕ × List ℕ) → by_kind f p.0 p.1 ≡ ok g → Extends f g (kind_syms p)
    go (kind, rest) j = by_kind-Extends f g kind rest j

load_rows-Extends :
    (f g : SymbolFile) (rows : List (List ℕ))
    → load_rows f rows ≡ ok g
    → Extends f g (lines_syms rows)
unfolding load_rows lines_syms
load_rows-Extends f g [] k name = Same-Extends f g (ap (λ x. x.by_name) (sym (ok-injective k))) name
load_rows-Extends f g (row ∷ rows) k name =
    let (mid, one, rest) = bind-eq-ok (read_row f row) _ k in
    let syms = kind_syms (kind_of row) in
    load_rows-Extends mid g rows rest name
    ∙ ap (λ x. x ++ named name (lines_syms rows)) (read_row-Extends f mid row one name)
    ∙ append_assoc (group_of name f.by_name) (named name syms) (named name (lines_syms rows))
    ∙ ap (λ x. group_of name f.by_name ++ x) (sym (named-append name syms (lines_syms rows)))

unique_lem : (syms : List Sym) → only_one syms ≡ unique syms
unique_lem [] = refl
unique_lem (s ∷ []) = refl
unique_lem (s ∷ t ∷ syms) = refl

-- In a file that was loaded, a bare name is looked up among the `S` lines of that name: one line gives
-- its symbol, none is the error of an undefined name, and several, wherever they stand in the file,
-- are the error of an ambiguous one.
pub sym_of_lem :
    (rows : List (List ℕ)) (f : SymbolFile) (name : List ℕ)
    → load_rows empty_file rows ≡ ok f
    → partition b':' name ≡ none
    → sym_of f name ≡ unique (named name (lines_syms rows))
unfolding sym_of
sym_of_lem rows f name loaded bare =
    let group : group_of name f.by_name ≡ named name (lines_syms rows) =
      unfold group_of get_key in load_rows-Extends empty_file f rows loaded name in
    (rw (bare, sym_of) (unique_lem (group_of name f.by_name))) ∙ ap unique group
