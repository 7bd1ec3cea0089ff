-- ===== src/Symbols/Tests.antt =====
-- A small symbol file, and lookups in it.
use xroar_dev.Base.{ℕ, ◌+◌, ◌≤◌, ◌≡◌, refl, sym, ◌∙◌, none, some, List, [], ◌∷◌, All}
use xroar_dev.Error.{Result, ambiguous_symbol, err, ok}
use xroar_dev.Symbols.{Sym, SymbolFile, empty_file, load_rows, sym_of, whereis, all_syms}
use xroar_dev.Basic.Tables.{codes}
use xroar_dev.Symbols.Nearest.{whereis_nearest}
use xroar_dev.Text.{partition}
use xroar_dev.Symbols.Lookup.{lines_syms, named, unique, sym_of_lem}

abbrev rows : List (List ℕ)
rows =
    codes "!build abc"
    ∷ codes "!image RESIDENT 0E00 00E00 512 -"
    ∷ codes "S Draw RESIDENT 0E10 00E10"
    ∷ codes "S Draw OVERLAY.link 2000 0A000"
    ∷ codes "S Main RESIDENT 0E40 00E40"
    ∷ codes "E Port FF20"
    ∷ codes "M C 00E00 00EFF"
    ∷ []

abbrev or_empty : Result SymbolFile → SymbolFile
or_empty (ok f) = f
or_empty (err e) = empty_file

abbrev file : SymbolFile
file = or_empty (load_rows empty_file rows)

loaded : load_rows empty_file rows ≡ ok file
unfolding load_rows
loaded = refl

ambiguous : sym_of file (codes "Draw") ≡ err ambiguous_symbol
unfolding load_rows sym_of
ambiguous = refl

abbrev main : Sym
main = record { name = codes "Main"; image = codes "RESIDENT"; logical = 0xE40; phys = 0xE40 }

near_main : whereis file 0xE45 0x400 ≡ some (main, 5)
unfolding load_rows whereis
near_main = refl

whereis_nearest_example :
    (main.phys + 5 ≡ 0xE45)
    × (5 ≤ 0x400)
    × All (λ t. t.phys ≤ 0xE45 → t.phys ≤ main.phys) (all_syms file.by_name)
whereis_nearest_example = whereis_nearest file 0xE45 0x400 main 5 near_main

main_bare : partition b':' (codes "Main") ≡ none
unfolding partition
main_bare = refl

sym_of_lem_example : sym_of file (codes "Main") ≡ unique (named (codes "Main") (lines_syms rows))
sym_of_lem_example = sym_of_lem rows file (codes "Main") loaded main_bare

draw_bare : partition b':' (codes "Draw") ≡ none
unfolding partition
draw_bare = refl

-- Two lines of one name.
two_draws : unique (named (codes "Draw") (lines_syms rows)) ≡ err ambiguous_symbol
two_draws = sym (sym_of_lem rows file (codes "Draw") loaded draw_bare) ∙ ambiguous
