-- ===== src/Gat/Tests.antt =====
-- A small table with one chain, and the theorems on tables at it.
use xroar_dev.Base.{
  ℕ, ◌≡◌, refl, ◌≢◌, List, [], ◌∷◌, arith, ◌==◌, if◌then◌else◌, length, get_or, All,
}
use xroar_dev.Geometry.{gat_offset}
use xroar_dev.Image.{Image, IsBytes, get, put}
use xroar_dev.Error.{out_of_fuel, Result, ok, err}
use xroar_dev.Gat.{walk, chain_granules, find_free_granules, release, link_chain}
use xroar_dev.Gat.Chain.{IsChain, table, walk_complete, walk_sound, chain_granules_terminates}
use xroar_dev.Gat.Free.{IsAscending, IsFree, find_free_granules_lem}
use xroar_dev.Gat.Release.{Freed, release_exact}
use xroar_dev.Gat.Link.{Linked, link_chain_lem}

-- Granule 5 links to granule 7, the last of its chain with three sectors; all others are free.
abbrev table_image : Image
table_image = record {
  size = 80000;
  byte = λ k. if k == 78597 then 7 else if k == 78599 then 0xC3 else 0xFF;
}

abbrev chain_5 : List ℕ
chain_5 = 5 ∷ 7 ∷ []

walk_runs : walk table_image 78592 68 70 0 5 ≡ ok (chain_5, 0xC3)
unfolding walk get
walk_runs = refl

walk_sound_example : IsChain (table table_image 78592) 68 chain_5 0xC3 × (get_or chain_5 0 0 ≡ 5)
walk_sound_example = walk_sound table_image 78592 68 70 0 5 chain_5 0xC3 walk_runs

chain_5-IsChain : IsChain (table table_image 78592) 68 chain_5 0xC3
chain_5-IsChain = (omega arith, refl, omega arith, (omega arith, refl, omega arith))

walk_complete_example : walk table_image 78592 68 70 0 5 ≡ ok (chain_5, 0xC3)
walk_complete_example =
    walk_complete table_image 78592 68 70 0 5 (7 ∷ []) 0xC3 (omega arith) (omega arith)
      (omega arith) chain_5-IsChain

chain_granules_terminates_example : chain_granules table_image 5 68 0 ≢ err out_of_fuel
chain_granules_terminates_example = chain_granules_terminates table_image 5 68 0

abbrev first_two : List ℕ
first_two = 0 ∷ 1 ∷ []

two_free : find_free_granules table_image 2 8 0 ≡ ok first_two
unfolding find_free_granules get
two_free = refl

find_free_granules_lem_example :
    (length first_two ≡ 2)
    × All (IsFree (table table_image (gat_offset 0)) 0 8) first_two
    × IsAscending first_two
find_free_granules_lem_example = find_free_granules_lem table_image 2 8 0 two_free

link_chain_lem_example :
    (e : Image) × (link_chain table_image 78592 (2 ∷ 3 ∷ []) 4 ≡ ok e)
    × Linked table_image e 78592 (2 ∷ 3 ∷ [])
    × IsChain (table e 78592) 68 (2 ∷ 3 ∷ []) 0xC4
link_chain_lem_example =
    link_chain_lem table_image 78592 68 2 (3 ∷ []) 4 (omega arith) (omega arith) (omega arith)
      (omega arith)

table_image-IsBytes : IsBytes table_image
table_image-IsBytes = record { at = λ i. ground arith }

abbrev or_table : Result Image → Image
or_table (ok d) = d
or_table (err e) = table_image

abbrev released : Image
released = or_table (release table_image 78592 69 5)

release_runs : release table_image 78592 69 5 ≡ ok released
unfolding release get put
release_runs = refl

release_exact_example : Freed table_image released 78592 chain_5
release_exact_example =
    release_exact table_image 78592 68 69 5 (7 ∷ []) 0xC3 table_image-IsBytes (omega arith)
      chain_5-IsChain release_runs
