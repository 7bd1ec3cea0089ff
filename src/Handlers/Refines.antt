-- ===== src/Handlers/Refines.antt =====
-- `cmd_kill` and `cmd_rename` on a host whose image file holds a well-formed drive.
use xroar_dev.Base.{
  ℕ, ◌%◌, ◌≤◌, ◌≡◌, refl, sym, ap, ◌∙◌, ◌≢◌, inl, inr, false, not, Option, none, some, List, [],
  ◌∷◌, arith, ◌==◌, Bool-cases, length, get_or, All,
}
use xroar_dev.Error.{ok-injective, Result, err, ok, usage, die_if}
use xroar_dev.Host.{
  Host, bytes_of, image_of, lift, then_run, with_file, write_host, ◌>>=◌, ◌>>◌, Written, refused,
  cut, complete, written,
}
use xroar_dev.Image.{Image}
use xroar_dev.Handlers.{file_arg, named_path, save_image}
use xroar_dev.Handlers.Alter.{
  edit_file, kill_in, cmd_kill, cmd_rename, rename_to, new_name, without_options,
}
use xroar_dev.Handlers.Saved.{reloaded-IsWell, IsWellFile}
use xroar_dev.Drive.Contents.{contents, Change, kill_change, rename_change, perform, after, IsValid}
use xroar_dev.Drive.Refines.{perform_refines, perform_size}
use xroar_dev.Copy.{Opened, open_image}
use xroar_dev.Paths.{ImagePath, split_image_path}
use xroar_dev.Commands.Load.{Selected}
use xroar_dev.Host.Reload.{reloaded, read_file_loaded}
use xroar_dev.Copy.Steps.{with_file_same, open_saved, run-bind}
use xroar_dev.Commands.Load.Same.{SameHeader, load_view-same}
use xroar_dev.Commands.Load.Aligned.{load_view_behind, split_image_path-IsAligned}
use xroar_dev.Handlers.Header.{SameBefore, kill_file-SameBefore, rename_file-SameBefore}
use xroar_dev.Copy.Flags.{is_option}
use mathlib.Core.Path.{subst}
use xroar_dev.Geometry.{sector}
use xroar_dev.Text.{nonempty}
use xroar_dev.View.{IsView}

-- The file after a change, and what its names read as.
abbrev pub Changed : Change → Host → ImagePath → ℕ → ℕ → List ℕ → Type 0
Changed c h path base tracks bytes =
    (bytes' : List ℕ) × IsWellFile h path base tracks bytes'
    × ((x : List ℕ)
        → contents (image_of bytes') base tracks x
          ≡ after c (contents (image_of bytes) base tracks) x)

saved_runs :
    (path : ImagePath) (e : Image) (h h' : Host)
    → save_image path e h ≡ (ok tt, h')
    → with_file h (h.abspath path.disk) (bytes_of e) ≡ h'
unfolding save_image write_host
saved_runs path e h h' runs = cases (h.write_at (h.abspath path.disk) (bytes_of e)) runs
  where
    cases :
        (w : Written)
        → written (h.abspath path.disk) (bytes_of e) h w ≡ (ok tt, h')
        → with_file h (h.abspath path.disk) (bytes_of e) ≡ h'
    cases complete k = ap (λ p. p.1) k
    cases refused k = absurd (let j = ap (λ p. p.0) k in cc j)
    cases (cut n) k = absurd (let j = ap (λ p. p.0) k in cc j)

-- The changes that leave the bytes before the drive alone.
abbrev KeepsBefore : Change → ℕ → ℕ → Type 0
KeepsBefore c base tracks =
    (d e : Image) → IsView d base tracks → perform c base tracks d ≡ ok e → SameBefore base d e

saved_change :
    (c : Change) (path : ImagePath) (h h' : Host) (base tracks : ℕ) (bytes : List ℕ) (e : Image)
    → IsValid c
    → KeepsBefore c base tracks
    → length bytes % sector ≤ base
    → IsWellFile h path base tracks bytes
    → perform c base tracks (image_of bytes) ≡ ok e
    → save_image path e h ≡ (ok tt, h')
    → Changed c h' path base tracks bytes
unfolding image_of
saved_change c path h h' base tracks bytes e valid keeps behind (there, loads, well) done runs =
    let d = image_of bytes in
    let (well', same) = perform_refines c d base tracks e well valid done in
    let e_size : e.size ≡ length bytes = perform_size c d base tracks e well done in
    let size : (image_of (bytes_of e)).size ≡ length bytes = (reloaded e).size ∙ e_size in
    let header : SameHeader d (image_of (bytes_of e)) =
      λ k lt. (reloaded e).byte k (omega arith) ∙ keeps d e well.view done k (omega arith) in
    subst (λ y. Changed c y path base tracks bytes) (saved_runs path e h h' runs)
      (
        bytes_of e,
        (
          with_file_same h (h.abspath path.disk) (bytes_of e),
          load_view-same d (image_of (bytes_of e)) path.drive size header ∙ loads,
          reloaded-IsWell e base tracks well',
        ),
        λ x.
            read_file_loaded e (image_of (bytes_of e)) (reloaded e) x base tracks well'.view
            ∙ same x,
      )

-- What is left of an edit once its image is open.
after_open :
    (c : Change) (r : Result Image) (path : ImagePath) (h h' : Host) (base tracks : ℕ)
    (bytes : List ℕ)
    → IsValid c
    → KeepsBefore c base tracks
    → length bytes % sector ≤ base
    → IsWellFile h path base tracks bytes
    → perform c base tracks (image_of bytes) ≡ r
    → ◌>>=◌ (lift r) (λ e. save_image path e) h ≡ (ok tt, h')
    → Changed c h' path base tracks bytes
after_open c (err y) path h h' base tracks bytes valid keeps behind file is runs =
    absurd (let k = ap (λ p. p.0) runs in cc k)
after_open c (ok e) path h h' base tracks bytes valid keeps behind file is runs =
    saved_change c path h h' base tracks bytes e valid keeps behind file is runs

-- The path of a file argument is the argument split.
file_arg-split :
    (raw : List ℕ) (path : ImagePath) (h : Host)
    → file_arg raw h ≡ (ok path, h)
    → split_image_path raw ≡ ok (some path)
unfolding file_arg
file_arg-split raw path h is = go (split_image_path raw) is
  where
    go :
        (r : Result (Option ImagePath))
        → then_run (r, h) (λ s. lift (named_path s)) ≡ (ok path, h)
        → r ≡ ok (some path)
    go (err e) k = absurd (let j = ap (λ p. p.0) k in cc j)
    go (ok none) k = absurd (let j = ap (λ p. p.0) k in cc j)
    go (ok (some p)) k = elim (Bool-cases (nonempty p.name)) [
      | inl named ↦ let j = ap (λ p. p.0) (rw named at k) in ap (λ x. ok (some x)) (ok-injective j)
      | inr empty ↦ absurd (let j = ap (λ p. p.0) (rw empty at k) in cc j)
    ]

edit_file_refines :
    (c : Change) (change : Opened → List ℕ → Result Image) (raw : List ℕ) (path : ImagePath)
    (h h' : Host) (base tracks : ℕ) (bytes : List ℕ)
    → ((o : Opened) → change o path.name ≡ perform c o.view.base o.view.tracks o.image)
    → IsValid c
    → KeepsBefore c base tracks
    → file_arg raw h ≡ (ok path, h)
    → IsWellFile h path base tracks bytes
    → edit_file change raw h ≡ (ok tt, h')
    → Changed c h' path base tracks bytes
unfolding image_of
edit_file_refines c change raw path h h' base tracks bytes is valid keeps arg file runs =
    let view : Selected = record { base = base; tracks = tracks } in
    let o : Opened = record { path = path; image = image_of bytes; view = view } in
    let opened = open_saved h path bytes view file.0 file.1 in
    let behind =
      load_view_behind (image_of bytes) path.drive view
        (split_image_path-IsAligned raw path (file_arg-split raw path h arg)) file.1 in
    after_open c (change o path.name) path h h' base tracks bytes valid keeps behind file
      (sym (is o))
      (sym (run-bind (file_arg raw) _ h h path arg ∙ run-bind (open_image path) _ h h o opened)
        ∙ runs)

-- `kill disk,NAME`, on an image file with or without a JVC header: when it succeeds, the drive in the
-- image file is well formed as before, the name is gone from it, and every other name reads as before.
pub cmd_kill_refines :
    (raw : List ℕ) (path : ImagePath) (h h' : Host) (base tracks : ℕ) (bytes : List ℕ)
    → file_arg raw h ≡ (ok path, h)
    → IsWellFile h path base tracks bytes
    → cmd_kill (raw ∷ []) h ≡ (ok tt, h')
    → Changed (kill_change path.name) h' path base tracks bytes
unfolding cmd_kill
cmd_kill_refines raw path h h' base tracks bytes arg file runs =
    edit_file_refines (kill_change path.name) kill_in raw path h h' base tracks bytes (λ o. refl) tt
      (λ d e view done. kill_file-SameBefore d path.name base tracks e done) arg file
      (ended (edit_file kill_in raw h) runs)
  where
    ended :
        (r : Result (Unit {0}) × Host)
        → then_run r (λ _. lift (ok tt)) ≡ (ok tt, h')
        → r ≡ (ok tt, h')
    ended (err y, g) k = absurd (let j = ap (λ p. p.0) k in cc j)
    ended (ok _, g) k = k

pub without_options_two :
    (a b : List ℕ)
    → is_option a ≡ false
    → is_option b ≡ false
    → without_options (a ∷ b ∷ []) ≡ a ∷ b ∷ []
unfolding without_options
without_options_two a b plain plain' = rw (plain, plain')

-- `rename disk,OLD NEW`, on an image file with or without a JVC header: when it succeeds, for a new
-- name without NUL, the drive in the image file is well formed as before, the new name reads as the
-- old one did, the old one is gone, and every other name reads as before.
pub cmd_rename_refines :
    (raw new : List ℕ) (path : ImagePath) (h h' : Host) (base tracks : ℕ) (bytes : List ℕ)
    → is_option raw ≡ false
    → is_option new ≡ false
    → All (λ c. c ≢ 0) (new_name new)
    → file_arg raw h ≡ (ok path, h)
    → IsWellFile h path base tracks bytes
    → cmd_rename (raw ∷ new ∷ []) h ≡ (ok tt, h')
    → Changed (rename_change path.name (new_name new)) h' path base tracks bytes
unfolding cmd_rename
cmd_rename_refines raw new path h h' base tracks bytes plain plain' chars arg file runs =
    edit_file_refines (rename_change path.name (new_name new)) (rename_to (new_name new)) raw path h
      h' base tracks bytes (λ o. refl) chars
      (λ d e view done. rename_file-SameBefore d path.name (new_name new) base tracks e view done)
      arg file
      (subst
        (λ p.
          (lift (die_if (not (length p == 2)) usage)
              >> edit_file (rename_to (new_name (get_or p 1 []))) (get_or p 0 []))
            h
          ≡ (ok tt, h'))
        (without_options_two raw new plain plain') runs)
