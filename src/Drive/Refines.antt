-- ===== src/Drive/Refines.antt =====
-- `write_file`, `cmd_kill` and `cmd_rename` refine insertion, removal and renaming in a map.
use xroar_dev.Base.{
  ℕ, ◌≡◌, refl, sym, ap, ◌∙◌, ◌≢◌, inl, inr, Bool, none, List, [], ◌∷◌, Bool-cases, length, All,
}
use xroar_dev.Error.{Result, ◌>>=◌, ok, ok-injective, bind-eq-ok}
use xroar_dev.Image.{Image, splice}
use xroar_dev.Drive.{IsWell, found-IsLive}
use xroar_dev.Names.{encode_name}
use xroar_dev.Directory.{find_entry}
use xroar_dev.DiskFile.{write_file}
use xroar_dev.Directory.Search.{hit-slot}
use xroar_dev.DiskFile.RoundTrip.{read_file-write_file}
use xroar_dev.DiskFile.Write.{write_file-Run}
use xroar_dev.Commands.Rename.{rename_steps, read_file-rename_file}
use xroar_dev.Commands.Edit.{kill_file, rename_file}
use xroar_dev.Drive.Remove.{Found, kill-Found, kill-Edit, kill_dead, kill_file-IsWell}
use xroar_dev.Drive.Move.{rename-Edit, head_moved, moved-IsWell, rename-Found}
use xroar_dev.Drive.Keeps.{Edit-IsWell, read_file-Edit}
use xroar_dev.Drive.Contents.{
  Contents, contents, same_name, Change, write_change, kill_change, rename_change, perform, after,
  IsValid, same_name-true, other_name, read_file-named, read_file-absent, name_gone,
}
use xroar_dev.Drive.Bytes.{encode_name-AreBytes, write_file-IsBytes}
use xroar_dev.Drive.Store.{write-Edit, head_stored, miss_before, write-Settled}
use xroar_dev.Names.Fields.{length-encode_name}
use mathlib.Core.Path.{subst}

-- What each command does to a well-formed drive and its contents.
abbrev Refines : Change → Image → ℕ → ℕ → Image → Type 0
Refines c d base tracks e =
    IsWell e base tracks
    × ((x : List ℕ) → contents e base tracks x ≡ after c (contents d base tracks) x)

write-Refines :
    (d : Image) (name payload : List ℕ) (ftype ascii_flag : ℕ) (rewrite : Bool) (base tracks : ℕ)
    (e : Image)
    → IsWell d base tracks
    → IsValid (write_change name payload ftype ascii_flag rewrite)
    → write_file d name payload ftype ascii_flag rewrite base tracks ≡ ok e
    → Refines (write_change name payload ftype ascii_flag rewrite) d base tracks e
write-Refines d name payload ftype ascii_flag rewrite base tracks e well (small, chars) h =
    let r = write_file-Run d name payload ftype ascii_flag rewrite base tracks h in
    let edit = write-Edit d name payload ftype ascii_flag rewrite base tracks well r in
    let head = head_stored d name payload ftype ascii_flag rewrite base tracks well r in
    (
      Edit-IsWell d e base tracks r.off well edit
          (write-Settled d name payload ftype ascii_flag rewrite base tracks well r)
          (write_file-IsBytes d name payload ftype ascii_flag rewrite base tracks well.view
            well.bytes small r),
      λ x. elim (Bool-cases (same_name x name)) [
        | inl is ↦ rw is (
            read_file-named e base tracks x name r.field r.named
              (same_name-true x name r.field r.named is)
            ∙ read_file-write_file d name payload ftype ascii_flag rewrite base tracks well.view
                well.bytes chars h)
        | inr other ↦ rw other (
            other_name d e base tracks x name r.field r.named other (λ field named ne.
              read_file-Edit d e base tracks r.off well edit x field named
                (miss_before d name payload ftype ascii_flag rewrite base tracks well r field ne)
                (hit-slot e field r.field r.off head ne)))
      ],
    )

kill-Refines :
    (d : Image) (name : List ℕ) (base tracks : ℕ) (e : Image)
    → IsWell d base tracks
    → kill_file d name base tracks ≡ ok e
    → Refines (kill_change name) d base tracks e
kill-Refines d name base tracks e well h =
    let f = kill-Found d name base tracks well h in
    let edit = kill-Edit d name base tracks well f h in
    let after_well = kill_file-IsWell d name base tracks well f h in
    let dead = kill_dead d name base tracks well f h in
    let head = (found-IsLive d base f.field f.off f.file.found).1 in
    (
      after_well,
      λ x. elim (Bool-cases (same_name x name)) [
        | inl is ↦ rw is (
            read_file-absent e base tracks x f.field (same_name-true x name f.field f.named is) (
              name_gone d e base tracks f.off f.field well after_well.view edit f.alive head
                (rw dead)))
        | inr other ↦ rw other (
            other_name d e base tracks x name f.field f.named other (λ field named ne.
              read_file-Edit d e base tracks f.off well edit x field named
                (hit-slot d field f.field f.off head ne) (rw dead)))
      ],
    )

-- A rename, as the edit of a found file.
moved-Refines :
    (d : Image) (old new new_field : List ℕ) (base tracks : ℕ)
    → IsWell d base tracks
    → All (λ c. c ≢ 0) new
    → (f : Found d old base tracks) → encode_name new ≡ ok new_field
    → find_entry d new_field base ≡ ok none
    → (length new_field ≡ 11)
    → rename_file d old new base ≡ ok (splice d f.off (length new_field) new_field)
    → Refines (rename_change old new) d base tracks (splice d f.off (length new_field) new_field)
moved-Refines d old new new_field base tracks well chars f named absent len h =
    let e = splice d f.off (length new_field) new_field in
    let edit = rename-Edit d base tracks f.off new_field well f.alive len in
    let after_well =
      moved-IsWell d base tracks f.off new_field well f.alive len absent
        (encode_name-AreBytes new named) in
    let before = (found-IsLive d base f.field f.off f.file.found).1 in
    let head = head_moved d base tracks f.off new_field well f.alive len in
    let ne_old : new_field ≢ f.field =
      λ is. cc (subst (λ y. find_entry d y base ≡ ok none) is absent, f.file.found) in
    (
      after_well,
      λ x. elim (Bool-cases (same_name x new)) [
        | inl is ↦ rw is (
            read_file-named e base tracks x new new_field named
              (same_name-true x new new_field named is)
            ∙ read_file-rename_file d base tracks f.off old new f.field f.grans f.t well.view
                f.named f.file chars h)
        | inr not_new ↦ elim (Bool-cases (same_name x old)) [
          | inl is ↦
              rw (not_new, is)
                (read_file-absent e base tracks x f.field (same_name-true x old f.field f.named is)
                  (name_gone d e base tracks f.off f.field well after_well.view edit f.alive before
                    (hit-slot e f.field new_field f.off head ne_old)))
          | inr other ↦
              rw (not_new, other)
                (other_name d e base tracks x old f.field f.named other (λ field is ne.
                  other_name d e base tracks x new new_field named not_new (λ field' is' ne'.
                    read_file-Edit d e base tracks f.off well edit x field is
                      (hit-slot d field f.field f.off before ne)
                      (hit-slot e field new_field f.off head
                        (λ same. ne' (same ∙ ok-injective (sym is ∙ is')))))))
        ]
      ],
    )

rename-Refines :
    (d : Image) (old new : List ℕ) (base tracks : ℕ) (e : Image)
    → IsWell d base tracks
    → IsValid (rename_change old new)
    → rename_file d old new base ≡ ok e
    → Refines (rename_change old new) d base tracks e
rename-Refines d old new base tracks e well chars h =
    let f = rename-Found d old new base tracks well h in
    let (new_field, named, absent, is) =
      rename_steps d old new base f.field f.off f.named f.file.found h in
    let len = length-encode_name new named in
    let form : e ≡ splice d f.off (length new_field) new_field =
      sym (ap (λ n. splice d f.off n new_field) len ∙ is) in
    subst (Refines (rename_change old new) d base tracks) (sym form)
      (moved-Refines d old new new_field base tracks well chars f named absent len (h ∙ ap ok form))

-- A change that succeeds keeps a drive well formed, and does to its contents what it does to a map:
-- a write inserts, a kill removes, a rename moves, and every other name reads as before.
pub perform_refines :
    (c : Change) (d : Image) (base tracks : ℕ) (e : Image)
    → IsWell d base tracks
    → IsValid c
    → perform c base tracks d ≡ ok e
    → IsWell e base tracks
      × ((x : List ℕ) → contents e base tracks x ≡ after c (contents d base tracks) x)
perform_refines (write_change name payload ftype ascii_flag rewrite) d base tracks e well valid h =
    write-Refines d name payload ftype ascii_flag rewrite base tracks e well valid h
perform_refines (kill_change name) d base tracks e well valid h =
    kill-Refines d name base tracks e well h
perform_refines (rename_change old new) d base tracks e well valid h =
    rename-Refines d old new base tracks e well valid h

-- A sequence of changes, up to the first that fails.
abbrev pub perform_all : List Change → ℕ → ℕ → Image → Result Image
perform_all [] base tracks d = ok d
perform_all (c ∷ cs) base tracks d = do e ← perform c base tracks d; perform_all cs base tracks e

abbrev pub after_all : List Change → Contents → Contents
after_all [] m = m
after_all (c ∷ cs) m = after_all cs (after c m)

after-same :
    (c : Change) (m n : Contents)
    → ((x : List ℕ) → m x ≡ n x)
    → (x : List ℕ) → after c m x ≡ after c n x
after-same (write_change name payload ftype ascii_flag rewrite) m n same x = rw (same x)
after-same (kill_change name) m n same x = rw (same x)
after-same (rename_change old new) m n same x = rw (same x, same old)

pub after_all-same :
    (cs : List Change) (m n : Contents)
    → ((x : List ℕ) → m x ≡ n x)
    → (x : List ℕ) → after_all cs m x ≡ after_all cs n x
after_all-same [] m n same = same
after_all-same (c ∷ cs) m n same = after_all-same cs (after c m) (after c n) (after-same c m n same)

-- A sequence of changes keeps a drive well formed, and its contents are those of the map after the
-- same changes.
pub perform_all_refines :
    (cs : List Change) (d : Image) (base tracks : ℕ) (e : Image)
    → IsWell d base tracks
    → All IsValid cs
    → perform_all cs base tracks d ≡ ok e
    → IsWell e base tracks
      × ((x : List ℕ) → contents e base tracks x ≡ after_all cs (contents d base tracks) x)
perform_all_refines [] d base tracks e well valid h =
    subst
      (λ y.
        IsWell y base tracks × ((x : List ℕ) → contents y base tracks x ≡ contents d base tracks x))
      (ok-injective h) (well, λ x. refl)
perform_all_refines (c ∷ cs) d base tracks e well valid h =
    let (mid, one, rest) = bind-eq-ok (perform c base tracks d) _ h in
    let (well', step) = perform_refines c d base tracks mid well valid.0 one in
    let (well'', steps) = perform_all_refines cs mid base tracks e well' valid.1 rest in
    (
      well'',
      λ x.
          steps x
          ∙ after_all-same cs (contents mid base tracks) (after c (contents d base tracks)) step x,
    )

-- A change keeps the size of the image.
pub perform_size :
    (c : Change) (d : Image) (base tracks : ℕ) (e : Image)
    → IsWell d base tracks
    → perform c base tracks d ≡ ok e
    → e.size ≡ d.size
perform_size (write_change name payload ftype ascii_flag rewrite) d base tracks e well h =
    let r = write_file-Run d name payload ftype ascii_flag rewrite base tracks h in
    (write-Edit d name payload ftype ascii_flag rewrite base tracks well r).entries.size
perform_size (kill_change name) d base tracks e well h =
    (kill-Edit d name base tracks well (kill-Found d name base tracks well h) h).entries.size
perform_size (rename_change old new) d base tracks e well h =
    let f = rename-Found d old new base tracks well h in
    let (new_field, named, absent, is) =
      rename_steps d old new base f.field f.off f.named f.file.found h in
    let len = length-encode_name new named in
    ap (λ x. x.size) (sym (ap (λ n. splice d f.off n new_field) len ∙ is))
    ∙ (rename-Edit d base tracks f.off new_field well f.alive len).entries.size
