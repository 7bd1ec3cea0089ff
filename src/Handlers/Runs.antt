-- ===== src/Handlers/Runs.antt =====
-- When `cmd_kill` and `cmd_rename` succeed, and what they save.
use xroar_dev.Base.{ℕ, ◌≡◌, sym, ap, ◌∙◌, false, not, some, List, [], ◌∷◌, ◌==◌, length, get_or}
use xroar_dev.Error.{Result, ok, usage, die_if}
use xroar_dev.Host.{Host, then_run, lift, with_file, image_of, bytes_of, ◌>>◌, complete}
use xroar_dev.Image.{Image}
use xroar_dev.Handlers.{file_arg, save_image}
use xroar_dev.Handlers.Alter.{edit_file, kill_in, cmd_kill, cmd_rename, rename_to, new_name}
use xroar_dev.Copy.{Opened, open_image}
use xroar_dev.Paths.{ImagePath}
use xroar_dev.Commands.Load.{Selected, load_view}
use xroar_dev.Commands.Edit.{kill_file, rename_file}
use xroar_dev.Copy.Steps.{open_saved, run-bind, write_host_runs}
use xroar_dev.Handlers.Refines.{without_options_two}
use xroar_dev.Copy.Flags.{is_option}
use mathlib.Core.Path.{subst}

edit_file_runs :
    (change : Opened → List ℕ → Result Image) (raw : List ℕ) (path : ImagePath) (h : Host)
    (view : Selected) (bytes : List ℕ) (e : Image)
    → file_arg raw h ≡ (ok path, h)
    → h.file (h.abspath path.disk) ≡ some bytes
    → load_view (image_of bytes) path.drive ≡ ok view
    → change (record { path = path; image = image_of bytes; view = view }) path.name ≡ ok e
    → h.write_at (h.abspath path.disk) (bytes_of e) ≡ complete
    → edit_file change raw h ≡ (ok tt, with_file h (h.abspath path.disk) (bytes_of e))
unfolding save_image
edit_file_runs change raw path h view bytes e arg there loads done can =
    let o : Opened = record { path = path; image = image_of bytes; view = view } in
    run-bind (file_arg raw) _ h h path arg
    ∙ run-bind (open_image path) _ h h o (open_saved h path bytes view there loads)
    ∙ run-bind (lift (change o path.name)) _ h h e (ap (λ r. (r, h)) done)
    ∙ write_host_runs h path.disk (bytes_of e) can

-- A kill of a file that the image holds, in a file that can be written, saves the killed image.
pub cmd_kill_runs :
    (raw : List ℕ) (path : ImagePath) (h : Host) (view : Selected) (bytes : List ℕ) (e : Image)
    → file_arg raw h ≡ (ok path, h)
    → h.file (h.abspath path.disk) ≡ some bytes
    → load_view (image_of bytes) path.drive ≡ ok view
    → kill_file (image_of bytes) path.name view.base view.tracks ≡ ok e
    → h.write_at (h.abspath path.disk) (bytes_of e) ≡ complete
    → cmd_kill (raw ∷ []) h ≡ (ok tt, with_file h (h.abspath path.disk) (bytes_of e))
unfolding cmd_kill
cmd_kill_runs raw path h view bytes e arg there loads done can =
    ap (λ r. then_run r (λ _. lift (ok tt)))
      (edit_file_runs kill_in raw path h view bytes e arg there loads done can)

-- So does a rename of such a file.
pub cmd_rename_runs :
    (raw new : List ℕ) (path : ImagePath) (h : Host) (view : Selected) (bytes : List ℕ) (e : Image)
    → is_option raw ≡ false
    → is_option new ≡ false
    → file_arg raw h ≡ (ok path, h)
    → h.file (h.abspath path.disk) ≡ some bytes
    → load_view (image_of bytes) path.drive ≡ ok view
    → rename_file (image_of bytes) path.name (new_name new) view.base ≡ ok e
    → h.write_at (h.abspath path.disk) (bytes_of e) ≡ complete
    → cmd_rename (raw ∷ new ∷ []) h ≡ (ok tt, with_file h (h.abspath path.disk) (bytes_of e))
unfolding cmd_rename
cmd_rename_runs raw new path h view bytes e plain plain' arg there loads done can =
    subst
      (λ p.
        (lift (die_if (not (length p == 2)) usage)
            >> edit_file (rename_to (new_name (get_or p 1 []))) (get_or p 0 []))
          h
        ≡ (ok tt, with_file h (h.abspath path.disk) (bytes_of e)))
      (sym (without_options_two raw new plain plain'))
      (edit_file_runs (rename_to (new_name new)) raw path h view bytes e arg there loads done can)
