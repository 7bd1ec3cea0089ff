-- ===== src/Handlers/Safe.antt =====
-- What `cmd_rename` and each round of `cmd_kill` and `cmd_wipe` leave when they fail.
use xroar_dev.Base.{ℕ, ◌≡◌, refl, ◌≢◌, ◌⊎◌, not, List, [], ◌==◌, length, get_or}
use xroar_dev.Error.{Result, Error, usage, err, ok, die_if, write_failed, negative_base}
use xroar_dev.Host.{Host, Io, lift, bytes_of, with_file}
use xroar_dev.Image.{Image}
use xroar_dev.Handlers.{file_arg, disk_arg, save_image}
use xroar_dev.Handlers.Alter.{edit_file, rename_to, new_name, without_options, cmd_rename, wipe_arg}
use xroar_dev.Commands.Wipe.{wipe}
use xroar_dev.Copy.{Opened, open_image}
use xroar_dev.Paths.{ImagePath, split_image_path, normalize_disk_arg}
use xroar_dev.Copy.Atomic.{
  Keeps, Keeps-bind, Keeps-open_image, Spares, Spares-bind, Spares-write_host,
}

Keeps-file_arg : (raw : List ℕ) → Keeps (file_arg raw)
unfolding file_arg
Keeps-file_arg raw = Keeps-bind (lift (split_image_path raw)) _ (λ h. refl) (λ s h. refl)

Keeps-disk_arg : (raw : List ℕ) → Keeps (disk_arg raw)
unfolding disk_arg
Keeps-disk_arg raw =
    Keeps-bind (lift (normalize_disk_arg raw)) _ (λ h. refl)
      (λ p. Keeps-bind (lift (split_image_path p)) _ (λ h. refl) (λ s h. refl))

-- The file that a path of a command stands for.
abbrev pub Target : Io ImagePath → Host → List ℕ → Type 0
Target arg h p = (path : ImagePath) × (arg h ≡ (ok path, h)) × (p ≡ h.abspath path.disk)

-- An edit of a file that fails, whatever the edit is, leaves the host as it was, but for a write of
-- the image that broke off.
pub edit_file_atomic :
    (change : Opened → List ℕ → Result Image) (raw : List ℕ) (h : Host)
    → Spares (Target (file_arg raw) h) h (edit_file change raw h)
unfolding save_image
edit_file_atomic change raw h =
    let P = Target (file_arg raw) h in
    Spares-bind P h (file_arg raw) _ (Keeps-file_arg raw) (λ path arg.
      Spares-bind P h (open_image path) _ (Keeps-open_image path) (λ o _.
        Spares-bind P h (lift (change o path.name)) _ (λ s. refl)
          (λ d _. Spares-write_host path.disk (bytes_of d) P h (path, arg, refl))))

-- A rename that fails, by its arguments, its names or the host, leaves every host file as it was. Only
-- when the write of the image itself breaks off, the image file that the first path names holds
-- something else, and every other file is as it was. Bases before the image, on which the model stops
-- with an error of its own, are excluded.
pub cmd_rename_atomic :
    (args : List (List ℕ)) (h h' : Host) (e : Error)
    → e ≢ negative_base
    → cmd_rename args h ≡ (err e, h')
    → (h' ≡ h)
      ⊎ ((e ≡ write_failed)
          × (p : List ℕ) × Target (file_arg (get_or (without_options args) 0 [])) h p
          × (b : List ℕ) × (h' ≡ with_file h p b))
unfolding cmd_rename
cmd_rename_atomic args h h' e located fails =
    let paths = without_options args in
    let P = Target (file_arg (get_or paths 0 [])) h in
    Spares-bind P h (lift (die_if (not (length paths == 2)) usage)) _ (λ s. refl)
      (λ _ _. edit_file_atomic (rename_to (new_name (get_or paths 1 []))) (get_or paths 0 []) h) e
      h' fails

-- A round of wipe that fails leaves the host as it was, but for a write of the image that broke off.
pub wipe_arg_atomic :
    (raw : List ℕ) (h : Host) → Spares (Target (disk_arg raw) h) h (wipe_arg raw h)
unfolding wipe_arg save_image
wipe_arg_atomic raw h =
    let P = Target (disk_arg raw) h in
    Spares-bind P h (disk_arg raw) _ (Keeps-disk_arg raw) (λ path arg.
      Spares-bind P h (open_image path) _ (Keeps-open_image path) (λ o _.
        Spares-bind P h (lift (wipe o.image o.view.base o.view.tracks)) _ (λ s. refl)
          (λ d _. Spares-write_host path.disk (bytes_of d) P h (path, arg, refl))))
