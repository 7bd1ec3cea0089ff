-- ===== src/Host.antt =====
-- The host files that tools/decb.py reads and writes, and `os.path` as it uses it. A path is its code
-- points; a file is found by its absolute path.
pub mod Reload
use xroar_dev.Base.{
  ℕ, Bool, true, Option, none, some, List, [], ◌∷◌, ◌++◌, ◌==◌, if◌then◌else◌, length, get_or, take,
  list_eq,
}
use xroar_dev.Error.{Result, os_error, write_failed, cannot_open, err, ok}
use xroar_dev.Image.{Image, slice}
use xroar_dev.Names.{rpartition}

-- What `open(path, "wb").write(bytes)` comes to: the file is not opened, or it is opened, which empties
-- it, and holds the first `n` bytes when the write breaks off, or all of them.
pub data Written : Type 0 where
  refused : Written
  cut : ℕ → Written
  complete : Written

-- `abspath` depends on the working directory. `make_dirs` tells which paths are directories once
-- `os.makedirs` has made one, unless it fails. `stdout` holds the bytes that were written to it.
pub record Host : Type 0 where
  pub abspath : List ℕ → List ℕ
  pub file : List ℕ → Option (List ℕ)
  pub is_dir : List ℕ → Bool
  pub write_at : List ℕ → List ℕ → Written
  pub make_dirs : List ℕ → Option (List ℕ → Bool)
  pub stdout : List ℕ

-- A command ends with a value or an error, and leaves a host.
abbrev pub Io : Type 0 → Type 0
Io A = Host → Result A × Host

abbrev pub then_run : {A B : Type 0} → Result A × Host → (A → Io B) → Result B × Host
then_run (err e, h) next = (err e, h)
then_run (ok a, h) next = next a h

abbrev pub lift : {A : Type 0} → Result A → Io A
lift r h = (r, h)

infixl 5 ◌>>=◌ ◌>>◌
abbrev pub ◌>>=◌ : {A B : Type 0} → Io A → (A → Io B) → Io B
◌>>=◌ m next h = then_run (m h) next

abbrev pub ◌>>◌ : {B : Type 0} → Io (Unit {0}) → Io B → Io B
m >> next = m >>= λ _. next

abbrev pub open_result : Option (List ℕ) → Result (List ℕ)
open_result none = err cannot_open
open_result (some bytes) = ok bytes

-- `open(path, "rb").read()`, an OSError being `die`d on or not caught.
unfoldable pub read_host : List ℕ → Io (List ℕ)
read_host path h = (open_result (h.file (h.abspath path)), h)

abbrev pub with_file : Host → List ℕ → List ℕ → Host
with_file h path bytes = record h { file = λ p. if list_eq p path then some bytes else h.file p }

abbrev pub written : List ℕ → List ℕ → Host → Written → Result (Unit {0}) × Host
written path bytes h refused = (err os_error, h)
written path bytes h (cut n) = (err write_failed, with_file h path (take n bytes))
written path bytes h complete = (ok tt, with_file h path bytes)

-- `open(path, "wb").write(bytes)`
unfoldable pub write_host : List ℕ → List ℕ → Io (Unit {0})
write_host path bytes h = written (h.abspath path) bytes h (h.write_at (h.abspath path) bytes)

-- `os.path.exists`
unfoldable pub path_exists : List ℕ → Io Bool
path_exists path h = elim (h.file (h.abspath path)) [
  | some _ ↦ (ok true, h)
  | none ↦ (ok (h.is_dir (h.abspath path)), h)
]

unfoldable pub is_directory : List ℕ → Io Bool
is_directory path h = (ok (h.is_dir (h.abspath path)), h)

-- `os.makedirs(path, exist_ok=True)`
unfoldable pub make_directory : List ℕ → Io (Unit {0})
make_directory path h = elim (h.make_dirs (h.abspath path)) [
  | none ↦ (err os_error, h)
  | some dirs ↦ (ok tt, record h { is_dir = dirs })
]

-- `sys.stdout.buffer.write(bytes)`
unfoldable pub print_bytes : List ℕ → Io (Unit {0})
print_bytes bytes h = (ok tt, record h { stdout = h.stdout ++ bytes })

-- `os.path.basename`
unfoldable pub basename : List ℕ → List ℕ
unfolding rpartition
basename path = elim (rpartition b'/' path) [ none ↦ path | some (dir, name) ↦ name ]

abbrev pub last_or : List ℕ → ℕ → ℕ
last_or [] d = d
last_or (c ∷ cs) d = last_or cs c

-- `os.path.join` of two paths
unfoldable pub path_join : List ℕ → List ℕ → List ℕ
path_join dir name =
    if get_or name 0 0 == b'/'
    then name
    else if last_or dir b'/' == b'/'
    then dir ++ name
    else dir ++ b'/' ∷ name

-- The image that a file holds, and the file that an image is saved to.
unfoldable pub image_of : List ℕ → Image
image_of bytes = record { size = length bytes; byte = λ k. get_or bytes k 0 }

unfoldable pub bytes_of : Image → List ℕ
unfolding slice
bytes_of d = slice d 0 d.size
