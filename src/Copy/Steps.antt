-- ===== src/Copy/Steps.antt =====
-- Runs of copy with one source, step by step.
use xroar_dev.Base.{
  ℕ, zero, suc, ◌<◌, ◌≡◌, refl, sym, ap, ◌∙◌, inl, inr, Bool, true, false, not, ◌&&◌, Option, none,
  some, List, [], ◌∷◌, arith, Bool-cases, get_or, All, list_eq, list_eq→eq, list_eq_refl,
}
use xroar_dev.Error.{ok, Error, usage, die_if, target_exists, err}
use xroar_dev.Image.{Image, IsBytes}
use xroar_dev.Copy.{
  Opened, open_image, fetch_host, converted, fetch_converted, source_image, fetched_from,
  fetch_image, stored, copy_to_image, copy_to_host, copy_into, copy_out,
}
use xroar_dev.Text.{nonempty}
use xroar_dev.Host.{
  ◌>>◌, ◌>>=◌, Host, read_host, with_file, basename, image_of, write_host, path_exists,
  is_directory, bytes_of, Io, then_run, lift, complete, written,
}
use xroar_dev.Paths.{ImagePath, split_image_path}
use xroar_dev.Commands.Load.{Selected, load_view}
use xroar_dev.Copy.Convert.{Payload}
use xroar_dev.Copy.Flags.{no_options}
use xroar_dev.Names.{encode_name, entry_to_name}
use xroar_dev.DiskFile.{read_file, write_file}

-- The file at a path that was written.
pub with_file_same :
    (h : Host) (path bytes : List ℕ) → (with_file h path bytes).file path ≡ some bytes
with_file_same h path bytes = rw (list_eq_refl path)

pub with_file_other :
    (h : Host) (path other bytes old : List ℕ)
    → h.file path ≡ some old
    → h.file other ≡ none
    → (with_file h path bytes).file other ≡ none
with_file_other h path other bytes old there absent = elim (Bool-cases (list_eq other path)) [
  | inr no_match ↦ rw (no_match, absent)
  | inl match ↦
      let is : other ≡ path = list_eq→eq other path match in
      absurd (both (sym there ∙ ap h.file (sym is) ∙ absent))
]
  where
    both : some old ≡ none → ⊥
    both x = cc x

pub fetch_host_file :
    (h : Host) (dst : Option Opened) (src bytes : List ℕ)
    → split_image_path src ≡ ok none
    → h.file (h.abspath src) ≡ some bytes
    → fetch_converted no_options dst true src h
      ≡ (ok (record { bytes = bytes; ftype = none; ascii_flag = none }, basename src), h)
unfolding fetch_converted fetch_host read_host converted
fetch_host_file h dst src bytes plain there = rw (plain, there)

pub open_saved :
    (h : Host) (path : ImagePath) (bytes : List ℕ) (view : Selected)
    → h.file (h.abspath path.disk) ≡ some bytes
    → load_view (image_of bytes) path.drive ≡ ok view
    → open_image path h ≡ (ok (record { path = path; image = image_of bytes; view = view }), h)
unfolding open_image read_host
open_saved h path bytes view there loads = rw (there, loads)

pub run-bind :
    {A B : Type 0} (m : Io A) (next : A → Io B) (h h' : Host) (a : A)
    → m h ≡ (ok a, h')
    → (m >>= next) h ≡ next a h'
run-bind m next h h' a runs = ap (λ r. then_run r next) runs

pub die_if-and_false : (b : Bool) (e : Error) → die_if (b && false) e ≡ ok tt
die_if-and_false true e = refl
die_if-and_false false e = refl

pub write_host_runs :
    (h : Host) (path bytes : List ℕ)
    → h.write_at (h.abspath path) bytes ≡ complete
    → write_host path bytes h ≡ (ok tt, with_file h (h.abspath path) bytes)
unfolding write_host
write_host_runs h path bytes can = ap (written (h.abspath path) bytes h) can

pub copy_to_image_one :
    (h : Host) (src : List ℕ) (dst : Opened) (got : Payload × List ℕ) (e : Image)
    → fetch_converted no_options (some dst) true src h ≡ (ok got, h)
    → stored no_options dst got ≡ ok e
    → copy_to_image no_options dst (src ∷ []) h ≡ (ok e, h)
unfolding copy_to_image
copy_to_image_one h src dst got e fetched written =
    run-bind (fetch_converted no_options (some dst) true src) _ h h got fetched
    ∙ run-bind (lift (stored no_options dst got)) _ h h e (ap (λ r. (r, h)) written)

-- One source, given what it is fetched and stored as.
pub copy_into_one :
    (h : Host) (path : ImagePath) (src : List ℕ) (dst : Opened) (got : Payload × List ℕ) (e : Image)
    → open_image path h ≡ (ok dst, h)
    → fetch_converted no_options (some dst) true src h ≡ (ok got, h)
    → stored no_options dst got ≡ ok e
    → h.write_at (h.abspath path.disk) (bytes_of e) ≡ complete
    → copy_into no_options path (src ∷ []) h
      ≡ (ok tt, with_file h (h.abspath path.disk) (bytes_of e))
unfolding copy_into
copy_into_one h path src dst got e opens fetched written can =
    run-bind (lift (die_if (nonempty path.name && false) usage)) _ h h tt
      (ap (λ r. (r, h)) (die_if-and_false (nonempty path.name) usage))
    ∙ run-bind (open_image path) _ h h dst opens
    ∙ run-bind (copy_to_image no_options dst (src ∷ [])) _ h h e
        (copy_to_image_one h src dst got e fetched written)
    ∙ write_host_runs h path.disk (bytes_of e) can

pub run-fail :
    {A B : Type 0} (m : Io A) (next : A → Io B) (h h' : Host) (e : Error)
    → m h ≡ (err e, h')
    → (m >>= next) h ≡ (err e, h')
run-fail m next h h' e fails = ap (λ r. then_run r next) fails

-- A source that cannot be fetched ends the copy.
pub copy_into_fails :
    (h : Host) (path : ImagePath) (src : List ℕ) (dst : Opened) (e : Error)
    → open_image path h ≡ (ok dst, h)
    → fetch_converted no_options (some dst) true src h ≡ (err e, h)
    → copy_into no_options path (src ∷ []) h ≡ (err e, h)
unfolding copy_into copy_to_image
copy_into_fails h path src dst e opens fails =
    run-bind (lift (die_if (nonempty path.name && false) usage)) _ h h tt
      (ap (λ r. (r, h)) (die_if-and_false (nonempty path.name) usage))
    ∙ run-bind (open_image path)
        (λ d. copy_to_image no_options d (src ∷ []) >>= λ w. write_host path.disk (bytes_of w)) h h
        dst opens
    ∙ run-fail (copy_to_image no_options dst (src ∷ [])) (λ w. write_host path.disk (bytes_of w)) h
        h e (run-fail (fetch_converted no_options (some dst) true src) _ h h e fails)

-- A file of an image, as it is stored there.
pub fetch_image_file :
    (h : Host) (path : ImagePath) (arg bytes field : List ℕ) (ftype ascii_flag : ℕ) (src : Opened)
    → split_image_path arg ≡ ok (some path)
    → nonempty path.name ≡ true
    → open_image path h ≡ (ok src, h)
    → read_file src.image path.name src.view.base src.view.tracks ≡ ok (bytes, ftype, ascii_flag)
    → encode_name path.name ≡ ok field
    → fetch_converted no_options none false arg h ≡ (
      ok (
        record { bytes = bytes; ftype = some ftype; ascii_flag = some ascii_flag },
        entry_to_name field,
      ),
      h,
    )
unfolding fetch_converted fetch_image source_image fetched_from converted
fetch_image_file h path arg bytes field ftype ascii_flag src splits some_name opens read named =
    rw (splits, some_name, opens, read, named)

pub no_such_path :
    (h : Host) (path : List ℕ)
    → h.is_dir (h.abspath path) ≡ false
    → h.file (h.abspath path) ≡ none
    → path_exists path h ≡ (ok false, h)
unfolding path_exists
no_such_path h path no_dir absent = rw (absent, path_exists, no_dir)

pub copy_out_one :
    (h : Host) (out src : List ℕ) (p : Payload) (base_name : List ℕ)
    → fetch_converted no_options none false src h ≡ (ok (p, base_name), h)
    → h.is_dir (h.abspath out) ≡ false
    → h.file (h.abspath out) ≡ none
    → h.write_at (h.abspath out) p.bytes ≡ complete
    → copy_out no_options out (src ∷ []) h ≡ (ok tt, with_file h (h.abspath out) p.bytes)
unfolding copy_out copy_to_host is_directory
copy_out_one h out src p base_name fetched no_dir absent can =
    run-bind (is_directory out)
      (λ b. lift (die_if (not b && false) usage) >> copy_to_host no_options out b (src ∷ [])) h h
      false (ap (λ b. (ok b, h)) no_dir)
    ∙ run-bind (fetch_converted no_options none false src)
        (λ got. path_exists out >>= λ exists.
          lift (die_if (exists && true) target_exists)
          >> (write_host out got.0.bytes >> lift (ok tt)))
        h h (p, base_name) fetched
    ∙ run-bind (path_exists out)
        (λ exists.
          lift (die_if (exists && true) target_exists) >> (write_host out p.bytes >> lift (ok tt)))
        h h false (no_such_path h out no_dir absent)
    ∙ run-bind (write_host out p.bytes) (λ _. lift (ok tt)) h (with_file h (h.abspath out) p.bytes)
        tt (write_host_runs h out p.bytes can)

pub stored_named :
    (dst : Opened) (base_name bytes : List ℕ) (e : Image)
    → nonempty dst.path.name ≡ true
    → write_file dst.image dst.path.name bytes 2 0x00 false dst.view.base dst.view.tracks ≡ ok e
    → stored no_options dst (record { bytes = bytes; ftype = none; ascii_flag = none }, base_name)
      ≡ ok e
unfolding stored
stored_named dst base_name bytes e some_name written = rw some_name written

pub image_of-IsBytes : (bytes : List ℕ) → All (λ b. b < 256) bytes → IsBytes (image_of bytes)
unfolding image_of
image_of-IsBytes bytes small = record { at = λ i. go bytes i small }
  where
    go : (bs : List ℕ) (i : ℕ) → All (λ b. b < 256) bs → get_or bs i 0 < 256
    go [] i h = omega arith
    go (b ∷ bs) zero h = h.0
    go (b ∷ bs) (suc i) h = go bs i h.1
