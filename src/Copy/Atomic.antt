-- ===== src/Copy/Atomic.antt =====
-- What a copy that fails leaves behind.
use xroar_dev.Base.{
  ℕ, ◌≡◌, refl, sym, ap, ◌∙◌, ◌≢◌, ◌⊎◌, inl, inr, Bool, true, not, ◌&&◌, Option, none, some, List,
  [], ◌∷◌, ltb, Bool-cases, length, take, list_eq,
}
use xroar_dev.Error.{
  Result, Error, usage, not_a_host_path, err, ok, die_if, write_failed, negative_base,
}
use xroar_dev.Host.{
  Io, ◌>>=◌, Host, then_run, lift, read_host, write_host, image_of, bytes_of, Written, refused, cut,
  complete, with_file, written,
}
use xroar_dev.Names.{encode_name}
use xroar_dev.Copy.{
  Opened, drive_eq, open_image, source_image, fetched_from, fetch_image, fetch_host, fetch_at,
  fetch_converted, copy_to_image, copy_into, stored,
}
use xroar_dev.Text.{nonempty}
use xroar_dev.Paths.{ImagePath, split_image_path}
use xroar_dev.Commands.Load.{load_view}
use xroar_dev.Copy.Flags.{Options}

-- A command that leaves the host as it is, whether it fails or not.
abbrev pub Keeps : {A : Type 0} → Io A → Type 0
Keeps m = (h : Host) → (m h).1 ≡ h

Keeps-then_run :
    {A B : Type 0} (r : Result A × Host) (next : A → Io B) (h : Host)
    → r.1 ≡ h
    → ((a : A) → Keeps (next a))
    → (then_run r next).1 ≡ h
Keeps-then_run (err e, h') next h same keeps = same
Keeps-then_run (ok a, h') next h same keeps = keeps a h' ∙ same

pub Keeps-bind :
    {A B : Type 0} (m : Io A) (next : A → Io B)
    → Keeps m
    → ((a : A) → Keeps (next a))
    → Keeps (m >>= next)
Keeps-bind m next km kn h = Keeps-then_run (m h) next h (km h) kn

Keeps-read_host : (path : List ℕ) → Keeps (read_host path)
unfolding read_host
Keeps-read_host path h = refl

pub Keeps-open_image : (path : ImagePath) → Keeps (open_image path)
unfolding open_image
Keeps-open_image path = Keeps-bind (read_host path.disk) _ (Keeps-read_host path.disk) (λ bytes.
    Keeps-bind (lift (load_view (image_of bytes) path.drive)) _ (λ s. refl) (λ view s. refl))

Keeps-source_image : (dst : Option Opened) (path : ImagePath) → Keeps (source_image dst path)
unfolding source_image
Keeps-source_image none path h = Keeps-open_image path h
Keeps-source_image (some dst) path h =
    elim (Bool-cases (
      list_eq (h.abspath path.disk) (h.abspath dst.path.disk)
      && drive_eq path.drive dst.path.drive)) [
        | inl same ↦ rw same
        | inr other ↦ rw other (Keeps-open_image path h)
      ]

Keeps-fetch_image :
    (o : Options) (dst : Option Opened) (path : ImagePath) → Keeps (fetch_image o dst path)
unfolding fetch_image
Keeps-fetch_image o dst path =
    Keeps-bind (lift (die_if (not (nonempty path.name)) usage)) _ (λ s. refl)
      (λ _. Keeps-bind (source_image dst path) _ (Keeps-source_image dst path) (λ src.
        Keeps-bind (lift (fetched_from src.image src.view path.name o.from_deleted)) _ (λ s. refl)
          (λ got. Keeps-bind (lift (encode_name path.name)) _ (λ s. refl) (λ field s. refl))))

Keeps-fetch_at :
    (o : Options) (dst : Option Opened) (src : List ℕ) (path : Option ImagePath)
    → Keeps (fetch_at o dst src path)
unfolding fetch_host
Keeps-fetch_at o dst src none =
    Keeps-bind (lift (die_if o.from_deleted not_a_host_path)) _ (λ s. refl)
      (λ _. Keeps-bind (read_host src) _ (Keeps-read_host src) (λ bytes s. refl))
Keeps-fetch_at o dst src (some path) = Keeps-fetch_image o dst path

Keeps-fetch_converted :
    (o : Options) (dst : Option Opened) (to_image : Bool) (src : List ℕ)
    → Keeps (fetch_converted o dst to_image src)
unfolding fetch_converted
Keeps-fetch_converted o dst to_image src =
    Keeps-bind (lift (split_image_path src)) _ (λ s. refl)
      (λ path. Keeps-bind (fetch_at o dst src path) _ (Keeps-fetch_at o dst src path) (λ f s. refl))

Keeps-copy_to_image :
    (o : Options) (dst : Opened) (sources : List (List ℕ)) → Keeps (copy_to_image o dst sources)
unfolding copy_to_image
Keeps-copy_to_image o dst [] s = refl
Keeps-copy_to_image o dst (src ∷ sources) s =
    Keeps-bind (fetch_converted o (some dst) true src)
      (λ got. lift (stored o dst got) >>= λ written.
        copy_to_image o (record dst { image = written }) sources)
      (Keeps-fetch_converted o (some dst) true src)
      (λ got.
        Keeps-bind (lift (stored o dst got))
          (λ written. copy_to_image o (record dst { image = written }) sources) (λ h. refl)
          (λ written. Keeps-copy_to_image o (record dst { image = written }) sources))
      s

-- A result that, when it is an error, leaves the host as it is, or the write of one file, of which
-- `P` holds, has broken off.
abbrev pub Spares : {A : Type 0} → (List ℕ → Type 0) → Host → Result A × Host → Type 0
Spares P h r =
    (e : Error) (h' : Host)
    → r ≡ (err e, h')
    → (h' ≡ h) ⊎ ((e ≡ write_failed) × (p : List ℕ) × P p × (b : List ℕ) × (h' ≡ with_file h p b))

Spares-then_run :
    {A B : Type 0} (P : List ℕ → Type 0) (h : Host) (r : Result A × Host) (next : A → Io B)
    → r.1 ≡ h
    → ((a : A) → r ≡ (ok a, h) → Spares P h (next a h))
    → Spares P h (then_run r next)
Spares-then_run P h (err why, h1) next same spares e h' fails =
    inl (sym (ap (λ p. p.1) fails) ∙ same)
Spares-then_run P h (ok a, h1) next same spares e h' fails =
    spares a (ap (λ x. (ok a, x)) same) e h' (ap (next a) (sym same) ∙ fails)

pub Spares-bind :
    {A B : Type 0} (P : List ℕ → Type 0) (h : Host) (m : Io A) (next : A → Io B)
    → Keeps m
    → ((a : A) → m h ≡ (ok a, h) → Spares P h (next a h))
    → Spares P h ((m >>= next) h)
Spares-bind P h m next keeps spares = Spares-then_run P h (m h) next (keeps h) spares

pub Spares-write_host :
    (path bytes : List ℕ) (P : List ℕ → Type 0) (h : Host)
    → P (h.abspath path)
    → Spares P h (write_host path bytes h)
unfolding write_host
Spares-write_host path bytes P h target e h' fails = cases (h.write_at (h.abspath path) bytes) fails
  where
    cases :
        (w : Written)
        → written (h.abspath path) bytes h w ≡ (err e, h')
        → (h' ≡ h)
          ⊎ ((e ≡ write_failed) × (p : List ℕ) × P p × (b : List ℕ) × (h' ≡ with_file h p b))
    cases refused k = inl (sym (ap (λ p. p.1) k))
    cases (cut n) k = inr (
      let j = ap (λ p. p.0) k in cc j,
      h.abspath path,
      target,
      take n bytes,
      sym (ap (λ p. p.1) k),
    )
    cases complete k = absurd (let j = ap (λ p. p.0) k in cc j)

-- A copy into a disk image that fails, in whatever source or step, leaves every host file as it was:
-- nothing of the sources before it is saved. Only when the write of the image itself breaks off, the
-- image file holds something else, and every other file is as it was. Bases before the image, on which
-- the model stops with an error of its own, are excluded.
pub copy_into_atomic :
    (o : Options) (path : ImagePath) (sources : List (List ℕ)) (h h' : Host) (e : Error)
    → e ≢ negative_base
    → copy_into o path sources h ≡ (err e, h')
    → (h' ≡ h)
      ⊎ ((e ≡ write_failed)
          × (p : List ℕ) × (p ≡ h.abspath path.disk)
          × (b : List ℕ) × (h' ≡ with_file h p b))
unfolding copy_into
copy_into_atomic o path sources h h' e located fails =
    let P : List ℕ → Type 0 = λ p. p ≡ h.abspath path.disk in
    Spares-bind P h (lift (die_if (nonempty path.name && ltb 1 (length sources)) usage)) _
      (λ s. refl)
      (λ _ _. Spares-bind P h (open_image path) _ (Keeps-open_image path) (λ dst _.
        Spares-bind P h (copy_to_image o dst sources) _ (Keeps-copy_to_image o dst sources)
          (λ written _. Spares-write_host path.disk (bytes_of written) P h refl)))
      e h' fails
