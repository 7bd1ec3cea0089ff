-- ===== src/Error.antt =====
-- How tools/decb.py ends early: each call of `die` and each uncaught exception is a value of `Error`,
-- and code that may stop returns a `Result`. `die` leaves the process, so nothing after it is written.
use xroar_dev.Base.{ℕ, ◌≡◌, refl, ◌⊎◌, inl, inr, Bool, if◌then◌else◌}

pub data Error : Type 0 where
  -- IndexError and ValueError of a bytearray, UnicodeEncodeError of `encode("latin1")`.
  index_error value_error encode_error : Error
  -- A bound of the model that is never met (shown where it is used).
  out_of_fuel : Error
  -- calls of `die`
  name_too_long corrupt_chain file_not_found file_exists directory_full : Error
  disk_full : ℕ → ℕ → Error
  no_deleted_file many_deleted_files not_recoverable : Error
  truncated_header header_too_long : Error
  no_postamble truncated_postamble truncated_preamble segment_past_end : Error
  bad_preamble : ℕ → Error
  bad_location off_disk : Error
  -- KeyError and AmbiguousSymbol of tools/symread.py
  undefined_symbol ambiguous_symbol : Error
  unknown_option : ℕ → Error
  usage not_a_host_path target_exists : Error
  -- a host file that cannot be written
  os_error : Error
  write_failed : Error
  -- where the model stops: a drive that begins before its image, a negative number in a symbol file
  negative_base : Error
  bad_drive_suffix not_image_path cannot_open unsupported_header drive_past_end : Error
  not_whole_tracks overflows_disk overlaps_directory : Error
  already_allocated : ℕ → Error
  too_many_entries : Error

-- What a call leaves: its value, or the way the program ended in it.
pub data Result {ℓ} (A : Type ℓ) : Type ℓ where
  err : Error → Result A
  ok : A → Result A

pub ok-injective {ℓ} : {A : Type ℓ} {a b : A} → ok a ≡ ok b → a ≡ b
ok-injective h = cc

pub Result-cases {ℓ} :
    {A : Type ℓ} (r : Result A) → ((a : A) × (r ≡ ok a)) ⊎ ((e : Error) × (r ≡ err e))
Result-cases (ok a) = inl (a, refl)
Result-cases (err e) = inr (e, refl)

module _ {ℓ κ} {A : Type ℓ} {B : Type κ} where
  infixl 5 ◌>>=◌
  -- The next statement runs on the value only.
  abbrev pub ◌>>=◌ : Result A → (A → Result B) → Result B
  err why >>= next = err why
  ok value >>= next = next value

  pub bind-eq-ok :
      (step : Result A) (next : A → Result B) {result : B}
      → (step >>= next) ≡ ok result
      → (value : A) × (step ≡ ok value) × (next value ≡ ok result)
  bind-eq-ok (err why) next h = cc
  bind-eq-ok (ok value) next h = (value, refl, h)

-- `if b: die(e)`
abbrev pub die_if : Bool → Error → Result (Unit {0})
die_if b why = if b then err why else ok tt

-- A statement that is run for its effect, and the one after it.
infixl 5 ◌>>◌
abbrev pub ◌>>◌ {ℓ} : {A : Type ℓ} → Result (Unit {0}) → Result A → Result A
check >> next = check >>= λ _. next
