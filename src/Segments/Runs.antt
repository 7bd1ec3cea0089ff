-- ===== src/Segments/Runs.antt =====
-- The runs that `copy -c` emits hold exactly the occupied addresses.
use xroar_dev.Base.{
  ℕ, zero, suc, ◌+◌, ◌-◌, ◌%◌, ◌≤◌, ◌<◌, ◌≡◌, refl, ap, ◌∙◌, ◌≢◌, ◌⊎◌, inl, inr, true, false, ◌&&◌,
  Option, none, some, List, [], ◌∷◌, arith, ltb, leb, ◌==◌, if◌then◌else◌, ==_iff, Bool-cases,
  Option-cases, length, All,
}
use xroar_dev.Segments.{
  Ram, load_bytes, run_bytes, load_segments, runs, Segment, parse_decb_segments, empty_ram,
  emit_segments, binconcat,
}
use xroar_dev.Segments.Parse.{FitsHeader, parse-emit}
use xroar_dev.Error.{ok}

-- What `ram` holds, over what `base` holds.
abbrev pub over : Ram → Ram → Ram
over ram base k = elim (ram k) [ none ↦ base k | some b ↦ some b ]

-- The bytes of a run, put back at their addresses, are those of the image.
load-run :
    (ram base : Ram) (n i k : ℕ)
    → i + n ≤ 0x10000
    → load_bytes base i (run_bytes ram n i) k
      ≡ (if leb i k && ltb k (i + length (run_bytes ram n i)) then over ram base k else base k)
unfolding run_bytes load_bytes
load-run ram base zero i k h = ground arith
load-run ram base (suc n) i k h = elim (Option-cases (ram i)) [
  | inl e ↦ rw (e, run_bytes) (ground arith)
  | inr (b, e) ↦
      let base' : Ram = λ x. if x == i % 0x10000 then some b else base x in
      let m : i % 0x10000 ≡ i = omega arith in
      let ih = load-run ram base' n (i + 1) k (omega arith) in
      elim (Bool-cases (k == i)) [
        | inl is ↦
            let q : ram k ≡ some b = ap ram ((==_iff k i).0 is) ∙ e in
            rw (e, run_bytes) (ih ∙ ground arith)
        | inr other ↦ rw (e, run_bytes) (ih ∙ ground arith)
      ]
]

length-run_bytes : (ram : Ram) (n i : ℕ) → length (run_bytes ram n i) ≤ n
unfolding run_bytes
length-run_bytes ram zero i = omega arith
length-run_bytes ram (suc n) i = ground (arith, length-run_bytes ram n (i + 1))

-- A run stops at a hole.
run_stops :
    (ram : Ram) (n i hole : ℕ) → i ≤ hole → ram hole ≡ none → length (run_bytes ram n i) ≤ hole - i
unfolding run_bytes
run_stops ram zero i hole le e = omega arith
run_stops ram (suc n) i hole le e = elim (Option-cases (ram i)) [
  | inl e2 ↦ rw (e2, run_bytes) (omega arith)
  | inr (b, e2) ↦
      let ne : i ≢ hole = λ is. cc (ap ram is, e, e2) in
      rw (e2, run_bytes) (omega (arith, run_stops ram n (i + 1) hole (omega arith) e))
]

load_segments-cons :
    (base : Ram) (addr : ℕ) (bytes : List ℕ) (segs : List Segment)
    → load_segments base ((addr, bytes) ∷ segs) ≡ load_segments (load_bytes base addr bytes) segs
unfolding load_segments
load_segments-cons base addr bytes segs = refl

-- One round of `runs`.
runs_past : (fuel : ℕ) (ram : Ram) (i : ℕ) → 0x10000 ≤ i → runs (suc fuel) ram i ≡ []
unfolding runs
runs_past fuel ram i h = ground arith

runs_gap :
    (fuel : ℕ) (ram : Ram) (i : ℕ)
    → i < 0x10000
    → ram i ≡ none
    → runs (suc fuel) ram i ≡ runs fuel ram (i + 1)
unfolding runs
runs_gap fuel ram i h e = ground arith

runs_hit :
    (fuel : ℕ) (ram : Ram) (i b : ℕ)
    → i < 0x10000
    → ram i ≡ some b
    → runs (suc fuel) ram i
      ≡ (i, run_bytes ram (0x10000 - i) i)
        ∷ runs fuel ram (i + length (run_bytes ram (0x10000 - i) i))
unfolding runs
runs_hit fuel ram i b h e = ground arith

run_bytes_pos : (ram : Ram) (n i b : ℕ) → 0 < n → ram i ≡ some b → 0 < length (run_bytes ram n i)
unfolding run_bytes
run_bytes_pos ram zero i b pos e = absurd (omega arith)
run_bytes_pos ram (suc n) i b pos e = ground arith

-- From address `i` on, the runs say what the image holds; below, nothing.
load-runs :
    (fuel : ℕ) (ram base : Ram) (i k : ℕ)
    → 0x10000 < fuel + i
    → load_segments base (runs fuel ram i) k
      ≡ (if leb i k && ltb k 0x10000 then over ram base k else base k)
load-runs zero ram base i k h = unfold runs load_segments in ground arith
load-runs (suc fuel) ram base i k h = elim (Bool-cases (ltb i 0x10000)) [
  | inr past ↦ rw (runs_past fuel ram i (ground arith)) (unfold load_segments in ground arith)
  | inl inside ↦ elim (Option-cases (ram i)) [
    | inl e ↦
        let ih = load-runs fuel ram base (i + 1) k (omega arith) in
        rw (runs_gap fuel ram i (ground arith) e) (ih ∙ gap e (Bool-cases (k == i)))
    | inr (b, e) ↦
        let bytes = run_bytes ram (0x10000 - i) i in
        let lt : i < 0x10000 = ground arith in
        let pos : 0 < length bytes = run_bytes_pos ram (0x10000 - i) i b (omega arith) e in
        let few : length bytes ≤ 0x10000 - i = length-run_bytes ram (0x10000 - i) i in
        let ih = load-runs fuel ram (load_bytes base i bytes) (i + length bytes) k (omega arith) in
        let here = load-run ram base (0x10000 - i) i k (omega arith) in
        rw (runs_hit fuel ram i b lt e)
          (rw load_segments-cons (ih ∙ merge (length bytes) few (load_bytes base i bytes k) here))
  ]
]
  where
    gap :
        ram i ≡ none
        → (((k == i) ≡ true) ⊎ ((k == i) ≡ false))
        → (if leb (i + 1) k && ltb k 0x10000 then over ram base k else base k)
          ≡ (if leb i k && ltb k 0x10000 then over ram base k else base k)
    gap e (inl is) = let q : ram k ≡ none = ap ram ((==_iff k i).0 is) ∙ e in ground arith
    gap e (inr other) = ground arith

    merge :
        (len : ℕ)
        → len ≤ 0x10000 - i
        → (at_k : Option ℕ)
        → at_k ≡ (if leb i k && ltb k (i + len) then over ram base k else base k)
        → (if leb (i + len) k && ltb k 0x10000
            then elim (ram k) [ none ↦ at_k | some b ↦ some b ]
            else at_k)
          ≡ (if leb i k && ltb k 0x10000 then over ram base k else base k)
    merge len few at_k e = ground arith

-- Every run fits a preamble, unless it is the whole 64K.
runs_fit :
    (fuel : ℕ) (ram : Ram) (i hole : ℕ)
    → hole < 0x10000
    → ram hole ≡ none
    → All FitsHeader (runs fuel ram i)
runs_fit zero ram i hole lt e = unfold runs in tt
runs_fit (suc fuel) ram i hole lt e = elim (Bool-cases (ltb i 0x10000)) [
  | inr past ↦ rw (runs_past fuel ram i (ground arith)) tt
  | inl inside ↦ elim (Option-cases (ram i)) [
    | inl e2 ↦ rw (runs_gap fuel ram i (ground arith) e2) (runs_fit fuel ram (i + 1) hole lt e)
    | inr (b, e2) ↦
        let n : ℕ = 0x10000 - i in
        let lt2 : i < 0x10000 = ground arith in
        let few = length-run_bytes ram n i in
        rw (runs_hit fuel ram i b lt2 e2)
          ((lt2, short few), runs_fit fuel ram (i + length (run_bytes ram n i)) hole lt e)
  ]
]
  where
    short :
        length (run_bytes ram (0x10000 - i) i) ≤ 0x10000 - i
        → length (run_bytes ram (0x10000 - i) i) < 0x10000
    short few = elim (Bool-cases (i == 0)) [
      | inr other ↦ ground arith
      | inl is ↦ omega (arith, run_stops ram (0x10000 - i) i hole (ground arith) e)
    ]

-- `copy -c` puts out a binary that parses, has the exec address of its input, and loads to the same
-- 64K image, whenever its input parses and leaves some address unloaded.
pub binconcat_same_image :
    (bytes : List ℕ) (segs : List Segment) (exec_addr hole : ℕ)
    → parse_decb_segments bytes ≡ ok (segs, exec_addr)
    → exec_addr < 0x10000
    → hole < 0x10000
    → load_segments empty_ram segs hole ≡ none
    → (out : List ℕ) × (segs' : List Segment) × (binconcat bytes ≡ ok out)
      × (parse_decb_segments out ≡ ok (segs', exec_addr))
      × ((k : ℕ) → k < 0x10000 → load_segments empty_ram segs' k ≡ load_segments empty_ram segs k)
binconcat_same_image bytes segs exec_addr hole parsed e lt empty =
    let ram = load_segments empty_ram segs in
    let rs = runs 0x10001 ram 0 in
    (
      emit_segments rs exec_addr,
      rs,
      unfold binconcat in rw parsed,
      parse-emit rs exec_addr (runs_fit 0x10001 ram 0 hole lt empty) e,
      λ k small. load-runs 0x10001 ram empty_ram 0 k (omega arith) ∙ same k small ram,
    )
  where
    same :
        (k : ℕ)
        → k < 0x10000
        → (ram : Ram)
        → (if leb 0 k && ltb k 0x10000 then over ram empty_ram k else empty_ram k) ≡ ram k
    same k small ram = ground arith
