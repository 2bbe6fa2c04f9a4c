-- ===== src/Transfer/Slices.antt =====
-- The bytes of a buffer into which a slice was copied, as src/unix/unix_c/unix_read_job.c does.
use native.Mathlib.Nat.{zero-add, suc-add}
use lwt.Base.{
  ℕ, zero, suc, ◌+◌, ◌-◌, ◌≤◌, ◌<◌, [], ◌∷◌, ◌++◌, Option, get_elem?, length, take, drop, splice,
  ltb, if◌then◌else◌, ◌≡◌, refl, ap, ◌∙◌, arith, length-take, length-drop, length-append,
}
use lwt.Transfer.{Bytes}

pub get_elem?-take : (n i : ℕ) (xs : Bytes) → i < n → get_elem? (take n xs) i ≡ get_elem? xs i
get_elem?-take zero i xs h = absurd (omega arith)
get_elem?-take (suc n) i [] h = refl
get_elem?-take (suc n) zero (x ∷ xs) h = refl
get_elem?-take (suc n) (suc i) (x ∷ xs) h = get_elem?-take n i xs (omega arith)

-- A byte of a buffer that `src` was copied into.
abbrev pub byte_of : ℕ → Bytes → Bytes → ℕ → Option ℕ
byte_of at src dst i =
    if ltb i at
    then get_elem? dst i
    else if ltb i (at + length src)
    then get_elem? src (i - at)
    else get_elem? dst i

get_elem?-over :
    (src dst : Bytes) (i : ℕ)
    → length src ≤ length dst
    → get_elem? (src ++ drop (length src) dst) i
      ≡ (if ltb i (length src) then get_elem? src i else get_elem? dst i)
get_elem?-over [] dst i h = ground arith
get_elem?-over (s ∷ src) [] i h = absurd (omega arith)
get_elem?-over (s ∷ src) (x ∷ dst) zero h = ground arith
get_elem?-over (s ∷ src) (x ∷ dst) (suc i) h = get_elem?-over src dst i (omega arith) ∙ ground arith

pub get_elem?-splice :
    (at : ℕ) (src dst : Bytes) (i : ℕ)
    → at + length src ≤ length dst
    → get_elem? (splice at src dst) i ≡ byte_of at src dst i
get_elem?-splice zero src dst i h =
    rw (zero-add (length src)) (get_elem?-over src dst i (omega arith) ∙ ground arith)
get_elem?-splice (suc at) src [] i h = absurd (omega arith)
get_elem?-splice (suc at) src (x ∷ dst) zero h = ground arith
get_elem?-splice (suc at) src (x ∷ dst) (suc i) h =
    rw (suc-add at (length src)) (get_elem?-splice at src dst i (omega arith) ∙ ground arith)

pub length-splice :
    (at : ℕ) (src dst : Bytes)
    → at + length src ≤ length dst
    → length (splice at src dst) ≡ length dst
length-splice at src dst h = omega (
  arith,
  length-append (take at dst) (src ++ drop (at + length src) dst),
  length-append src (drop (at + length src) dst),
  length-take at dst,
  length-drop (at + length src) dst,
)

take_front : (src rest : Bytes) → take (length src) (src ++ rest) ≡ src
take_front [] rest = refl
take_front (s ∷ src) rest = ap (λ r. s ∷ r) (take_front src rest)

-- What was copied in is found there.
pub slice-splice :
    (at : ℕ) (src dst : Bytes)
    → at + length src ≤ length dst
    → take (length src) (drop at (splice at src dst)) ≡ src
slice-splice zero src dst h = rw (zero-add (length src)) (take_front src (drop (length src) dst))
slice-splice (suc at) src [] h = absurd (omega arith)
slice-splice (suc at) src (x ∷ dst) h =
    rw (suc-add at (length src)) (slice-splice at src dst (omega arith))
