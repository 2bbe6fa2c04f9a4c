-- ===== src/Base/Int.antt =====
-- C's signed integers that are used as identifiers, lengths and results: `negsuc n` is -(n + 1).
use Prim.Native.Nat.{ℕ, zero, suc, ◌-◌, ◌*◌, ◌%◌, ◌^◌, ◌<◌}
use mathlib.Core.Path.{◌≡◌}
use native.Mathlib.Omega.{arith}
use native.Mathlib.Nat.{mod-eq_of_lt}
use lwt.Base.Tests.{ltb, if◌then◌else◌}
use mathlib.Core.Bool.{Bool, true, false}
use native.Mathlib.Decide.{ℕ_discrete}

pub data ℤ : Type 0 where
  pos : ℕ → ℤ
  negsuc : ℕ → ℤ

abbrev pub minus_one : ℤ
minus_one = negsuc 0

abbrev pub is_negative : ℤ → Bool
is_negative (pos n) = false
is_negative (negsuc n) = true

abbrev pub is_minus_one : ℤ → Bool
is_minus_one (pos n) = false
is_minus_one (negsuc zero) = true
is_minus_one (negsuc (suc n)) = false

-- `-x`
abbrev pub neg : ℤ → ℤ
neg (pos zero) = pos 0
neg (pos (suc n)) = negsuc n
neg (negsuc n) = pos (suc n)

pub ℤ_discrete : Discrete ℤ
ℤ_discrete = hlevel ℕ_discrete

-- The value with the same residue in the range of a signed word, from `-half` to `half - 1`.
abbrev wrapped : (half : ℕ) → ℤ → ℕ → ℤ
wrapped half (pos n) m = if ltb m half then pos m else negsuc (2 * half - 1 - m)
wrapped half (negsuc n) m = if ltb m half then negsuc m else pos (2 * half - 1 - m)

abbrev size : ℤ → ℕ
size (pos n) = n
size (negsuc n) = n

unfoldable pub wrap : (half : ℕ) → ℤ → ℤ
wrap half z = wrapped half z (size z % (2 * half))

-- `Int_val`, on a platform with 32 bits in an `int` and 64 in a `long`.
unfoldable pub int_val : ℤ → ℤ
unfolding wrap
int_val = wrap (2 ^ 31)

-- `Val_long` and `Val_int` of a 64-bit value: an OCaml integer has one bit less.
unfoldable pub val_long : ℤ → ℤ
unfolding wrap
val_long = wrap (2 ^ 62)

abbrev pub Fits : (half : ℕ) → ℤ → Type 0
Fits half z = size z < half

pub wrap-eq_of_Fits : (half : ℕ) (z : ℤ) → Fits half z → wrap half z ≡ z
unfolding wrap
wrap-eq_of_Fits half (pos n) h =
    rw (mod-eq_of_lt (let b : n < 2 * half = omega arith in b)) (ground arith)
wrap-eq_of_Fits half (negsuc n) h =
    rw (mod-eq_of_lt (let b : n < 2 * half = omega arith in b)) (ground arith)
