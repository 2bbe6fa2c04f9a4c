-- ===== src/Termios/Bits.antt =====
-- `tcflag_t` as its bits, lowest first, with the three operations of
-- src/unix/unix_c/unix_termios_conversion.c. The first argument fixes the width; a mask that is
-- shorter has no further bits.
use mathlib.Core.Bool.{false≢true}
use lwt.Base.{
  suc, length, ◌≤◌, Bool, true, false, ◌&&◌, ◌||◌, not, List, [], ◌∷◌, ◌≡◌, refl, ap, arith,
}

abbrev pub Word : Type 0
Word = List Bool

-- `w & m`
unfoldable pub and_bits : Word → Word → Word
and_bits [] m = []
and_bits (a ∷ w) [] = false ∷ and_bits w []
and_bits (a ∷ w) (b ∷ m) = (a && b) ∷ and_bits w m

-- `w | m`
unfoldable pub or_bits : Word → Word → Word
or_bits [] m = []
or_bits (a ∷ w) [] = a ∷ w
or_bits (a ∷ w) (b ∷ m) = (a || b) ∷ or_bits w m

-- `w & ~m`
unfoldable pub clear_bits : Word → Word → Word
clear_bits [] m = []
clear_bits (a ∷ w) [] = a ∷ w
clear_bits (a ∷ w) (b ∷ m) = (a && not b) ∷ clear_bits w m

-- `w != 0`
unfoldable pub is_nonzero : Word → Bool
is_nonzero [] = false
is_nonzero (a ∷ w) = a || is_nonzero w

unfoldable pub word_eq : Word → Word → Bool
word_eq [] [] = true
word_eq (true ∷ v) (true ∷ w) = word_eq v w
word_eq (false ∷ v) (false ∷ w) = word_eq v w
word_eq _ _ = false

-- No bit in both.
abbrev pub Disjoint : Word → Word → Type 0
Disjoint [] n = Unit {0}
Disjoint (a ∷ m) [] = Unit {0}
Disjoint (a ∷ m) (b ∷ n) = ((a && b) ≡ false) × Disjoint m n

-- Every bit of the second in the first.
abbrev pub Covers : Word → Word → Type 0
Covers m [] = Unit {0}
Covers [] (b ∷ n) = (b ≡ false) × Covers [] n
Covers (a ∷ m) (b ∷ n) = ((b && not a) ≡ false) × Covers m n

-- Changes under one mask do not show under a disjoint one.
pub and_bits-or_bits : (w m n : Word) → Disjoint m n → and_bits (or_bits w m) n ≡ and_bits w n
unfolding and_bits or_bits
and_bits-or_bits [] m n d = refl
and_bits-or_bits (a ∷ w) [] n d = refl
and_bits-or_bits (a ∷ w) (b ∷ m) [] d = ap (λ r. false ∷ r) (nothing w m)
  where
    nothing : (w m : Word) → and_bits (or_bits w m) [] ≡ and_bits w []
    nothing [] m = refl
    nothing (a ∷ w) [] = refl
    nothing (a ∷ w) (b ∷ m) = ap (λ r. false ∷ r) (nothing w m)
and_bits-or_bits (a ∷ w) (b ∷ m) (c ∷ n) d = ground (arith, and_bits-or_bits w m n d.1)

pub and_bits-clear_bits : (w m n : Word) → Disjoint m n → and_bits (clear_bits w m) n ≡ and_bits w n
unfolding and_bits clear_bits
and_bits-clear_bits [] m n d = refl
and_bits-clear_bits (a ∷ w) [] n d = refl
and_bits-clear_bits (a ∷ w) (b ∷ m) [] d = ap (λ r. false ∷ r) (nothing w m)
  where
    nothing : (w m : Word) → and_bits (clear_bits w m) [] ≡ and_bits w []
    nothing [] m = refl
    nothing (a ∷ w) [] = refl
    nothing (a ∷ w) (b ∷ m) = ap (λ r. false ∷ r) (nothing w m)
and_bits-clear_bits (a ∷ w) (b ∷ m) (c ∷ n) d = ground (arith, and_bits-clear_bits w m n d.1)

pub is_nonzero-or_bits :
    (w m : Word)
    → length m ≤ length w
    → is_nonzero m ≡ true
    → is_nonzero (and_bits (or_bits w m) m) ≡ true
unfolding and_bits or_bits is_nonzero
is_nonzero-or_bits w [] l h = absurd (false≢true h)
is_nonzero-or_bits [] (b ∷ m) l h = absurd (omega arith)
is_nonzero-or_bits (a ∷ w) (true ∷ m) l h = ground arith
is_nonzero-or_bits (a ∷ w) (false ∷ m) l h = ground (arith, is_nonzero-or_bits w m (omega arith) h)

pub is_nonzero-clear_bits : (w m : Word) → is_nonzero (and_bits (clear_bits w m) m) ≡ false
unfolding and_bits clear_bits is_nonzero
is_nonzero-clear_bits [] m = refl
is_nonzero-clear_bits (a ∷ w) [] = nothing w
  where
    nothing : (w : Word) → is_nonzero (and_bits w []) ≡ false
    nothing [] = refl
    nothing (a ∷ w) = nothing w
is_nonzero-clear_bits (a ∷ w) (b ∷ m) = ground (arith, is_nonzero-clear_bits w m)

-- A field that is cleared and then written reads as what was written.
pub and_bits_written :
    (w m v : Word)
    → length m ≡ length w
    → length v ≡ length w
    → Covers m v
    → and_bits (or_bits (clear_bits w m) v) m ≡ v
unfolding and_bits or_bits clear_bits
and_bits_written [] m [] e f c = refl
and_bits_written [] m (x ∷ v) e f c = absurd (omega arith)
and_bits_written (a ∷ w) [] v e f c = absurd (omega arith)
and_bits_written (a ∷ w) (b ∷ m) [] e f c = absurd (omega arith)
and_bits_written (a ∷ w) (b ∷ m) (x ∷ v) e f c =
    ground (arith, and_bits_written w m v (omega arith) (omega arith) c.1)

pub word_eq_sound : (v w : Word) → word_eq v w ≡ true → v ≡ w
unfolding word_eq
word_eq_sound [] [] h = refl
word_eq_sound [] (b ∷ w) h = cc
word_eq_sound (true ∷ v) [] h = cc
word_eq_sound (false ∷ v) [] h = cc
word_eq_sound (true ∷ v) (true ∷ w) h = ap (λ r. true ∷ r) (word_eq_sound v w h)
word_eq_sound (true ∷ v) (false ∷ w) h = cc
word_eq_sound (false ∷ v) (true ∷ w) h = cc
word_eq_sound (false ∷ v) (false ∷ w) h = ap (λ r. false ∷ r) (word_eq_sound v w h)

pub word_eq_refl : (v : Word) → word_eq v v ≡ true
unfolding word_eq
word_eq_refl [] = refl
word_eq_refl (true ∷ v) = word_eq_refl v
word_eq_refl (false ∷ v) = word_eq_refl v

pub length-or_bits : (w m : Word) → length (or_bits w m) ≡ length w
unfolding or_bits
length-or_bits [] m = refl
length-or_bits (a ∷ w) [] = refl
length-or_bits (a ∷ w) (b ∷ m) = ap suc (length-or_bits w m)

pub length-clear_bits : (w m : Word) → length (clear_bits w m) ≡ length w
unfolding clear_bits
length-clear_bits [] m = refl
length-clear_bits (a ∷ w) [] = refl
length-clear_bits (a ∷ w) (b ∷ m) = ap suc (length-clear_bits w m)
