-- ===== src/Termios/Frame.antt =====
-- What a write of one entry of src/unix/unix_c/unix_termios_conversion.c does to the others.
use lwt.Base.{
  int_val, ℕ, zero, suc, ℤ, is_minus_one, true, false, List, [], ◌∷◌, some, get_elem?, length, ◌≡◌,
  ◌≢◌, refl, ap, subst, arith, ◌⊎◌, inl, inr,
}
use lwt.Termios.{
  Field, iflags, oflags, cflags, lflags, Direction, Entry, bool_entry, enum_entry, speed_entry,
  char_entry, Termios, LibC, choose_field, set_field, read_entry,
}
use lwt.Termios.Bits.{Word, and_bits, is_nonzero, word_eq, Disjoint, Covers}

-- What the code relies on from libc: a speed that was set is read, in its direction and perhaps in
-- the other, which some systems do not keep apart; and the bits of the speed, if they stand in one of
-- the flag words, are apart from all others.
pub record SpeedLaws (L : LibC) (speed_bits : Field → Word) : Type 0 where
  pub set_reads :
      (d : Direction) (s : ℕ) (t : Termios L.R)
      → is_minus_one (L.cfsetspeed d s t).1 ≡ false
      → L.cfgetspeed d (L.cfsetspeed d s t).0 ≡ s
  pub set_other :
      (d d' : Direction) (s : ℕ) (t : Termios L.R)
      → is_minus_one (L.cfsetspeed d s t).1 ≡ false
      → (L.cfgetspeed d' (L.cfsetspeed d s t).0 ≡ L.cfgetspeed d' t)
        ⊎ (L.cfgetspeed d' (L.cfsetspeed d s t).0 ≡ s)
  pub set_keeps_bits :
      (d : Direction) (s : ℕ) (t : Termios L.R) (f : Field) (m : Word)
      → Disjoint (speed_bits f) m
      → and_bits (choose_field f (L.cfsetspeed d s t).0) m ≡ and_bits (choose_field f t) m
  pub set_keeps_width :
      (d : Direction) (s : ℕ) (t : Termios L.R) (f : Field)
      → length (choose_field f (L.cfsetspeed d s t).0) ≡ length (choose_field f t)
  pub set_keeps_cc :
      (d : Direction) (s : ℕ) (t : Termios L.R) → (L.cfsetspeed d s t).0.c_cc ≡ t.c_cc
  pub bits_keep_speed :
      (d : Direction) (f : Field) (w : Word) (t : Termios L.R)
      → and_bits w (speed_bits f) ≡ and_bits (choose_field f t) (speed_bits f)
      → L.cfgetspeed d (set_field f w t) ≡ L.cfgetspeed d t
  pub cc_keeps_speed :
      (d : Direction) (cc : List ℕ) (t : Termios L.R)
      → L.cfgetspeed d (record t { c_cc = cc }) ≡ L.cfgetspeed d t

module _ {R : Type 0} where
  pub choose-set_self :
      (f : Field) (w : Word) (t : Termios R) → choose_field f (set_field f w t) ≡ w
  unfolding choose_field set_field
  choose-set_self iflags w t = refl
  choose-set_self oflags w t = refl
  choose-set_self cflags w t = refl
  choose-set_self lflags w t = refl

  pub choose-set_ne :
      (f g : Field) (w : Word) (t : Termios R)
      → f ≢ g
      → choose_field g (set_field f w t) ≡ choose_field g t
  unfolding choose_field set_field
  choose-set_ne f g w t h = ground arith

  pub set_field-cc : (f : Field) (w : Word) (t : Termios R) → (set_field f w t).c_cc ≡ t.c_cc
  unfolding set_field
  set_field-cc f w t = ground arith

-- The places that an entry reads and writes: for two entries of the table to be independent they
-- must not overlap. Two speeds may, and then they must be given the same `int`.
abbrev pub ApartFlags : Field → Word → Field → Word → Type 0
ApartFlags f m g n = (f ≢ g) ⊎ ((g ≡ f) × Disjoint m n)

module _ (speed_bits : Field → Word) where
  abbrev pub ApartFrom : Field → Word → Entry → Type 0
  ApartFrom f m (bool_entry g n) = ApartFlags f m g n
  ApartFrom f m (enum_entry g _ _ n) = ApartFlags f m g n
  ApartFrom f m (speed_entry d) = Disjoint m (speed_bits f)
  ApartFrom f m (char_entry i) = Unit

  abbrev pub SpeedApart : ℤ → Entry → ℤ → Type 0
  SpeedApart v (bool_entry g n) v' = Disjoint (speed_bits g) n
  SpeedApart v (enum_entry g _ _ n) v' = Disjoint (speed_bits g) n
  SpeedApart v (speed_entry d) v' = int_val v ≡ int_val v'
  SpeedApart v (char_entry i) v' = Unit

  abbrev pub CharApart : ℕ → Entry → Type 0
  CharApart i (char_entry j) = i ≢ j
  CharApart i _ = Unit

  -- A later write of `e` with the value `v` leaves `e'` with the value `v'`.
  abbrev pub Apart : Entry → ℤ → Entry → ℤ → Type 0
  Apart (bool_entry f m) v e' v' = ApartFrom f m e'
  Apart (enum_entry f _ values m) v e' v' = ApartFrom f m e'
  Apart (speed_entry d) v e' v' = SpeedApart v e' v'
  Apart (char_entry i) v e' v' = CharApart i e'

abbrev pub AllCovered : ℕ → Word → List Word → Type 0
AllCovered width m [] = Unit
AllCovered width m (x ∷ xs) = (length x ≡ width) × Covers m x × AllCovered width m xs

abbrev pub Other : Word → List Word → Type 0
Other w [] = Unit
Other w (x ∷ xs) = (word_eq x w ≡ false) × Other w xs

abbrev pub DistinctWords : List Word → Type 0
DistinctWords [] = Unit
DistinctWords (x ∷ xs) = Other x xs × DistinctWords xs

-- The constants of an entry make sense for flag words of the given width.
abbrev pub Fits : ℕ → Entry → Type 0
Fits width (bool_entry f m) = (length m ≡ width) × (is_nonzero m ≡ true)
Fits width (enum_entry f ofs values m) =
    (length m ≡ width) × AllCovered width m values × DistinctWords values
Fits width (speed_entry d) = Unit
Fits width (char_entry i) = Unit

pub covered-Disjoint :
    (m x n : Word) → length x ≡ length m → Covers m x → Disjoint m n → Disjoint x n
covered-Disjoint m [] n e c d = tt
covered-Disjoint [] (b ∷ x) n e c d = absurd (omega arith)
covered-Disjoint (a ∷ m) (b ∷ x) [] e c d = tt
covered-Disjoint (a ∷ m) (b ∷ x) (y ∷ n) e c d =
    (ground arith, covered-Disjoint m x n (omega arith) c.1 d.1)

pub covered-at :
    (width : ℕ) (m : Word) (xs : List Word) (i : ℕ) {x : Word}
    → AllCovered width m xs
    → get_elem? xs i ≡ some x
    → (length x ≡ width) × Covers m x
covered-at width m [] i c e = absurd (cc e)
covered-at width m (y ∷ ys) zero {x} c e =
    let h : y ≡ x = cc e in subst (λ z. (length z ≡ width) × Covers m z) h (c.0, c.1)
covered-at width m (y ∷ ys) (suc i) c e = covered-at width m ys i c.2 e

module _ (L : LibC) (table : List (ℕ × ℕ)) where
  abbrev pub SameView : Entry → Termios L.R → Termios L.R → Type 0
  SameView (bool_entry f m) t t' = and_bits (choose_field f t') m ≡ and_bits (choose_field f t) m
  SameView (enum_entry f _ _ m) t t' =
      and_bits (choose_field f t') m ≡ and_bits (choose_field f t) m
  SameView (speed_entry d) t t' = L.cfgetspeed d t' ≡ L.cfgetspeed d t
  SameView (char_entry i) t t' = get_elem? t'.c_cc i ≡ get_elem? t.c_cc i

  pub read-same :
      (e : Entry) (t t' : Termios L.R) (old : ℤ)
      → SameView e t t'
      → read_entry L table e t' old ≡ read_entry L table e t old
  unfolding read_entry
  read-same (bool_entry f m) t t' old s = rw (s, read_entry)
  read-same (enum_entry f ofs values m) t t' old s = rw (s, read_entry)
  read-same (speed_entry d) t t' old s = rw (s, read_entry)
  read-same (char_entry i) t t' old s = rw (s, read_entry)

  -- A new flag word that differs only under the mask.
  pub flags-frame :
      (speed_bits : Field → Word) (f : Field) (m w : Word) (t : Termios L.R) (e : Entry)
      → SpeedLaws L speed_bits
      → ((n : Word) → Disjoint m n → and_bits w n ≡ and_bits (choose_field f t) n)
      → ApartFrom speed_bits f m e
      → SameView e t (set_field f w t)
  flags-frame sb f m w t (bool_entry g n) l h (inl ne) =
      ap (λ x. and_bits x n) (choose-set_ne f g w t ne)
  flags-frame sb f m w t (bool_entry g n) l h (inr (e, d)) =
      rw e (rw (choose-set_self f w t) (h n d))
  flags-frame sb f m w t (enum_entry g _ _ n) l h (inl ne) =
      ap (λ x. and_bits x n) (choose-set_ne f g w t ne)
  flags-frame sb f m w t (enum_entry g _ _ n) l h (inr (e, d)) =
      rw e (rw (choose-set_self f w t) (h n d))
  flags-frame sb f m w t (speed_entry d) l h a = l.bits_keep_speed d f w t (h (sb f) a)
  flags-frame sb f m w t (char_entry i) l h a = ap (λ c. get_elem? c i) (set_field-cc f w t)
