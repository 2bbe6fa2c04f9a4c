-- ===== src/Termios/Written.antt =====
-- What a write of one entry of src/unix/unix_c/unix_termios_conversion.c stores.
use lwt.Base.{
  int_val, ℕ, zero, suc, ◌+◌, ◌<◌, ℤ, pos, negsuc, is_minus_one, false, List, [], ◌∷◌, some,
  get_elem?, set, length, if◌then◌else◌, ◌==◌, ◌≡◌, ◌≢◌, refl, sym, ap, subst, ◌∙◌, arith, inl, inr,
  Bool-cases, Option-cases, ltb, ne→==,
}
use lwt.Termios.{
  Field, Direction, Entry, bool_entry, enum_entry, speed_entry, char_entry, Termios, LibC,
  choose_field, set_field, find_value, find_baud, find_speed, bool_val, to_byte, minus_offset,
  write_entry, decoded,
}
use lwt.Termios.Bits.{
  Word, and_bits, or_bits, clear_bits, word_eq, Disjoint, and_bits-or_bits, and_bits-clear_bits,
  word_eq_refl, length-or_bits, length-clear_bits,
}
use lwt.Termios.Frame.{DistinctWords, Other}

-- The value that a written field reads as: what an `int` holds of it, a Boolean as `true` or `false`, a
-- character as a byte.
abbrev pub normal : Entry → ℤ → ℤ
normal (bool_entry f m) v = if bool_val (int_val v) then pos 1 else pos 0
normal (enum_entry f ofs values m) v = int_val v
normal (speed_entry d) v = int_val v
normal (char_entry i) v = pos (to_byte (int_val v))

abbrev pub OtherSpeed : ℕ → List (ℕ × ℕ) → Type 0
OtherSpeed s [] = Unit
OtherSpeed s ((c, baud) ∷ rest) = (s ≢ c) × OtherSpeed s rest

-- The table of speeds names no speed twice.
abbrev pub DistinctSpeeds : List (ℕ × ℕ) → Type 0
DistinctSpeeds [] = Unit
DistinctSpeeds ((c, baud) ∷ rest) = OtherSpeed c rest × DistinctSpeeds rest

found-other :
    (c n : ℕ) {s : ℕ} (table : List (ℕ × ℕ))
    → OtherSpeed c table
    → find_speed (pos n) table ≡ some s
    → c ≢ s
unfolding find_speed
found-other c n [] o e = absurd (cc e)
found-other c n ((b, baud) ∷ rest) o e = elim (Bool-cases (n == baud)) [
  | inl hit ↦ λ q. o.0 (ground arith)
  | inr miss ↦ found-other c n rest o.1 (rw miss at e)
]

-- A baud rate that was found leads back to itself.
pub find_baud-find_speed :
    (table : List (ℕ × ℕ)) (v : ℤ) {s : ℕ}
    → DistinctSpeeds table
    → find_speed v table ≡ some s
    → (n : ℕ) × (v ≡ pos n) × (find_baud s table ≡ some n)
unfolding find_speed find_baud
find_baud-find_speed table (negsuc n) d e = absurd (cc e)
find_baud-find_speed [] (pos n) d e = absurd (cc e)
find_baud-find_speed ((c, baud) ∷ rest) (pos n) {s} d e = elim (Bool-cases (n == baud)) [
  | inl hit ↦ (n, refl, ground arith)
  | inr miss ↦
      let e' : find_speed (pos n) rest ≡ some s = rw miss at e in
      let (k, q, f) = find_baud-find_speed rest (pos n) d.1 e' in
      let ne : c ≢ s = found-other c n rest d.0 e' in
      (n, refl, rw (ne→== s c (λ x. ne (sym x))) (f ∙ ap some (ground arith)))
]

-- The first of several distinct words that equals the word at an index is the one there.
pub find_value-at :
    (xs : List Word) (i k : ℕ) {x : Word}
    → DistinctWords xs
    → get_elem? xs i ≡ some x
    → find_value x xs k ≡ some (i + k)
unfolding find_value
find_value-at [] i k d e = absurd (cc e)
find_value-at (y ∷ ys) zero k {x} d e =
    let h : y ≡ x = cc e in rw (← h, word_eq_refl y) (ap some (omega arith))
find_value-at (y ∷ ys) (suc i) k {x} d e =
    rw (other ys i d.0 e) (find_value-at ys i (k + 1) d.1 e ∙ ap some (omega arith))
  where
    other : (zs : List Word) (j : ℕ) → Other y zs → get_elem? zs j ≡ some x → word_eq x y ≡ false
    other [] j o e = absurd (cc e)
    other (z ∷ zs) zero o e = let h : z ≡ x = cc e in subst (λ w. word_eq w y ≡ false) h o.0
    other (z ∷ zs) (suc j) o e = other zs j o.1 e

-- How each kind of entry is written, when it is.
module _ (L : LibC) (table : List (ℕ × ℕ)) where
  pub enum-written :
      (f : Field) (ofs : ℕ) (values : List Word) (m : Word) (v : ℤ) (t t' : Termios L.R)
      → write_entry L table (enum_entry f ofs values m) v t ≡ decoded t'
      → (i : ℕ) × (x : Word) × (minus_offset (int_val v) ofs ≡ some i)
        × (get_elem? values i ≡ some x)
        × (set_field f (or_bits (clear_bits (choose_field f t) m) x) t ≡ t')
  unfolding write_entry
  enum-written f ofs values m v t t' e = elim (Option-cases (minus_offset (int_val v) ofs)) [
    | inl no_index ↦ absurd (cc (rw (no_index, write_entry) at e))
    | inr (i, p) ↦ elim (Option-cases (get_elem? values i)) [
      | inl no_value ↦ absurd (cc (rw (no_value) at (rw (p, write_entry) at e)))
      | inr (x, q) ↦ (i, x, p, q, cc (rw q at (rw (p, write_entry) at e)))
    ]
  ]

  pub speed-written :
      (d : Direction) (v : ℤ) (t t' : Termios L.R)
      → write_entry L table (speed_entry d) v t ≡ decoded t'
      → (s : ℕ) × (find_speed (int_val v) table ≡ some s)
        × (is_minus_one (L.cfsetspeed d s t).1 ≡ false)
        × ((L.cfsetspeed d s t).0 ≡ t')
  unfolding write_entry
  speed-written d v t t' e = elim (Option-cases (find_speed (int_val v) table)) [
    | inl unknown ↦ absurd (cc (rw (unknown, write_entry) at e))
    | inr (s, p) ↦ elim (Bool-cases (is_minus_one (L.cfsetspeed d s t).1)) [
      | inl bad ↦ absurd (cc (rw bad at (rw (p, write_entry) at e)))
      | inr ok ↦ (s, p, ok, cc (rw ok at (rw (p, write_entry) at e)))
    ]
  ]

  pub char-written :
      (i : ℕ) (v : ℤ) (t t' : Termios L.R)
      → write_entry L table (char_entry i) v t ≡ decoded t'
      → (i < length t.c_cc) × (record t { c_cc = set t.c_cc i (to_byte (int_val v)) } ≡ t')
  unfolding write_entry
  char-written i v t t' e = elim (Bool-cases (ltb i (length t.c_cc))) [
    | inl inside ↦ (ground arith, cc (rw inside at e))
    | inr past ↦ absurd (cc (rw past at e))
  ]

  abbrev pub bool_word : ℤ → Word → Word → Word
  bool_word v m w = if bool_val (int_val v) then or_bits w m else clear_bits w m

  pub bool-written :
      (f : Field) (m : Word) (v : ℤ) (t t' : Termios L.R)
      → write_entry L table (bool_entry f m) v t ≡ decoded t'
      → set_field f (bool_word v m (choose_field f t)) t ≡ t'
  unfolding write_entry
  bool-written f m v t t' e = cc e

  pub bool_word-frame :
      (v : ℤ) (m w n : Word) → Disjoint m n → and_bits (bool_word v m w) n ≡ and_bits w n
  bool_word-frame v m w n d = elim (Bool-cases (bool_val (int_val v))) [
    | inl on ↦ rw on (and_bits-or_bits w m n d)
    | inr off ↦ rw off (and_bits-clear_bits w m n d)
  ]

  pub length-bool_word : (v : ℤ) (m w : Word) → length (bool_word v m w) ≡ length w
  length-bool_word v m w = elim (Bool-cases (bool_val (int_val v))) [
    | inl on ↦ rw on (length-or_bits w m)
    | inr off ↦ rw off (length-clear_bits w m)
  ]
