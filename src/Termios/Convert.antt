-- ===== src/Termios/Convert.antt =====
-- Writing the fields of a terminal by src/unix/unix_c/unix_termios_conversion.c and reading them again.
use native.Mathlib.Nat.{add-zero}
use lwt.Base.{
  int_val, ℕ, ◌+◌, ◌≤◌, ℤ, pos, negsuc, true, List, some, length, if◌then◌else◌, ◌≡◌, refl, sym, ap,
  subst, ◌∙◌, arith, inl, inr, Bool-cases, get_elem?-set_self,
}
use lwt.Termios.{
  Field, iflags, oflags, cflags, lflags, Entry, bool_entry, enum_entry, speed_entry, char_entry,
  Termios, LibC, choose_field, set_field, bool_val, to_byte, minus_offset, read_entry, write_entry,
  decoded,
}
use lwt.Termios.Bits.{
  Word, and_bits, or_bits, clear_bits, is_nonzero, is_nonzero-or_bits, is_nonzero-clear_bits,
  and_bits_written, length-or_bits, length-clear_bits,
}
use lwt.Termios.Frame.{SpeedLaws, choose-set_self, Fits, covered-at}
use lwt.Termios.Written.{
  normal, DistinctSpeeds, find_baud-find_speed, find_value-at, enum-written, speed-written,
  char-written, bool-written, bool_word, length-bool_word,
}

abbrev pub HasWidth : {R : Type 0} → ℕ → Termios R → Type 0
HasWidth width t =
    (length t.c_iflag ≡ width)
    × (length t.c_oflag ≡ width)
    × (length t.c_cflag ≡ width)
    × (length t.c_lflag ≡ width)

pub width_at :
    {R : Type 0} (width : ℕ) (f : Field) (t : Termios R)
    → HasWidth width t
    → length (choose_field f t) ≡ width
unfolding choose_field
width_at width iflags t h = h.0
width_at width oflags t h = h.1
width_at width cflags t h = h.2
width_at width lflags t h = h.3

set_field-HasWidth :
    {R : Type 0} (width : ℕ) (f : Field) (w : Word) (t : Termios R)
    → length w ≡ length (choose_field f t)
    → HasWidth width t
    → HasWidth width (set_field f w t)
unfolding choose_field set_field
set_field-HasWidth width iflags w t e h = (e ∙ h.0, h.1, h.2, h.3)
set_field-HasWidth width oflags w t e h = (h.0, e ∙ h.1, h.2, h.3)
set_field-HasWidth width cflags w t e h = (h.0, h.1, e ∙ h.2, h.3)
set_field-HasWidth width lflags w t e h = (h.0, h.1, h.2, e ∙ h.3)

minus_offset-some : (v : ℤ) (ofs i : ℕ) → minus_offset v ofs ≡ some i → v ≡ pos (i + ofs)
minus_offset-some (negsuc n) ofs i e = absurd (cc e)
minus_offset-some (pos n) ofs i e = ground arith

module _ (L : LibC) (table : List (ℕ × ℕ)) (sb : Field → Word) (laws : SpeedLaws L sb)
    (width : ℕ) where
  bool_word-reads :
      (v : ℤ) (m w : Word)
      → length m ≤ length w
      → is_nonzero m ≡ true
      → is_nonzero (and_bits (bool_word L table v m w) m) ≡ bool_val (int_val v)
  bool_word-reads v m w l h = elim (Bool-cases (bool_val (int_val v))) [
    | inl on ↦ rw on (is_nonzero-or_bits w m l h)
    | inr off ↦ rw off (is_nonzero-clear_bits w m)
  ]

  pub write-HasWidth :
      (e : Entry) (v : ℤ) (t t' : Termios L.R)
      → write_entry L table e v t ≡ decoded t'
      → HasWidth width t
      → HasWidth width t'
  unfolding choose_field
  write-HasWidth (bool_entry f m) v t t' e h =
      subst (HasWidth width) (bool-written L table f m v t t' e)
        (set_field-HasWidth width f _ t (length-bool_word L table v m (choose_field f t)) h)
  write-HasWidth (enum_entry f ofs values m) v t t' e h =
      let (i, x, p, q, r) = enum-written L table f ofs values m v t t' e in
      subst (HasWidth width) r (
        set_field-HasWidth width f _ t
          (length-or_bits (clear_bits (choose_field f t) m) x
            ∙ length-clear_bits (choose_field f t) m)
          h)
  write-HasWidth (speed_entry d) v t t' e h =
      let (s, p, ok, r) = speed-written L table d v t t' e in
      subst (HasWidth width) r (
        laws.set_keeps_width d s t iflags ∙ h.0,
        laws.set_keeps_width d s t oflags ∙ h.1,
        laws.set_keeps_width d s t cflags ∙ h.2,
        laws.set_keeps_width d s t lflags ∙ h.3,
      )
  write-HasWidth (char_entry i) v t t' e h =
      subst (HasWidth width) (char-written L table i v t t' e).1 h

  -- A field reads as the value that was written to it.
  pub write-reads :
      (e : Entry) (v old : ℤ) (t t' : Termios L.R)
      → DistinctSpeeds table
      → Fits width e
      → HasWidth width t
      → write_entry L table e v t ≡ decoded t'
      → read_entry L table e t' old ≡ some (normal e v)
  unfolding read_entry
  write-reads (bool_entry f m) v old t t' ds fit h e =
      subst (λ z. read_entry L table (bool_entry f m) z old ≡ some (normal (bool_entry f m) v))
        (bool-written L table f m v t t' e)
        (rw (choose-set_self f (bool_word L table v m (choose_field f t)) t) (
          ap (λ b. some (if b then pos 1 else pos 0))
            (bool_word-reads v m (choose_field f t) (omega (arith, fit.0, width_at width f t h))
              fit.1)))
  write-reads (enum_entry f ofs values m) v old t t' ds fit h e =
      let (i, x, p, q, r) = enum-written L table f ofs values m v t t' e in
      let w = choose_field f t in
      let seen : and_bits (or_bits (clear_bits w m) x) m ≡ x =
        and_bits_written w m x (omega (arith, fit.0, width_at width f t h))
          (omega (arith, (covered-at width m values i fit.1 q).0, width_at width f t h))
          (covered-at width m values i fit.1 q).1 in
      subst (λ z. read_entry L table (enum_entry f ofs values m) z old ≡ some (int_val v)) r
        (rw (choose-set_self f (or_bits (clear_bits w m) x) t, read_entry)
          (rw seen (
            rw (find_value-at values i 0 fit.2 q ∙ ap some (add-zero i))
              (ap some (sym (minus_offset-some (int_val v) ofs i p))))))
  write-reads (speed_entry d) v old t t' ds fit h e =
      let (s, p, ok, r) = speed-written L table d v t t' e in
      let (n, vn, back) = find_baud-find_speed table (int_val v) ds p in
      subst (λ z. read_entry L table (speed_entry d) z old ≡ some (int_val v)) r
        (rw (laws.set_reads d s t ok, read_entry) (rw (back) (ap some (sym vn))))
  write-reads (char_entry i) v old t t' ds fit h e =
      let (lt, r) = char-written L table i v t t' e in
      subst (λ z. read_entry L table (char_entry i) z old ≡ some (pos (to_byte (int_val v)))) r
        (rw (get_elem?-set_self t.c_cc i (to_byte (int_val v)) lt, read_entry) refl)
