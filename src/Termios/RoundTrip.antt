-- ===== src/Termios/RoundTrip.antt =====
-- Decoding and encoding a whole terminal by src/unix/unix_c/unix_termios_conversion.c.
use lwt.Base.{
  int_val, ℕ, ℤ, List, [], ◌∷◌, some, get_elem?, set, length, ◌≡◌, refl, sym, ap, subst, ◌∙◌, arith,
  inl, inr, get_elem?-set_ne,
}
use lwt.Termios.{
  Field, iflags, oflags, cflags, lflags, Entry, bool_entry, enum_entry, speed_entry, char_entry,
  Termios, LibC, choose_field, to_byte, read_entry, write_entry, decode_terminal_status,
  encode_terminal_status, Decoded, decoded, refused, outside,
}
use lwt.Termios.Bits.{Word, and_bits, or_bits, clear_bits, and_bits-or_bits, and_bits-clear_bits}
use lwt.Termios.Frame.{
  SpeedLaws, Apart, CharApart, Fits, covered-Disjoint, covered-at, SameView, read-same, flags-frame,
}
use lwt.Termios.Written.{
  normal, DistinctSpeeds, find_baud-find_speed, enum-written, speed-written, char-written,
  bool-written, bool_word, bool_word-frame,
}
use lwt.Termios.Convert.{HasWidth, write-HasWidth, write-reads}

module _ (sb : Field → Word) where
  -- The later entries leave `e` with the value `v`.
  abbrev pub AllApart : Entry → ℤ → List Entry → List ℤ → Type 0
  AllApart e v (e' ∷ es) (v' ∷ vs) = Apart sb e' v' e v × AllApart e v es vs
  AllApart e v _ _ = Unit

  abbrev pub Independent : List Entry → List ℤ → Type 0
  Independent (e ∷ es) (v ∷ vs) = AllApart e v es vs × Independent es vs
  Independent _ _ = Unit

abbrev pub AllFit : ℕ → List Entry → Type 0
AllFit width [] = Unit
AllFit width (e ∷ es) = Fits width e × AllFit width es

abbrev pub normals : List Entry → List ℤ → List ℤ
normals (e ∷ es) (v ∷ vs) = normal e v ∷ normals es vs
normals _ _ = []

choose-cc :
    {R : Type 0} (f : Field) (t : Termios R) (cc' : List ℕ)
    → choose_field f (record t { c_cc = cc' }) ≡ choose_field f t
unfolding choose_field
choose-cc iflags t cc' = refl
choose-cc oflags t cc' = refl
choose-cc cflags t cc' = refl
choose-cc lflags t cc' = refl

module _ (L : LibC) (table : List (ℕ × ℕ)) (sb : Field → Word) (laws : SpeedLaws L sb) (width : ℕ)
    (distinct : DistinctSpeeds table) where
  -- A write of one entry leaves an independent one as it reads.
  write-keeps :
      (e : Entry) (v : ℤ) (e' : Entry) (v' old : ℤ) (t t' : Termios L.R)
      → Apart sb e v e' v'
      → Fits width e
      → HasWidth width t
      → write_entry L table e v t ≡ decoded t'
      → read_entry L table e' t old ≡ some (normal e' v')
      → read_entry L table e' t' old ≡ some (normal e' v')
  write-keeps (bool_entry f m) v e' v' old t t' a fit h w r =
      subst (λ z. read_entry L table e' z old ≡ some (normal e' v'))
        (bool-written L table f m v t t' w)
        (read-same L table e' t _ old (
            flags-frame L table sb f m (bool_word L table v m (choose_field f t)) t e' laws
              (bool_word-frame L table v m (choose_field f t)) a)
          ∙ r)
  write-keeps (enum_entry f ofs values m) v e' v' old t t' a fit h w r =
      let (i, x, p, q, written) = enum-written L table f ofs values m v t t' w in
      let covered = covered-at width m values i fit.1 q in
      let cleared = clear_bits (choose_field f t) m in
      subst (λ z. read_entry L table e' z old ≡ some (normal e' v')) written
        (read-same L table e' t _ old (
            flags-frame L table sb f m (or_bits cleared x) t e' laws
              (λ n d.
                and_bits-or_bits cleared x n
                  (covered-Disjoint m x n (omega (arith, covered.0, fit.0)) covered.1 d)
                ∙ and_bits-clear_bits (choose_field f t) m n d)
              a)
          ∙ r)
  write-keeps (speed_entry d) v (bool_entry g n) v' old t t' a fit h w r =
      let (s, p, ok, written) = speed-written L table d v t t' w in
      subst (λ z. read_entry L table (bool_entry g n) z old ≡ some (normal (bool_entry g n) v'))
        written (read-same L table (bool_entry g n) t _ old (laws.set_keeps_bits d s t g n a) ∙ r)
  write-keeps (speed_entry d) v (enum_entry g ofs values n) v' old t t' a fit h w r =
      let (s, p, ok, written) = speed-written L table d v t t' w in
      subst (λ z. read_entry L table (enum_entry g ofs values n) z old ≡ some (int_val v')) written
        (read-same L table (enum_entry g ofs values n) t _ old (laws.set_keeps_bits d s t g n a)
          ∙ r)
  write-keeps (speed_entry d) v (speed_entry d') v' old t t' a fit h w r =
      let (s, p, ok, written) = speed-written L table d v t t' w in
      let (n, vn, back) = find_baud-find_speed table (int_val v) distinct p in
      subst (λ z. read_entry L table (speed_entry d') z old ≡ some (int_val v')) written
        (elim (laws.set_other d d' s t ok) [
          | inl same ↦ read-same L table (speed_entry d') t _ old same ∙ r
          | inr both ↦ unfold read_entry in (rw (both, read_entry) (rw back (ap some (sym vn ∙ a))))
        ])
  write-keeps (speed_entry d) v (char_entry i) v' old t t' a fit h w r =
      let (s, p, ok, written) = speed-written L table d v t t' w in
      subst (λ z. read_entry L table (char_entry i) z old ≡ some (normal (char_entry i) v')) written
        (read-same L table (char_entry i) t _ old
            (ap (λ c. get_elem? c i) (laws.set_keeps_cc d s t))
          ∙ r)
  write-keeps (char_entry i) v e' v' old t t' a fit h w r =
      let (lt, written) = char-written L table i v t t' w in
      subst (λ z. read_entry L table e' z old ≡ some (normal e' v')) written
        (read-same L table e' t _ old (view e' a) ∙ r)
    where
      cc' : List ℕ
      cc' = set t.c_cc i (to_byte (int_val v))

      view : (e' : Entry) → CharApart sb i e' → SameView L table e' t (record t { c_cc = cc' })
      view (bool_entry g n) a = ap (λ x. and_bits x n) (choose-cc g t cc')
      view (enum_entry g _ _ n) a = ap (λ x. and_bits x n) (choose-cc g t cc')
      view (speed_entry d) a = laws.cc_keeps_speed d cc' t
      view (char_entry j) a = get_elem?-set_ne t.c_cc i j (to_byte (int_val v)) a

  decode_step :
      (e : Entry) (v : ℤ) (es : List Entry) (vs : List ℤ) (t t' : Termios L.R)
      → decode_terminal_status L table (e ∷ es) t (v ∷ vs) ≡ decoded t'
      → (t1 : Termios L.R) × (write_entry L table e v t ≡ decoded t1)
        × (decode_terminal_status L table es t1 vs ≡ decoded t')
  unfolding decode_terminal_status
  decode_step e v es vs t t' h = by_result (write_entry L table e v t) refl
    where
      by_result :
          (r : Decoded L table)
          → write_entry L table e v t ≡ r
          → (t1 : Termios L.R) × (write_entry L table e v t ≡ decoded t1)
            × (decode_terminal_status L table es t1 vs ≡ decoded t')
      by_result (decoded t1) eq = (t1, eq, cc (rw (eq, decode_terminal_status) at h))
      by_result (refused r t1) eq = absurd (cc (rw (eq, decode_terminal_status) at h))
      by_result outside eq = absurd (cc (rw (eq, decode_terminal_status) at h))

  -- What was written before the rest of the table is read behind it.
  decode-keeps :
      (es : List Entry) (vs : List ℤ) (e : Entry) (v old : ℤ) (t t' : Termios L.R)
      → AllApart sb e v es vs
      → AllFit width es
      → HasWidth width t
      → decode_terminal_status L table es t vs ≡ decoded t'
      → read_entry L table e t old ≡ some (normal e v)
      → read_entry L table e t' old ≡ some (normal e v)
  decode-keeps [] vs e v old t t' a f w h r =
      let same : t ≡ t' = unfold decode_terminal_status in cc h in
      subst (λ z. read_entry L table e z old ≡ some (normal e v)) same r
  decode-keeps (e' ∷ es) [] e v old t t' a f w h r = absurd (unfold decode_terminal_status in cc h)
  decode-keeps (e' ∷ es) (v' ∷ vs) e v old t t' a f w h r =
      let (t1, p, q) = decode_step e' v' es vs t t' h in
      decode-keeps es vs e v old t1 t' a.1 f.1 (write-HasWidth L table sb laws width e' v' t t1 p w)
        q (write-keeps e' v' e v old t t1 a.0 f.0 w p r)

  encode_step :
      (e : Entry) (v old : ℤ) (vs : List ℤ) (es : List Entry) (dst : List ℤ) (t : Termios L.R)
      → read_entry L table e t old ≡ some v
      → encode_terminal_status L table es t dst ≡ some vs
      → encode_terminal_status L table (e ∷ es) t (old ∷ dst) ≡ some (v ∷ vs)
  unfolding encode_terminal_status
  encode_step e v old vs es dst t this rest =
      rw (this, encode_terminal_status) (rw (rest, encode_terminal_status) refl)

  -- If `decode_terminal_status` accepts the values of a terminal_io record, then
  -- `encode_terminal_status` on the terminal it leaves gives these values back, up to the wrap-around
  -- of an `int` and, in it, of a control character, and up to the representation of a Boolean.
  -- Conditions: the entries of the table use different places (two speeds are given the same `int`),
  -- no speed is named twice,
  -- the masks, values and flag words have one width, the destination has a slot for each entry, and
  -- libc keeps `SpeedLaws`.
  pub decode-encode :
      (es : List Entry) (vs dst : List ℤ) (t t' : Termios L.R)
      → Independent sb es vs
      → AllFit width es
      → HasWidth width t
      → length dst ≡ length es
      → decode_terminal_status L table es t vs ≡ decoded t'
      → encode_terminal_status L table es t' dst ≡ some (normals es vs)
  decode-encode [] vs [] t t' i f w l h = unfold encode_terminal_status in refl
  decode-encode [] vs (o ∷ dst) t t' i f w l h = absurd (omega arith)
  decode-encode (e ∷ es) vs [] t t' i f w l h = absurd (omega arith)
  decode-encode (e ∷ es) [] (o ∷ dst) t t' i f w l h =
      absurd (unfold decode_terminal_status in cc h)
  decode-encode (e ∷ es) (v ∷ vs) (o ∷ dst) t t' i f w l h =
      let (t1, p, q) = decode_step e v es vs t t' h in
      let w1 = write-HasWidth L table sb laws width e v t t1 p w in
      let rest = decode-encode es vs dst t1 t' i.1 f.1 w1 (omega arith) q in
      let this =
        decode-keeps es vs e v o t1 t' i.0 f.1 w1 q
          (write-reads L table sb laws width e v o t t1 distinct f.0 w p) in
      encode_step e (normal e v) o (normals es vs) es dst t' this rest
