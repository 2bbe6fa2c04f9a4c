-- ===== src/Tests/TermiosTests.antt =====
-- A terminal of src/unix/unix_c/unix_termios_conversion.c with flag words of three bits, and one entry
-- of each kind.
use lwt.Base.{
  int_val, returned, ℕ, ◌≡◌, refl, ap, ◌⊎◌, List, [], ◌∷◌, some, ℤ, pos, true, false, arith, length,
  inl, inr,
}
use lwt.Termios.{
  Field, iflags, oflags, cflags, lflags, Direction, input, output, Entry, bool_entry, enum_entry,
  speed_entry, char_entry, Termios, LibC, choose_field, set_field, find_speed, write_entry, decoded,
  decode_terminal_status, encode_terminal_status,
}
use lwt.Termios.Bits.{Word, and_bits, or_bits, clear_bits, is_nonzero, word_eq}
use lwt.Termios.Written.{DistinctSpeeds}
use lwt.Termios.Frame.{SpeedLaws, AllCovered, DistinctWords}
use lwt.Termios.Jobs.{
  Device, GetJob, SetJob, worker_tcgetattr, result_tcgetattr, worker_tcsetattr, set_decoded,
  result_tcsetattr, Keeps, tcsetattr-tcgetattr,
}
use lwt.Termios.RoundTrip.{decode-encode, AllFit, Independent}

abbrev speed_at : Direction → ℕ × ℕ → ℕ
speed_at input s = s.0
speed_at output s = s.1

abbrev speeds_with : Direction → ℕ → ℕ × ℕ → ℕ × ℕ
speeds_with input n s = (n, s.1)
speeds_with output n s = (s.0, n)

-- The two speeds stand by themselves in the structure.
abbrev libc : LibC
libc = record {
  R = ℕ × ℕ;
  einval = 22;
  cfgetspeed = λ d t. speed_at d t.others;
  cfsetspeed = λ d n t. (record t { others = speeds_with d n t.others }, pos 0);
}

abbrev no_speed_bits : Field → Word
no_speed_bits f = []

set_reads : (d : Direction) (n : ℕ) (s : ℕ × ℕ) → speed_at d (speeds_with d n s) ≡ n
set_reads input n s = refl
set_reads output n s = refl

set_other :
    (d d' : Direction) (n : ℕ) (s : ℕ × ℕ)
    → (speed_at d' (speeds_with d n s) ≡ speed_at d' s) ⊎ (speed_at d' (speeds_with d n s) ≡ n)
set_other input input n s = inr refl
set_other input output n s = inl refl
set_other output input n s = inl refl
set_other output output n s = inr refl

choose-others :
    (f : Field) (t : Termios (ℕ × ℕ)) (s : ℕ × ℕ)
    → choose_field f (record t { others = s }) ≡ choose_field f t
unfolding choose_field
choose-others iflags t s = refl
choose-others oflags t s = refl
choose-others cflags t s = refl
choose-others lflags t s = refl

set_field-others :
    (f : Field) (w : Word) (t : Termios (ℕ × ℕ)) → (set_field f w t).others ≡ t.others
unfolding set_field
set_field-others iflags w t = refl
set_field-others oflags w t = refl
set_field-others cflags w t = refl
set_field-others lflags w t = refl

laws : SpeedLaws libc no_speed_bits
laws = record {
  set_reads = λ d n t ok. set_reads d n t.others;
  set_other = λ d d' n t ok. set_other d d' n t.others;
  set_keeps_bits =
      λ d n t f m apart. ap (λ w. and_bits w m) (choose-others f t (speeds_with d n t.others));
  set_keeps_width = λ d n t f. ap length (choose-others f t (speeds_with d n t.others));
  set_keeps_cc = λ d n t. refl;
  bits_keep_speed = λ d f w t same. ap (speed_at d) (set_field-others f w t);
  cc_keeps_speed = λ d cc t. refl;
}

abbrev speeds : List (ℕ × ℕ)
speeds = (1, 50) ∷ (2, 75) ∷ (3, 9600) ∷ []

abbrev low : Word
low = true ∷ false ∷ false ∷ []

abbrev size_mask : Word
size_mask = false ∷ true ∷ true ∷ []

abbrev sizes : List Word
sizes =
    (false ∷ false ∷ false ∷ [])
    ∷ (false ∷ true ∷ false ∷ [])
    ∷ (false ∷ false ∷ true ∷ [])
    ∷ (false ∷ true ∷ true ∷ [])
    ∷ []

abbrev entries : List Entry
entries =
    bool_entry cflags low
    ∷ enum_entry cflags 5 sizes size_mask
    ∷ speed_entry output
    ∷ speed_entry input
    ∷ char_entry 1
    ∷ []

-- The output speed is 2^32 + 9600, which an `int` takes for 9600.
abbrev wanted : List ℤ
wanted = pos 1 ∷ pos 7 ∷ pos 4294976896 ∷ pos 9600 ∷ pos 260 ∷ []

abbrev zeros : Word
zeros = false ∷ false ∷ false ∷ []

abbrev before : Termios (ℕ × ℕ)
before = record {
  c_iflag = zeros;
  c_oflag = zeros;
  c_cflag = false ∷ true ∷ false ∷ [];
  c_lflag = zeros;
  c_cc = 3 ∷ 28 ∷ [];
  others = (1, 1);
}

abbrev after : Termios (ℕ × ℕ)
after = record before { c_cflag = true ∷ false ∷ true ∷ []; c_cc = 3 ∷ 4 ∷ []; others = (3, 3) }

decode_run : decode_terminal_status libc speeds entries before wanted ≡ decoded after
unfolding decode_terminal_status write_entry choose_field set_field or_bits clear_bits find_speed
    int_val
decode_run = refl

distinct : DistinctSpeeds speeds
distinct = (((λ e. omega arith), ((λ e. omega arith), tt)), (((λ e. omega arith), tt), (tt, tt)))

independent : Independent no_speed_bits entries wanted
unfolding int_val
independent = (
  (inr (refl, (refl, (refl, (refl, tt)))), (tt, (tt, (tt, tt)))),
  ((tt, (tt, (tt, tt))), ((refl, (tt, tt)), ((tt, tt), (tt, tt)))),
)

covered : AllCovered 3 size_mask sizes
covered = (
  refl,
  (refl, (refl, (refl, tt))),
  (
    refl,
    (refl, (refl, (refl, tt))),
    (refl, (refl, (refl, (refl, tt))), (refl, (refl, (refl, (refl, tt))), tt)),
  ),
)

distinct_sizes : DistinctWords sizes
unfolding word_eq
distinct_sizes = ((refl, (refl, (refl, tt))), ((refl, (refl, tt)), ((refl, tt), (tt, tt))))

fits : AllFit 3 entries
unfolding is_nonzero
fits = ((refl, refl), ((refl, covered, distinct_sizes), (tt, (tt, (tt, tt)))))

decode-encode_example :
    encode_terminal_status libc speeds entries after (pos 0 ∷ pos 0 ∷ pos 0 ∷ pos 0 ∷ pos 0 ∷ [])
    ≡ some (pos 1 ∷ pos 7 ∷ pos 9600 ∷ pos 9600 ∷ pos 4 ∷ [])
unfolding int_val
decode-encode_example =
    decode-encode libc speeds no_speed_bits laws 3 distinct entries wanted
      (pos 0 ∷ pos 0 ∷ pos 0 ∷ pos 0 ∷ pos 0 ∷ []) before after independent fits
      (refl, refl, refl, refl) refl decode_run

-- A terminal that keeps what it is given.
abbrev terminal : Device libc speeds entries
terminal = record {
  D = Termios (ℕ × ℕ);
  tcgetattr = λ fd d. ((pos 0, 0), d);
  tcsetattr = λ fd when t d. ((pos 0, 0), t);
  speed_errno = 22;
}

abbrev setting : SetJob libc speeds entries terminal
setting = record { fd = 0; when = 0; termios = wanted; result = pos 0; error_code = 0 }

abbrev getting : GetJob libc speeds entries terminal
getting = record { fd = 0; termios = before; result = pos 0; error_code = 0 }

setting_run : worker_tcsetattr libc speeds entries terminal setting before ≡ some (setting, after)
unfolding worker_tcsetattr set_decoded decode_terminal_status write_entry choose_field set_field
    or_bits clear_bits find_speed int_val
setting_run = refl

setting_returned : result_tcsetattr libc speeds entries terminal setting ≡ returned tt
unfolding result_tcsetattr
setting_returned = refl

terminal-Keeps : Keeps libc speeds entries terminal no_speed_bits laws 3 distinct
terminal-Keeps fd when t d ok = (refl, refl)

tcsetattr-tcgetattr_example :
    result_tcgetattr libc speeds entries terminal
      (worker_tcgetattr libc speeds entries terminal getting after)
    ≡ returned (pos 1 ∷ pos 7 ∷ pos 9600 ∷ pos 9600 ∷ pos 4 ∷ [])
unfolding int_val
tcsetattr-tcgetattr_example =
    tcsetattr-tcgetattr libc speeds entries terminal no_speed_bits laws 3 distinct setting setting
      getting before after terminal-Keeps (refl, refl, refl, refl) independent fits refl setting_run
      setting_returned
