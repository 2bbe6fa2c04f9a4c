-- ===== src/Termios.antt =====
-- src/unix/unix_c/unix_termios_conversion.c: a `struct termios` to and from the 38 fields of OCaml's
-- `Unix.terminal_io`, by a table. The platform's constants and the `cf…speed` functions are
-- parameters. An immediate OCaml value is the integer that it holds.
pub mod Bits
pub mod Table
pub mod Frame
pub mod Written
pub mod Convert
pub mod RoundTrip
pub mod Jobs
use lwt.Base.{
  ℕ, zero, suc, ◌+◌, ◌-◌, ◌%◌, ℤ, pos, negsuc, minus_one, is_minus_one, is_negative, Bool, true,
  false, List, [], ◌∷◌, Option, none, some, get_elem?, set, length, ltb, leb, ◌==◌, if◌then◌else◌,
  replicate, int_val,
}
use Bits.{Word, and_bits, or_bits, clear_bits, is_nonzero, word_eq}

-- `Iflags`, `Oflags`, `Cflags`, `Lflags`
pub data Field : Type 0 where
  iflags oflags cflags lflags : Field

pub data Direction : Type 0 where
  input output : Direction

-- One group of `terminal_io_descr`: its tag and the numbers behind it. The values of an `Enum` come
-- last in the array; here they stand before the mask.
pub data Entry : Type 0 where
  bool_entry : Field → (mask : Word) → Entry
  enum_entry : Field → (ofs : ℕ) → (values : List Word) → (mask : Word) → Entry
  speed_entry : Direction → Entry
  char_entry : ℕ → Entry

-- `R` is what else a `struct termios` holds.
pub record Termios (R : Type 0) : Type 0 where
  pub c_iflag : Word
  pub c_oflag : Word
  pub c_cflag : Word
  pub c_lflag : Word
  pub c_cc : List ℕ
  pub others : R

-- The libc functions that the conversion calls, and `EINVAL`.
pub record LibC : Type 1 where
  pub R : Type 0
  pub einval : ℕ
  pub cfgetspeed : Direction → Termios R → ℕ
  pub cfsetspeed : Direction → ℕ → Termios R → Termios R × ℤ

module _ {R : Type 0} where
  -- `choose_field`, read and written.
  unfoldable pub choose_field : Field → Termios R → Word
  choose_field iflags t = t.c_iflag
  choose_field oflags t = t.c_oflag
  choose_field cflags t = t.c_cflag
  choose_field lflags t = t.c_lflag

  unfoldable pub set_field : Field → Word → Termios R → Termios R
  set_field iflags w t = record t { c_iflag = w }
  set_field oflags w t = record t { c_oflag = w }
  set_field cflags w t = record t { c_cflag = w }
  set_field lflags w t = record t { c_lflag = w }

-- The loop over the values of an `Enum`, from index `i` on.
unfoldable pub find_value : Word → List Word → ℕ → Option ℕ
find_value w [] i = none
find_value w (v ∷ vs) i = if word_eq w v then some i else find_value w vs (i + 1)

-- `speedtable`, as pairs of a speed and its baud rate.
unfoldable pub find_baud : ℕ → List (ℕ × ℕ) → Option ℕ
find_baud speed [] = none
find_baud speed ((s, baud) ∷ rest) = if speed == s then some baud else find_baud speed rest

-- The loop over `speedtable` with `baud`, the `int` that `write_entry` reads by `Int_val`.
unfoldable pub find_speed : (baud : ℤ) → List (ℕ × ℕ) → Option ℕ
find_speed (negsuc n) table = none
find_speed (pos n) [] = none
find_speed (pos n) ((s, baud) ∷ rest) = if n == baud then some s else find_speed (pos n) rest

abbrev of_bool : Bool → ℤ
of_bool b = if b then pos 1 else pos 0

-- Whether an `int` is true.
abbrev pub bool_val : ℤ → Bool
bool_val (pos zero) = false
bool_val _ = true

-- The assignment of an `int` to an `unsigned char`.
abbrev pub to_byte : ℤ → ℕ
to_byte (pos n) = n % 256
to_byte (negsuc n) = 255 - n % 256

-- `i = n - ofs`, if it is not negative, with `n` the `int` that `write_entry` reads by `Int_val`.
abbrev pub minus_offset : (n : ℤ) (ofs : ℕ) → Option ℕ
minus_offset (negsuc n) ofs = none
minus_offset (pos n) ofs = if leb ofs n then some (n - ofs) else none

module _ (L : LibC) (speedtable : List (ℕ × ℕ)) where
  open L use {R, einval, cfgetspeed, cfsetspeed}

  -- One turn of the loop of `encode_terminal_status`: the value for `*dst`, which held `old`; `none`
  -- is an index outside `c_cc`.
  unfoldable pub read_entry : Entry → Termios R → ℤ → Option ℤ
  read_entry (bool_entry f mask) t old =
      some (of_bool (is_nonzero (and_bits (choose_field f t) mask)))
  read_entry (enum_entry f ofs values mask) t old =
      elim (find_value (and_bits (choose_field f t) mask) values 0) [
        | none ↦ some old
        | some i ↦ some (pos (i + ofs))
      ]
  read_entry (speed_entry d) t old = elim (find_baud (cfgetspeed d t) speedtable) [
    | none ↦ some (pos 9600)
    | some baud ↦ some (pos baud)
  ]
  read_entry (char_entry which) t old = elim (get_elem? t.c_cc which) [
    | none ↦ none
    | some c ↦ some (pos c)
  ]

  unfoldable pub encode_terminal_status : List Entry → Termios R → List ℤ → Option (List ℤ)
  encode_terminal_status [] t dst = some dst
  encode_terminal_status (e ∷ es) t [] = none
  encode_terminal_status (e ∷ es) t (old ∷ dst) =
      let rest = encode_terminal_status es t dst in
      elim (read_entry e t old) [
        | none ↦ none
        | some v ↦ elim rest [ none ↦ none | some vs ↦ some (v ∷ vs) ]
      ]

  -- What `decode_terminal_status` leaves: 0, or another result with what was written till then.
  pub data Decoded : Type 0 where
    decoded : Termios R → Decoded
    refused : ℤ → Termios R → Decoded
    outside : Decoded

  abbrev pub set_speed : Direction → ℕ → Termios R → Decoded
  set_speed d s t =
      let (t', res) = cfsetspeed d s t in if is_minus_one res then refused res t' else decoded t'

  -- One turn of the loop of `decode_terminal_status`: `int_val v` is `Int_val(*src)` and, as OCaml's
  -- runtime defines it so, `Bool_val(*src)`.
  unfoldable pub write_entry : Entry → ℤ → Termios R → Decoded
  write_entry (bool_entry f mask) v t =
      let w = choose_field f t in
      decoded (set_field f (if bool_val (int_val v) then or_bits w mask else clear_bits w mask) t)
  write_entry (enum_entry f ofs values mask) v t = elim (minus_offset (int_val v) ofs) [
    | none ↦ refused (pos einval) t
    | some i ↦ elim (get_elem? values i) [
      | none ↦ refused (pos einval) t
      | some x ↦ decoded (set_field f (or_bits (clear_bits (choose_field f t) mask) x) t)
    ]
  ]
  write_entry (speed_entry d) v t = elim (find_speed (int_val v) speedtable) [
    | none ↦ refused (pos einval) t
    | some s ↦ set_speed d s t
  ]
  write_entry (char_entry which) v t =
      if ltb which (length t.c_cc)
      then decoded (record t { c_cc = set t.c_cc which (to_byte (int_val v)) })
      else outside

  unfoldable pub decode_terminal_status : List Entry → Termios R → List ℤ → Decoded
  decode_terminal_status [] t src = decoded t
  decode_terminal_status (e ∷ es) t [] = outside
  decode_terminal_status (e ∷ es) t (v ∷ src) = elim (write_entry e v t) [
    | decoded t' ↦ decode_terminal_status es t' src
    | refused r t' ↦ refused r t'
    | outside ↦ outside
  ]
