-- ===== src/Termios/Table.antt =====
-- The table `terminal_io_descr` and `speedtable` of
-- src/unix/unix_c/unix_termios_conversion.c, over the platform's constants.
use lwt.Base.{ℕ, List, [], ◌∷◌, Option, none, some, length, ◌≡◌, refl}
use lwt.Termios.{
  Entry, bool_entry, enum_entry, speed_entry, char_entry, iflags, oflags, cflags, lflags, input,
  output,
}
use lwt.Termios.Bits.{Word}

pub record Constants : Type 0 where
  pub ignbrk : Word
  pub brkint : Word
  pub ignpar : Word
  pub parmrk : Word
  pub inpck : Word
  pub istrip : Word
  pub inlcr : Word
  pub igncr : Word
  pub icrnl : Word
  pub ixon : Word
  pub ixoff : Word
  pub opost : Word
  pub csize : Word
  pub cs5 : Word
  pub cs6 : Word
  pub cs7 : Word
  pub cs8 : Word
  pub no_bits : Word
  pub cstopb : Word
  pub cread : Word
  pub parenb : Word
  pub parodd : Word
  pub hupcl : Word
  pub clocal : Word
  pub isig : Word
  pub icanon : Word
  pub noflsh : Word
  pub echo : Word
  pub echoe : Word
  pub echok : Word
  pub echonl : Word
  pub vintr : ℕ
  pub vquit : ℕ
  pub verase : ℕ
  pub vkill : ℕ
  pub veof : ℕ
  pub veol : ℕ
  pub vmin : ℕ
  pub vtime : ℕ
  pub vstart : ℕ
  pub vstop : ℕ
  -- The speed `B…` of a baud rate, if the macro is defined.
  pub speed_macro : ℕ → Option ℕ

unfoldable pub terminal_io_descr : Constants → List Entry
terminal_io_descr c =
    bool_entry iflags c.ignbrk
    ∷ bool_entry iflags c.brkint
    ∷ bool_entry iflags c.ignpar
    ∷ bool_entry iflags c.parmrk
    ∷ bool_entry iflags c.inpck
    ∷ bool_entry iflags c.istrip
    ∷ bool_entry iflags c.inlcr
    ∷ bool_entry iflags c.igncr
    ∷ bool_entry iflags c.icrnl
    ∷ bool_entry iflags c.ixon
    ∷ bool_entry iflags c.ixoff
    ∷ bool_entry oflags c.opost
    ∷ speed_entry output
    ∷ speed_entry input
    ∷ enum_entry cflags 5 (c.cs5 ∷ c.cs6 ∷ c.cs7 ∷ c.cs8 ∷ []) c.csize
    ∷ enum_entry cflags 1 (c.no_bits ∷ c.cstopb ∷ []) c.cstopb
    ∷ bool_entry cflags c.cread
    ∷ bool_entry cflags c.parenb
    ∷ bool_entry cflags c.parodd
    ∷ bool_entry cflags c.hupcl
    ∷ bool_entry cflags c.clocal
    ∷ bool_entry lflags c.isig
    ∷ bool_entry lflags c.icanon
    ∷ bool_entry lflags c.noflsh
    ∷ bool_entry lflags c.echo
    ∷ bool_entry lflags c.echoe
    ∷ bool_entry lflags c.echok
    ∷ bool_entry lflags c.echonl
    ∷ char_entry c.vintr
    ∷ char_entry c.vquit
    ∷ char_entry c.verase
    ∷ char_entry c.vkill
    ∷ char_entry c.veof
    ∷ char_entry c.veol
    ∷ char_entry c.vmin
    ∷ char_entry c.vtime
    ∷ char_entry c.vstart
    ∷ char_entry c.vstop
    ∷ []

-- The baud rates in the table's order.
abbrev bauds : List ℕ
bauds =
    50 ∷ 75 ∷ 110 ∷ 134 ∷ 150 ∷ 200 ∷ 300 ∷ 600 ∷ 1200 ∷ 1800 ∷ 2400 ∷ 4800 ∷ 9600 ∷ 19200 ∷ 38400
    ∷ 57600 ∷ 115200 ∷ 230400 ∷ 0 ∷ 460800 ∷ 500000 ∷ 576000 ∷ 921600 ∷ 1000000 ∷ 1152000 ∷ 1500000
    ∷ 2000000 ∷ 2500000 ∷ 3000000 ∷ 3500000 ∷ 4000000 ∷ 7200 ∷ 14400 ∷ 28800 ∷ 76800 ∷ 128000
    ∷ 256000 ∷ []

add_defined : Option ℕ → ℕ → List (ℕ × ℕ) → List (ℕ × ℕ)
add_defined none baud rest = rest
add_defined (some s) baud rest = (s, baud) ∷ rest

defined_speeds : (ℕ → Option ℕ) → List ℕ → List (ℕ × ℕ)
unfolding add_defined
defined_speeds macro [] = []
defined_speeds macro (baud ∷ rest) = add_defined (macro baud) baud (defined_speeds macro rest)

unfoldable pub speedtable : Constants → List (ℕ × ℕ)
unfolding defined_speeds
speedtable c = defined_speeds c.speed_macro bauds

-- `NFIELDS`
abbrev pub nfields : ℕ
nfields = 38

-- The table describes as many fields as the callers make room for.
pub length-terminal_io_descr : (c : Constants) → length (terminal_io_descr c) ≡ nfields
unfolding terminal_io_descr
length-terminal_io_descr c = refl
