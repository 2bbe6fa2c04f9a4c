-- ===== src/Signal.antt =====
-- src/unix/lwt_unix_stubs.c, "Signals": the table from signal numbers to notification ids, and the
-- handler. The number of signals, the runtime's conversion of OCaml signal numbers and `sigaction`
-- are parameters. The handler's send is the one of `Notify`.
pub mod Table
use lwt.Base.{
  ℕ, ℤ, pos, negsuc, minus_one, is_minus_one, Bool, true, false, List, Option, none, some,
  get_elem?, set, replicate, ltb, length, if◌then◌else◌, Outcome, returned, raised, fault,
  unix_error, invalid_argument,
}
use lwt.Notify.{World, send_notification}
use lwt.Notify.Syscalls.{Kernel}

-- What `sigaction` installs.
pub data Handler : Type 0 where
  default_action lwt_handler : Handler

-- The notification that `handle_signal` sends for a signal, if any. `none` inside: a cell of -1.
abbrev pub monitored : ℤ → Option ℤ
monitored id = if is_minus_one id then none else some id

abbrev pub at_cell : Option ℤ → Option ℤ
at_cell none = none
at_cell (some id) = monitored id

-- `signum >= 0 && signum < NSIG`, with `NSIG` the length of the table.
unfoldable pub signal_id : List ℤ → ℤ → Option ℤ
signal_id table (negsuc n) = none
signal_id table (pos n) = at_cell (get_elem? table n)

module _ (K : Kernel) where
  unfoldable pub handle_signal : List ℤ → ℤ → World K → World K × Outcome (Unit {0})
  handle_signal table signum w = elim (signal_id table signum) [
    | none ↦ (w, returned tt)
    | some id ↦ send_notification K id w
  ]

-- What the signal stubs take of the operating system and of OCaml's runtime.
pub record System : Type 1 where
  pub State : Type 0
  pub errno : State → ℕ
  pub sigaction : ℤ → Handler → State → State × ℤ
  pub convert_signal_number : ℤ → ℤ

module _ (S : System) where
  open S use {State, errno, sigaction, convert_signal_number}

  pub record Signals : Type 0 where
    pub table : List ℤ
    pub os : State

  -- `lwt_unix_handle_signal`: the entry point for signals that OCaml's own handlers forward.
  unfoldable pub forwarded_signal :
      (K : Kernel) → Signals → ℤ → World K → World K × Outcome (Unit {0})
  forwarded_signal K s val_signum w = handle_signal K s.table (convert_signal_number val_signum) w

  -- The write to the table and the call of `sigaction`, for a number within the table.
  unfoldable pub install : ℕ → ℤ → Bool → Signals → Signals × Outcome (Unit {0})
  install n id forwarded s =
      let table = set s.table n id in
      let (os, ret) = sigaction (pos n) lwt_handler s.os in
      if forwarded
      then (record s { table = table }, returned tt)
      else (if is_minus_one ret
          then (
            record { table = set table n minus_one; os = os },
            raised (unix_error (errno os) "sigaction" ""),
          )
          else (record { table = table; os = os }, returned tt))

  unfoldable pub set_converted : ℤ → ℤ → Bool → Signals → Signals × Outcome (Unit {0})
  unfolding install
  set_converted (negsuc n) id forwarded s =
      (s, raised (invalid_argument "Lwt_unix.on_signal: unavailable signal"))
  set_converted (pos n) id forwarded s =
      if ltb n (length s.table)
      then install n id forwarded s
      else (s, raised (invalid_argument "Lwt_unix.on_signal: unavailable signal"))

  unfoldable pub set_signal : ℤ → ℤ → Bool → Signals → Signals × Outcome (Unit {0})
  unfolding set_converted
  set_signal val_signum id forwarded s =
      set_converted (convert_signal_number val_signum) id forwarded s

  -- No check of the number: a cell outside the table is undefined behaviour.
  unfoldable pub remove_converted : ℤ → Bool → Signals → Signals × Outcome (Unit {0})
  remove_converted (negsuc n) forwarded s = (s, fault)
  remove_converted (pos n) forwarded s =
      let table = set s.table n minus_one in
      if ltb n (length s.table)
      then (
        (if forwarded
            then record s { table = table }
            else record { table = table; os = (sigaction (pos n) default_action s.os).0 }),
        returned tt,
      )
      else (s, fault)

  unfoldable pub remove_signal : ℤ → Bool → Signals → Signals × Outcome (Unit {0})
  unfolding remove_converted
  remove_signal val_signum forwarded s =
      remove_converted (convert_signal_number val_signum) forwarded s

-- `for (i = 0; i < NSIG; i++) signal_notifications[i] = -1`
unfoldable pub init_signals : List ℤ → List ℤ
init_signals table = replicate (length table) minus_one
