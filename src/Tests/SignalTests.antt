-- ===== src/Tests/SignalTests.antt =====
-- The signal table of src/unix/lwt_unix_stubs.c with four signals, over a system that counts its calls of
-- `sigaction` and refuses signal 2.
use lwt.Base.{
  ℕ, suc, ◌≡◌, refl, [], ◌∷◌, none, ℤ, pos, negsuc, minus_one, false, ◌==◌, if◌then◌else◌, arith,
  returned, raised, unix_error,
}
use lwt.Signal.{System, Signals, signal_id, set_signal, monitored}
use lwt.Signal.Table.{refused, set_signal-signal_id}

abbrev answer : ℤ → ℤ
answer (pos n) = if n == 2 then minus_one else pos 0
answer (negsuc n) = minus_one

abbrev counting : System
counting = record {
  State = ℕ;
  errno = λ _. 22;
  sigaction = λ n _ k. (suc k, answer n);
  convert_signal_number = λ v. v;
}

abbrev signals : Signals counting
signals = record { table = minus_one ∷ pos 8 ∷ minus_one ∷ minus_one ∷ []; os = 0 }

set_signal-signal_id_example :
    ((k : ℕ)
      → signal_id (set_signal counting (pos 2) (pos 9) false signals).0.table (pos k) ≡ (
          if k == 2
          then (if refused counting 2 false signals then none else monitored (pos 9))
          else signal_id signals.table (pos k)))
    × ((set_signal counting (pos 2) (pos 9) false signals).1 ≡ (
        if refused counting 2 false signals
        then raised (unix_error 22 "sigaction" "")
        else returned tt))
set_signal-signal_id_example =
    set_signal-signal_id counting (pos 2) (pos 9) 2 false signals refl (omega arith)
