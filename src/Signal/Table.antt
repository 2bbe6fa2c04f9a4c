-- ===== src/Signal/Table.antt =====
-- What the signal stubs of src/unix/lwt_unix_stubs.c do to the signals that are handled.
use lwt.Base.{
  ℕ, zero, suc, ℤ, pos, negsuc, minus_one, is_minus_one, Bool, true, false, List, [], ◌∷◌, Option,
  none, some, get_elem?, set, replicate, length, if◌then◌else◌, ◌==◌, ◌≡◌, refl, ◌<◌, arith, ap,
  returned, raised, unix_error, Bool-cases, inl, inr, invalid_argument, lt→ltb, ◌≤◌, le→ltb, not,
  ◌&&◌, ne→==,
}
use lwt.Signal.{
  signal_id, at_cell, monitored, System, Signals, set_signal, set_converted, install, remove_signal,
  remove_converted, init_signals, lwt_handler,
}

get_elem?-set :
    (table : List ℤ) (n k : ℕ) (id : ℤ)
    → n < length table
    → get_elem? (set table n id) k ≡ (if k == n then some id else get_elem? table k)
get_elem?-set [] n k id h = elim h [ ]
get_elem?-set (x ∷ xs) zero zero id h = refl
get_elem?-set (x ∷ xs) zero (suc k) id h = rw (ne→== (suc k) 0 (λ e. absurd (omega arith)))
get_elem?-set (x ∷ xs) (suc n) zero id h = rw (ne→== 0 (suc n) (λ e. absurd (omega arith)))
get_elem?-set (x ∷ xs) (suc n) (suc k) id h = ground (arith, get_elem?-set xs n k id)

at_cell-set :
    (table : List ℤ) (n k : ℕ) (id : ℤ)
    → n < length table
    → at_cell (get_elem? (set table n id) k)
      ≡ (if k == n then monitored id else at_cell (get_elem? table k))
at_cell-set table n k id h =
    rw (get_elem?-set table n k id h) (at_if (k == n) id (get_elem? table k))
  where
    at_if :
        (b : Bool) (i : ℤ) (o : Option ℤ)
        → at_cell (if b then some i else o) ≡ (if b then monitored i else at_cell o)
    at_if true i o = refl
    at_if false i o = refl

-- A second write to the same cell stands.
set-set : (table : List ℤ) (n : ℕ) (a b : ℤ) → set (set table n a) n b ≡ set table n b
set-set [] n a b = refl
set-set (x ∷ xs) zero a b = refl
set-set (x ∷ xs) (suc n) a b = ap (λ r. x ∷ r) (set-set xs n a b)

module _ (S : System) where
  open S use {errno, sigaction, convert_signal_number}

  -- Whether the call of `sigaction` is made and fails.
  abbrev pub refused : ℕ → Bool → Signals S → Bool
  refused n forwarded s = not forwarded && is_minus_one (sigaction (pos n) lwt_handler s.os).1

  install-signal_id :
      (n k : ℕ) (id : ℤ) (forwarded : Bool) (s : Signals S)
      → n < length s.table
      → signal_id (install S n id forwarded s).0.table (pos k) ≡ (
          if k == n
          then (if refused n forwarded s then none else monitored id)
          else signal_id s.table (pos k))
  unfolding install signal_id
  install-signal_id n k id true s h = at_cell-set s.table n k id h
  install-signal_id n k id false s h =
      elim (Bool-cases (is_minus_one (sigaction (pos n) lwt_handler s.os).1)) [
        | inl bad ↦ rw (bad, set-set s.table n id minus_one) (at_cell-set s.table n k minus_one h)
        | inr ok ↦ rw ok (at_cell-set s.table n k id h)
      ]

  install-outcome :
      (n : ℕ) (id : ℤ) (forwarded : Bool) (s : Signals S)
      → (install S n id forwarded s).1 ≡ (
          if refused n forwarded s
          then raised (unix_error (errno (sigaction (pos n) lwt_handler s.os).0) "sigaction" "")
          else returned tt)
  unfolding install
  install-outcome n id true s = refl
  install-outcome n id false s = ground arith

  -- After `lwt_unix_set_signal` for a number in the table, that signal sends the given id and all
  -- others what they sent before; unless `sigaction` is called and fails: then the signal sends
  -- nothing, and the stub raises its error.
  pub set_signal-signal_id :
      (v id : ℤ) (n : ℕ) (forwarded : Bool) (s : Signals S)
      → convert_signal_number v ≡ pos n
      → n < length s.table
      → ((k : ℕ)
          → signal_id (set_signal S v id forwarded s).0.table (pos k) ≡ (
              if k == n
              then (if refused n forwarded s then none else monitored id)
              else signal_id s.table (pos k)))
        × ((set_signal S v id forwarded s).1 ≡ (
            if refused n forwarded s
            then raised (unix_error (errno (sigaction (pos n) lwt_handler s.os).0) "sigaction" "")
            else returned tt))
  unfolding set_signal set_converted
  set_signal-signal_id v id n forwarded s e h =
      rw (e, lt→ltb n (length s.table) h)
        ((λ k. install-signal_id n k id forwarded s h), install-outcome n id forwarded s)

  abbrev pub IsOutside : ℤ → List ℤ → Type 0
  IsOutside (pos n) table = length table ≤ n
  IsOutside (negsuc n) table = Unit

  -- `lwt_unix_set_signal` refuses a number outside the table, negative or too large, with
  -- Invalid_argument, and nothing changes.
  pub set_signal-outside :
      (v id : ℤ) (forwarded : Bool) (s : Signals S)
      → IsOutside (convert_signal_number v) s.table
      → set_signal S v id forwarded s
        ≡ (s, raised (invalid_argument "Lwt_unix.on_signal: unavailable signal"))
  unfolding set_signal
  set_signal-outside v id forwarded s h = go (convert_signal_number v) h
    where
      go :
          (n : ℤ)
          → IsOutside n s.table
          → set_converted S n id forwarded s
            ≡ (s, raised (invalid_argument "Lwt_unix.on_signal: unavailable signal"))
      go (pos n) h = unfold set_converted in rw (le→ltb n (length s.table) h)
      go (negsuc n) h = unfold set_converted in refl

  -- `lwt_unix_remove_signal` returns, and silences that one signal, for a number in the table.
  pub remove_signal-signal_id :
      (v : ℤ) (n : ℕ) (forwarded : Bool) (s : Signals S)
      → convert_signal_number v ≡ pos n
      → n < length s.table
      → ((k : ℕ)
          → signal_id (remove_signal S v forwarded s).0.table (pos k)
            ≡ (if k == n then none else signal_id s.table (pos k)))
        × ((remove_signal S v forwarded s).1 ≡ returned tt)
  unfolding remove_signal remove_converted signal_id
  remove_signal-signal_id v n true s e h =
      rw (e, lt→ltb n (length s.table) h) ((λ k. at_cell-set s.table n k minus_one h), refl)
  remove_signal-signal_id v n false s e h =
      rw (e, lt→ltb n (length s.table) h) ((λ k. at_cell-set s.table n k minus_one h), refl)

silent : (m k : ℕ) → at_cell (get_elem? (replicate m minus_one) k) ≡ none
silent zero k = refl
silent (suc m) zero = refl
silent (suc m) (suc k) = silent m k

-- After `lwt_unix_init_signals` no number, in the table or not, sends anything.
pub init_signals-signal_id :
    (table : List ℤ) (signum : ℤ) → signal_id (init_signals table) signum ≡ none
unfolding init_signals signal_id
init_signals-signal_id table (negsuc n) = refl
init_signals-signal_id table (pos n) = silent (length table) n
