-- ===== src/Pool/System.antt =====
-- The main thread and the workers of src/unix/lwt_unix_stubs.c over one pool, interleaved. Workers are
-- counted by where they stand; the main thread, which holds OCaml's runtime lock, submits one job at
-- a time.
use lwt.Base.{ℤ, ℕ, zero, suc, ◌-◌, ◌≡◌, ◌≢◌, List, [], ◌∷◌, ◌++◌, Bool, true}
use lwt.Job.{AsyncMethod, method_none}
use lwt.Pool.{
  Pool, choose_method, initialize_threading, submit, Submission, launched, enqueued, launch_failed,
  worker_turn, set_pool_size,
}
use lwt.Pool.Queue.{Fresh}

pub data MainPc : Type 0 where
  idle : MainPc
  -- In `lwt_unix_start_job`, between the fallback test and the lock.
  decided : AsyncMethod → (job : ℕ) → MainPc

pub record System : Type 0 where
  pub pool : Pool
  -- The jobs in the queue, first to last.
  pub jobs : List ℕ
  pub main : MainPc
  pub blocked : ℕ  -- in `lwt_unix_condition_wait`, not woken
  pub woken : ℕ  -- woken, about to take the mutex again
  pub looking : ℕ  -- about to lock `pool_mutex`
  pub busy : ℕ  -- in `execute_job`

-- `pthread_cond_signal` wakes one blocked thread, if there is one.
abbrev pub signal_blocked : ℕ → ℕ
signal_blocked n = n - 1

abbrev pub signal_woken : ℕ → ℕ → ℕ
signal_woken zero w = w
signal_woken (suc n) w = suc w

-- The threads and the queue after the critical section of `lwt_unix_start_job`.
abbrev pub after_submit : Submission → ℕ → Pool → System → System
after_submit launched job p s = record s { pool = p; main = MainPc.idle; busy = suc s.busy }
after_submit (launch_failed e) job p s = record s { pool = p; main = MainPc.idle }
after_submit enqueued job p s = record s {
  pool = p;
  main = MainPc.idle;
  jobs = s.jobs ++ job ∷ [];
  blocked = signal_blocked s.blocked;
  woken = signal_woken s.blocked s.woken;
}

-- `spurious` says whether a wait may end with no signal, as POSIX allows.
pub data Step (spurious : Bool) (s : System) : System → Type 0 where
  arrives :
      (m : AsyncMethod) (job : ℕ)
      → s.main ≡ idle
      → Fresh job s.jobs
      → Step spurious s (record s { main = decided (choose_method m s.pool) job })
  runs_here :
      {job : ℕ} → s.main ≡ decided method_none job → Step spurious s (record s { main = idle })
  submits :
      (errno : ℕ) {m : AsyncMethod} {job : ℕ}
      → s.main ≡ decided m job
      → m ≢ method_none
      → Step spurious s (
          after_submit
            (submit errno job (initialize_threading s.pool)).1
            job
            (submit errno job (initialize_threading s.pool)).0
            s)
  finishes :
      {n : ℕ} → s.busy ≡ suc n → Step spurious s (record s { busy = n; looking = suc s.looking })
  takes :
      {n job : ℕ} {rest : List ℕ}
      → s.looking ≡ suc n
      → s.jobs ≡ job ∷ rest
      → Step spurious s
          (record s { pool = (worker_turn s.pool).0; jobs = rest; looking = n; busy = suc s.busy })
  blocks :
      {n : ℕ}
      → s.looking ≡ suc n
      → s.jobs ≡ []
      → Step spurious s
          (record s { pool = (worker_turn s.pool).0; looking = n; blocked = suc s.blocked })
  wakes_takes :
      {n job : ℕ} {rest : List ℕ}
      → s.woken ≡ suc n
      → s.jobs ≡ job ∷ rest
      → Step spurious s
          (record s { pool = (worker_turn s.pool).0; jobs = rest; woken = n; busy = suc s.busy })
  wakes_blocks :
      {n : ℕ}
      → s.woken ≡ suc n
      → s.jobs ≡ []
      → Step spurious s
          (record s { pool = (worker_turn s.pool).0; woken = n; blocked = suc s.blocked })
  -- The program sets another size of the pool, above or below the number of threads.
  resizes : (n : ℤ) → s.main ≡ idle → Step spurious s (record s { pool = set_pool_size n s.pool })
  wakes_spuriously :
      {n : ℕ}
      → spurious ≡ true
      → s.blocked ≡ suc n
      → Step spurious s (record s { blocked = n; woken = suc s.woken })

pub data Reach (spurious : Bool) (s₀ : System) : System → Type 0 where
  here : Reach spurious s₀ s₀
  later : {s t : System} → Reach spurious s₀ s → Step spurious s t → Reach spurious s₀ t
