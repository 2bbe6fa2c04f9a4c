-- ===== src/Pool/Kept.antt =====
-- The invariant of the pool of src/unix/lwt_unix_stubs.c through the steps of its workers, and through
-- what the main thread does before its critical section.
use lwt.Base.{
  ℕ, suc, ◌+◌, ◌≤◌, ◌≡◌, refl, ap, subst, List, [], ◌∷◌, Bool, true, false, arith, inl, inr, ◌==◌,
  Bool-cases, if◌then◌else◌,
}
use lwt.Job.{AsyncMethod, method_none, method_detach, method_switch}
use lwt.Pool.{
  Pool, reached, choose_method, initialize_threading, Submission, launched, enqueued, launch_failed,
  worker_turn,
}
use lwt.Pool.Queue.{Fresh, Holds}
use lwt.Pool.System.{System, MainPc, idle, decided, after_submit}
use lwt.Pool.Invariant.{room, reached-room, CanSubmit, Inv, worker_turn-empty, worker_turn-Taken}

-- `initialize_threading` changes neither the queue nor the counters.
pub initialize-Inv : (s : System) → Inv s → Inv (record s { pool = initialize_threading s.pool })
unfolding initialize_threading
initialize-Inv s v = go s.pool.threading_initialized
  where
    recheck :
        (m : MainPc)
        → CanSubmit m s.pool s.jobs
        → CanSubmit m (record s.pool { threading_initialized = true }) s.jobs
    recheck idle c = c
    recheck (decided method_none j) c = c
    recheck (decided method_detach j) c = c
    recheck (decided method_switch j) c = c

    go :
        (b : Bool)
        → Inv (record s {
          pool = (if b then s.pool else record s.pool { threading_initialized = true });
        })
    go true = v
    go false = record {
      holds = v.holds;
      counted = v.counted;
      waiting = v.waiting;
      exists = v.exists;
      served = v.served;
      can_submit = recheck s.main v.can_submit;
    }

pub after_submit-pool :
    (r : Submission) (j : ℕ) (p q : Pool) (s : System)
    → after_submit r j p (record s { pool = q }) ≡ after_submit r j p s
after_submit-pool launched j p q s = refl
after_submit-pool enqueued j p q s = refl
after_submit-pool (launch_failed e) j p q s = refl

-- The main thread's plan survives what workers do: they take jobs away, and the number that wait
-- falls only in its own critical section.
pub CanSubmit-keeps :
    (m : MainPc) (p q : Pool) (jobs : List ℕ)
    → p.thread_waiting_count ≤ q.thread_waiting_count
    → q.thread_count ≡ p.thread_count
    → q.pool_size ≡ p.pool_size
    → CanSubmit m p jobs
    → CanSubmit m q jobs
CanSubmit-keeps idle p q jobs w t z c = tt
CanSubmit-keeps (decided method_none j) p q jobs w t z c = c
CanSubmit-keeps (decided method_detach j) p q jobs w t z c = (c.0, ground (arith, ap room z))
CanSubmit-keeps (decided method_switch j) p q jobs w t z c = (c.0, ground (arith, ap room z))

CanSubmit-tail :
    (m : MainPc) (p : Pool) (x : ℕ) (xs : List ℕ) → CanSubmit m p (x ∷ xs) → CanSubmit m p xs
CanSubmit-tail idle p x xs c = tt
CanSubmit-tail (decided method_none j) p x xs c = c.1
CanSubmit-tail (decided method_detach j) p x xs c = (c.0.1, c.1)
CanSubmit-tail (decided method_switch j) p x xs c = (c.0.1, c.1)

pub CanSubmit-choose :
    (m : AsyncMethod) (j : ℕ) (p : Pool) (jobs : List ℕ)
    → Fresh j jobs
    → CanSubmit (decided (choose_method m p) j) p jobs
unfolding choose_method
CanSubmit-choose method_none j p jobs f = f
CanSubmit-choose method_detach j p jobs f = elim (Bool-cases (p.thread_waiting_count == 0)) [
  | inl none_waits ↦ elim (Bool-cases (reached p.pool_size p.thread_count)) [
    | inl full ↦ rw (none_waits, full) f
    | inr free ↦ rw (none_waits, free) (f, inr (reached-room p.pool_size p.thread_count free))
  ]
  | inr some_wait ↦ rw some_wait (f, inl (ground arith))
]
CanSubmit-choose method_switch j p jobs f = elim (Bool-cases (p.thread_waiting_count == 0)) [
  | inl none_waits ↦ elim (Bool-cases (reached p.pool_size p.thread_count)) [
    | inl full ↦ rw (none_waits, full) f
    | inr free ↦ rw (none_waits, free) (f, inr (reached-room p.pool_size p.thread_count free))
  ]
  | inr some_wait ↦ rw some_wait (f, inl (ground arith))
]

module _ (s : System) (v : Inv s) where
  pub take-Inv :
      (x : ℕ) (xs : List ℕ) (woken looking : ℕ)
      → s.jobs ≡ x ∷ xs
      → woken + looking + 1 ≡ s.woken + s.looking
      → Inv (record s {
        pool = (worker_turn s.pool).0;
        jobs = xs;
        woken = woken;
        looking = looking;
        busy = suc s.busy;
      })
  take-Inv x xs woken looking e n =
      let t = worker_turn-Taken s.pool x xs (subst (Holds s.pool) e v.holds) in
      record {
        holds = t.left;
        counted = omega (arith, t.same_count, v.counted);
        waiting = omega (arith, t.same_waiting, v.waiting);
        exists = λ w.
            omega (arith, t.same_count, t.same_waiting, v.exists (omega (arith, t.same_waiting)));
        served = λ h. omega arith;
        can_submit =
            CanSubmit-keeps s.main s.pool (worker_turn s.pool).0 xs (omega (arith, t.same_waiting))
              t.same_count t.same_size
              (CanSubmit-tail s.main s.pool x xs (subst (CanSubmit s.main s.pool) e v.can_submit));
      }

  pub block-Inv :
      (woken looking : ℕ)
      → s.jobs ≡ []
      → woken + looking + 1 ≡ s.woken + s.looking
      → Inv (record s {
        pool = (worker_turn s.pool).0;
        woken = woken;
        looking = looking;
        blocked = suc s.blocked;
      })
  block-Inv woken looking e n =
      rw (worker_turn-empty s.pool (subst (Holds s.pool) e v.holds)) (record {
        holds = v.holds;
        counted = omega (arith, v.counted);
        waiting = omega (arith, v.waiting);
        exists = λ _. omega (arith, v.counted);
        served = λ h. absurd (h e);
        can_submit = CanSubmit-keeps s.main s.pool _ s.jobs (omega arith) refl refl v.can_submit;
      })
