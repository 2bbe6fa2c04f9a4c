-- ===== src/Pool/Progress.antt =====
-- What holds in every state of the pool of src/unix/lwt_unix_stubs.c: its invariant, and that no queued
-- job is left with nobody to take it.
use lwt.Base.{ℤ, sym, ℕ, ◌+◌, ◌<◌, ◌≡◌, ◌≢◌, refl, ap, subst, List, [], ◌∷◌, Bool, arith}
use lwt.Pool.{
  initialize_threading, submit, worker_turn, takes as takes_job, initial_pool, set_pool_size,
}
use lwt.Pool.Queue.{Holds}
use lwt.Pool.System.{
  System, idle, Step, arrives, runs_here, submits, finishes, takes, blocks, wakes_takes,
  wakes_blocks, resizes, wakes_spuriously, Reach, here, later,
}
use lwt.Pool.Invariant.{CanSubmit, Inv, submit-Inv, worker_turn-Taken}
use lwt.Pool.Kept.{CanSubmit-choose, initialize-Inv, after_submit-pool, take-Inv, block-Inv}

-- Every step of the main thread and of the workers, and a wake-up with no cause, keep the invariant.
pub Step-Inv : {b : Bool} {s t : System} → Step b s t → Inv s → Inv t
unfolding set_pool_size
Step-Inv {s} (arrives m j e f) v = record {
  holds = v.holds;
  counted = v.counted;
  waiting = v.waiting;
  exists = v.exists;
  served = v.served;
  can_submit = CanSubmit-choose m j s.pool s.jobs f;
}
Step-Inv (runs_here e) v = record {
  holds = v.holds;
  counted = v.counted;
  waiting = v.waiting;
  exists = v.exists;
  served = v.served;
  can_submit = tt;
}
Step-Inv {s} (submits errno {m = m} {job = j} e h) v =
    let s' : System = record s { pool = initialize_threading s.pool } in
    subst Inv
      (after_submit-pool (submit errno j (initialize_threading s.pool)).1 j
        (submit errno j (initialize_threading s.pool)).0 (initialize_threading s.pool) s)
      (submit-Inv s' (initialize-Inv s v) errno e h)
Step-Inv {s} (finishes {n} e) v = record {
  holds = v.holds;
  counted = omega (arith, v.counted);
  waiting = v.waiting;
  exists = v.exists;
  served = λ h. omega arith;
  can_submit = v.can_submit;
}
Step-Inv {s} (takes {n} {job} {rest} e q) v = take-Inv s v job rest s.woken n q (omega arith)
Step-Inv {s} (blocks {n} e q) v = block-Inv s v s.woken n q (omega arith)
Step-Inv {s} (wakes_takes {n} {job} {rest} e q) v =
    take-Inv s v job rest n s.looking q (omega arith)
Step-Inv {s} (wakes_blocks {n} e q) v = block-Inv s v n s.looking q (omega arith)
Step-Inv {s} (wakes_spuriously {n} b e) v = record {
  holds = v.holds;
  counted = omega (arith, v.counted);
  waiting = omega (arith, v.waiting);
  exists = v.exists;
  served = λ h. omega arith;
  can_submit = v.can_submit;
}
Step-Inv {s} (resizes n e) v = record {
  holds = v.holds;
  counted = v.counted;
  waiting = v.waiting;
  exists = v.exists;
  served = v.served;
  can_submit = subst (λ m. CanSubmit m (set_pool_size n s.pool) s.jobs) (sym e) tt;
}

pub Reach-Inv : {b : Bool} {s t : System} → Inv s → Reach b s t → Inv t
Reach-Inv v here = v
Reach-Inv v (later r st) = Step-Inv st (Reach-Inv v r)

-- The program before its first job, with `n` set for the size of the pool.
abbrev pub start : ℤ → (ℕ → ℕ) → System
start n next = record {
  pool = set_pool_size n (initial_pool next);
  jobs = [];
  main = idle;
  blocked = 0;
  woken = 0;
  looking = 0;
  busy = 0;
}

pub start-Inv : (n : ℤ) (next : ℕ → ℕ) → Inv (start n next)
unfolding initial_pool set_pool_size
start-Inv n next = record {
  holds = (refl, tt);
  counted = refl;
  waiting = omega arith;
  exists = λ h. absurd (omega arith);
  served = λ h. absurd (h refl);
  can_submit = tt;
}

module _ (n : ℤ) (next : ℕ → ℕ) where
  -- In every state that the pool reaches from the start, with or without spurious wake-ups: if a
  -- job is queued, some worker is not blocked, and a worker that looks at the queue takes the job
  -- that has been in it longest.
  pub queued-served :
      {b : Bool} {x : ℕ} {xs : List ℕ} {s : System}
      → Reach b (start n next) s
      → s.jobs ≡ x ∷ xs
      → (0 < s.woken + s.looking + s.busy) × ((worker_turn s.pool).1 ≡ takes_job x)
  queued-served {x = x} {xs = xs} {s = s} r e =
      let v = Reach-Inv (start-Inv n next) r in
      let t = worker_turn-Taken s.pool x xs (subst (Holds s.pool) e v.holds) in
      let some_job : s.jobs ≢ [] = λ q. cc in (v.served some_job, ap (λ z. z.1) t.turn)
