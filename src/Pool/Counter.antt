-- ===== src/Pool/Counter.antt =====
-- `thread_waiting_count` of src/unix/lwt_unix_stubs.c, with and without spurious wake-ups.
use lwt.Base.{
  ℤ, ℕ, zero, suc, ◌+◌, ◌-◌, ◌≤◌, ◌<◌, ◌≡◌, refl, sym, ◌∙◌, ap, subst, List, [], ◌∷◌, ◌++◌, true,
  false, arith, length, length-append, inl, inr, ◌==◌, Bool-cases,
}
use mathlib.Core.Bool.{false≢true}
use lwt.Pool.{Pool, initialize_threading, submit, worker_turn, enqueue, initial_pool, set_pool_size}
use lwt.Pool.Queue.{Holds}
use lwt.Pool.System.{
  System, signal_blocked, signal_woken, after_submit, Step, arrives, runs_here, submits, finishes,
  takes, blocks, wakes_takes, wakes_blocks, resizes, wakes_spuriously, Reach, here, later,
}
use lwt.Pool.Invariant.{Inv, worker_turn-Taken, worker_turn-empty, enqueue-same}
use lwt.Pool.Kept.{after_submit-pool}
use lwt.Pool.Progress.{Reach-Inv, start, start-Inv}

-- With no spurious wake-up, `thread_waiting_count` is the number of blocked workers, and each queued
-- job has a woken worker of its own.
pub record Exact (s : System) : Type 0 where
  pub waiting : s.pool.thread_waiting_count ≡ s.blocked
  pub matched : length s.jobs ≤ s.woken

Exact-enqueued :
    (j : ℕ) (jobs : List ℕ) (p : Pool) (b w : ℕ)
    → p.thread_waiting_count ≡ b
    → length jobs ≤ w
    → 0 < p.thread_waiting_count
    → ((enqueue j p).thread_waiting_count - 1 ≡ signal_blocked b)
      × (length (jobs ++ j ∷ []) ≤ signal_woken b w)
Exact-enqueued j jobs p zero w e l h = absurd (omega arith)
Exact-enqueued j jobs p (suc b) w e l h =
    (omega (arith, enqueue-same j p), omega (arith, length-append jobs (j ∷ [])))

submit-Exact :
    (errno j : ℕ) (s : System)
    → Exact s
    → Exact (after_submit (submit errno j s.pool).1 j (submit errno j s.pool).0 s)
unfolding submit
submit-Exact errno j s x = elim (Bool-cases (s.pool.thread_waiting_count == 0)) [
  | inl none_waits ↦ elim (Bool-cases (errno == 0)) [
    | inl ok ↦ rw (none_waits, ok) (record { waiting = x.waiting; matched = x.matched })
    | inr bad ↦ rw (none_waits, bad) (record { waiting = x.waiting; matched = x.matched })
  ]
  | inr some_wait ↦
      let both =
        Exact-enqueued j s.jobs s.pool s.blocked s.woken x.waiting x.matched (ground arith) in
      rw some_wait (record { waiting = both.0; matched = both.1 })
]

initialize-waiting :
    (p : Pool) → (initialize_threading p).thread_waiting_count ≡ p.thread_waiting_count
unfolding initialize_threading
initialize-waiting p = ground arith

take-waiting :
    (s : System) (x : ℕ) (xs : List ℕ)
    → Inv s
    → s.jobs ≡ x ∷ xs
    → (worker_turn s.pool).0.thread_waiting_count ≡ s.pool.thread_waiting_count
take-waiting s x xs v e =
    (worker_turn-Taken s.pool x xs (subst (Holds s.pool) e v.holds)).same_waiting

block-waiting :
    (s : System)
    → Inv s
    → s.jobs ≡ []
    → (worker_turn s.pool).0.thread_waiting_count ≡ s.pool.thread_waiting_count + 1
block-waiting s v e =
    ap (λ z. z.0.thread_waiting_count) (worker_turn-empty s.pool (subst (Holds s.pool) e v.holds))

Step-Exact : {s t : System} → Step false s t → Inv s → Exact s → Exact t
unfolding set_pool_size
Step-Exact (arrives m j e f) v x = record { waiting = x.waiting; matched = x.matched }
Step-Exact (runs_here e) v x = record { waiting = x.waiting; matched = x.matched }
Step-Exact {s} (submits errno {m = m} {job = j} e h) v x =
    let q = initialize_threading s.pool in
    subst Exact (after_submit-pool (submit errno j q).1 j (submit errno j q).0 q s) (
      submit-Exact errno j (record s { pool = q })
        (record { waiting = initialize-waiting s.pool ∙ x.waiting; matched = x.matched }))
Step-Exact (finishes e) v x = record { waiting = x.waiting; matched = x.matched }
Step-Exact {s} (takes {n} {job} {rest} e q) v x = record {
  waiting = take-waiting s job rest v q ∙ x.waiting;
  matched = omega (arith, ap length q, x.matched);
}
Step-Exact {s} (blocks e q) v x = record {
  waiting = omega (arith, block-waiting s v q, x.waiting);
  matched = x.matched;
}
Step-Exact {s} (wakes_takes {n} {job} {rest} e q) v x = record {
  waiting = take-waiting s job rest v q ∙ x.waiting;
  matched = omega (arith, ap length q, x.matched);
}
Step-Exact {s} (wakes_blocks e q) v x = record {
  waiting = omega (arith, block-waiting s v q, x.waiting);
  matched = omega (arith, ap length q);
}
Step-Exact (resizes n e) v x = record { waiting = x.waiting; matched = x.matched }
Step-Exact (wakes_spuriously b e) v x = absurd (false≢true b)

Reach-Exact : {s t : System} → Inv s → Exact s → Reach false s t → Exact t
Reach-Exact v x here = x
Reach-Exact v x (later r st) = Step-Exact st (Reach-Inv v r) (Reach-Exact v x r)

-- In every state that the pool reaches from the start with no spurious wake-up,
-- `thread_waiting_count` is the number of blocked workers, and there are at least as many woken
-- workers as queued jobs.
pub Reach-start-Exact : (n : ℤ) (next : ℕ → ℕ) {s : System} → Reach false (start n next) s → Exact s
unfolding initial_pool set_pool_size
Reach-start-Exact n next r =
    Reach-Exact (start-Inv n next) (record { waiting = refl; matched = omega arith }) r

-- From a state that keeps the pool's invariant, with a blocked worker and an empty queue, a
-- spurious wake-up leads to a state in which `thread_waiting_count` is one higher, as many workers
-- are blocked and the queue is still empty.
pub spurious-overcounts :
    (s : System) (k : ℕ)
    → Inv s
    → s.blocked ≡ suc k
    → s.jobs ≡ []
    → (t : System) × Reach true s t
      × (t.pool.thread_waiting_count ≡ suc s.pool.thread_waiting_count)
      × (t.blocked ≡ s.blocked)
      × (t.jobs ≡ [])
spurious-overcounts s k v e q =
    let woken : System = record s { blocked = k; woken = suc s.woken } in
    (
      _,
      later (later here (wakes_spuriously refl e)) (wakes_blocks {n = s.woken} refl q),
      omega (arith, block-waiting s v q),
      sym e,
      q,
    )
