-- ===== src/Pool/Bound.antt =====
-- How many threads the pool of src/unix/lwt_unix_stubs.c has, while the program changes its size.
use lwt.Base.{
  ℤ, ℕ, ◌+◌, ◌≤◌, ◌<◌, max, ◌≡◌, refl, sym, ◌∙◌, ap, subst, List, [], ◌∷◌, Bool, arith, ◌⊎◌, inl,
  inr, int_val, ◌==◌, Bool-cases,
}
use lwt.Job.{AsyncMethod}
use lwt.Pool.{
  Pool, initialize_threading, submit, Submission, launched, enqueued, launch_failed, worker_turn,
  set_pool_size, initial_pool,
}
use lwt.Pool.Queue.{Holds}
use lwt.Pool.System.{
  System, decided, after_submit, Step, arrives, runs_here, submits, finishes, takes, blocks,
  wakes_takes, wakes_blocks, resizes, wakes_spuriously, Reach, here, later,
}
use lwt.Pool.Invariant.{
  room, CanSubmit, CanSubmit-Fresh, Inv, worker_turn-Taken, worker_turn-empty, enqueue-same,
}
use lwt.Pool.Progress.{start, start-Inv, Reach-Inv}

module _ {b : Bool} where
  -- The largest size of the pool up to a step, from the largest one before it.
  abbrev pub grown : {s t : System} → Step b s t → ℕ → ℕ
  grown (resizes n e) m = max m (room (int_val n))
  grown (arrives _ _ _ _) m = m
  grown (runs_here _) m = m
  grown (submits _ _ _) m = m
  grown (finishes _) m = m
  grown (takes _ _) m = m
  grown (blocks _ _) m = m
  grown (wakes_takes _ _) m = m
  grown (wakes_blocks _ _) m = m
  grown (wakes_spuriously _ _) m = m

  -- The largest size that the pool has had in a run.
  abbrev pub largest : {s t : System} → Reach b s t → ℕ
  largest {s} here = room s.pool.pool_size
  largest (later r st) = grown st (largest r)

-- What a step does to a pool: one more thread at most, and only within the size.
abbrev pub Kept : Pool → Pool → Type 0
Kept p q =
    (q.pool_size ≡ p.pool_size)
    × ((q.thread_count ≡ p.thread_count)
        ⊎ ((q.thread_count ≡ p.thread_count + 1) × (q.thread_count ≤ room q.pool_size)))

submitted-pool : (r : Submission) (j : ℕ) (p : Pool) (s : System) → (after_submit r j p s).pool ≡ p
submitted-pool launched j p s = refl
submitted-pool enqueued j p s = refl
submitted-pool (launch_failed e) j p s = refl

pub initialize-same :
    (p : Pool)
    → ((initialize_threading p).pool_size ≡ p.pool_size)
      × ((initialize_threading p).thread_count ≡ p.thread_count)
      × ((initialize_threading p).thread_waiting_count ≡ p.thread_waiting_count)
unfolding initialize_threading
initialize-same p = ground arith

submit-Kept :
    (errno j : ℕ) (p : Pool)
    → (0 < p.thread_waiting_count) ⊎ (p.thread_count < room p.pool_size)
    → Kept p (submit errno j p).0
unfolding submit
submit-Kept errno j p c = elim (Bool-cases (p.thread_waiting_count == 0)) [
  | inl none_waits ↦ elim (Bool-cases (errno == 0)) [
    | inl ok ↦ rw (none_waits, ok) (refl, inr (refl, ground arith))
    | inr bad ↦ rw (none_waits, bad) (refl, inl refl)
  ]
  | inr some_wait ↦ rw some_wait ((enqueue-same j p).2, inl (enqueue-same j p).1)
]

taken-Kept :
    (s : System) (x : ℕ) (xs : List ℕ)
    → Inv s
    → s.jobs ≡ x ∷ xs
    → Kept s.pool (worker_turn s.pool).0
taken-Kept s x xs v e =
    let t = worker_turn-Taken s.pool x xs (subst (Holds s.pool) e v.holds) in
    (t.same_size, inl t.same_count)

blocked-Kept : (s : System) → Inv s → s.jobs ≡ [] → Kept s.pool (worker_turn s.pool).0
blocked-Kept s v e = rw (worker_turn-empty s.pool (subst (Holds s.pool) e v.holds)) (refl, inl refl)

handed-Kept :
    (errno : ℕ) (s : System) {m : AsyncMethod} {j : ℕ}
    → Inv s
    → s.main ≡ decided m j
    → (m ≡ AsyncMethod.method_none → ⊥)
    → Kept s.pool (submit errno j (initialize_threading s.pool)).0
handed-Kept errno s {m} {j} v e h =
    let q = initialize_threading s.pool in
    let same = initialize-same s.pool in
    let c =
      CanSubmit-Fresh m j s.pool s.jobs h (subst (λ x. CanSubmit x s.pool s.jobs) e v.can_submit) in
    let k = submit-Kept errno j q (ground (arith, c.1, same.0, same.1, same.2, ap room same.0)) in
    (
      k.0 ∙ same.0,
      elim k.1 [ inl z ↦ inl (z ∙ same.1) | inr z ↦ inr (omega (arith, z.0, same.1), z.1) ],
    )

unchanged : (p : Pool) → Kept p p
unchanged p = (refl, inl refl)

module _ {b : Bool} where
  -- A step keeps to the size, or changes it.
  abbrev Changed : {s t : System} → Step b s t → Type 0
  Changed {s} {t} st =
      (Kept s.pool t.pool × ((m : ℕ) → grown st m ≡ m))
      ⊎ ((t.pool.thread_count ≡ s.pool.thread_count)
          × ((m : ℕ) → grown st m ≡ max m (room t.pool.pool_size)))

  Step-Changed : {s t : System} (st : Step b s t) → Inv s → Changed st
  unfolding set_pool_size
  Step-Changed {s} (arrives m j e f) v = inl (unchanged s.pool, λ m. refl)
  Step-Changed {s} (runs_here e) v = inl (unchanged s.pool, λ m. refl)
  Step-Changed {s} (submits errno {m = m} {job = j} e h) v =
      let r = submit errno j (initialize_threading s.pool) in
      inl (
        subst (Kept s.pool) (sym (submitted-pool r.1 j r.0 s)) (handed-Kept errno s v e h),
        λ m. refl,
      )
  Step-Changed {s} (finishes e) v = inl (unchanged s.pool, λ m. refl)
  Step-Changed {s} (takes {job = x} {rest = xs} e q) v = inl (taken-Kept s x xs v q, λ m. refl)
  Step-Changed {s} (blocks e q) v = inl (blocked-Kept s v q, λ m. refl)
  Step-Changed {s} (wakes_takes {job = x} {rest = xs} e q) v =
      inl (taken-Kept s x xs v q, λ m. refl)
  Step-Changed {s} (wakes_blocks e q) v = inl (blocked-Kept s v q, λ m. refl)
  Step-Changed (resizes n e) v = inr (refl, λ m. refl)
  Step-Changed {s} (wakes_spuriously c e) v = inl (unchanged s.pool, λ m. refl)

  Step-Bounded :
      {s t : System} (st : Step b s t) (m : ℕ)
      → Inv s
      → room s.pool.pool_size ≤ m
      → s.pool.thread_count ≤ m
      → (room t.pool.pool_size ≤ grown st m) × (t.pool.thread_count ≤ grown st m)
  Step-Bounded {s} {t} st m v size count = elim (Step-Changed st v) [
    | inl (k, g) ↦ rw (g m) (
      omega (arith, ap room k.0, size),
      elim k.1 [
        | inl same ↦ omega (arith, same, count)
        | inr more ↦ omega (arith, more.1, ap room k.0, size)
      ],
    )
    | inr (same, g) ↦ rw (g m) (omega arith, omega (arith, same, count))
  ]

  pub Reach-Bounded :
      {s t : System} (r : Reach b s t)
      → Inv s
      → s.pool.thread_count ≤ room s.pool.pool_size
      → (room t.pool.pool_size ≤ largest r) × (t.pool.thread_count ≤ largest r)
  Reach-Bounded here v c = (omega arith, c)
  Reach-Bounded (later r st) v c =
      let before = Reach-Bounded r v c in
      Step-Bounded st (largest r) (Reach-Inv v r) before.0 before.1

module _ (n : ℤ) (next : ℕ → ℕ) where
  -- In every state that the pool reaches from the start, with changes of its size among the steps,
  -- `thread_count` is the number of threads that were started, and at most the largest size that
  -- the pool has had.
  pub thread_count-le :
      {b : Bool} {s : System} (r : Reach b (start n next) s)
      → (s.pool.thread_count ≤ largest r)
        × (s.pool.thread_count ≡ s.blocked + s.woken + s.looking + s.busy)
  unfolding initial_pool set_pool_size
  thread_count-le r = (
    (Reach-Bounded r (start-Inv n next) (omega arith)).1,
    (Reach-Inv (start-Inv n next) r).counted,
  )

  -- In every state that the pool reaches from the start, a step with which `thread_count` rises
  -- starts one thread, and `thread_count` is then at most the size of the pool at that time, though
  -- the test of the limit is made without the mutex.
  pub launch-le :
      {b : Bool} {s t : System}
      → Reach b (start n next) s
      → Step b s t
      → s.pool.thread_count < t.pool.thread_count
      → (t.pool.thread_count ≡ s.pool.thread_count + 1)
        × (t.pool.thread_count ≤ room t.pool.pool_size)
  launch-le r st more = elim (Step-Changed st (Reach-Inv (start-Inv n next) r)) [
    | inl (k, g) ↦ elim k.1 [ inl same ↦ absurd (omega arith) | inr one ↦ one ]
    | inr (same, g) ↦ absurd (omega arith)
  ]
