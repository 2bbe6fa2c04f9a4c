-- ===== src/Pool/Start.antt =====
-- `lwt_unix_start_job` of src/unix/lwt_unix_stubs.c refines a description of it on the queue as a list.
use lwt.Base.{
  ℤ, ℕ, zero, suc, ◌+◌, ltb, ◌≡◌, refl, List, [], ◌∷◌, ◌++◌, Bool, true, false, arith, ◌==◌, ◌-◌,
  not, sym, ap, ◌&&◌, unix_error, Outcome, returned, raised, ◌∙◌, if◌then◌else◌,
}
use mathlib.Core.Bool.{false≢true}
use lwt.Job.{AsyncMethod, method_none, method_detach, method_switch}
use lwt.Pool.{
  Pool, reached, choose_method, initialize_threading, enqueue, submit, Started, ran_synchronously,
  look_at_job, start_job, outcome,
}
use lwt.Pool.Queue.{Fresh, Holds, enqueue-Holds}
use lwt.Pool.Invariant.{enqueue-same, room}
use lwt.Pool.Bound.{initialize-same}

-- The pool without the way in which its queue is kept.
pub record Plain : Type 0 where
  pub jobs : List ℕ
  pub waiting : ℕ
  pub threads : ℕ
  pub size : ℤ

abbrev pub view : List ℕ → Pool → Plain
view jobs p = record {
  jobs = jobs;
  waiting = p.thread_waiting_count;
  threads = p.thread_count;
  size = p.pool_size;
}

-- A job that may be given to a thread: a waiting thread is taken first, then a new one is started if
-- the size allows it, and else the job is run at once.
abbrev pub hand_over :
    (waiting errno : ℕ) (may_start : Bool) (job : ℕ) → Plain → Plain × Outcome Started
hand_over (suc w) errno may_start job a =
    (record a { jobs = a.jobs ++ job ∷ []; waiting = w }, returned look_at_job)
hand_over zero errno false job a = (a, returned ran_synchronously)
hand_over zero zero true job a = (record a { threads = suc a.threads }, returned look_at_job)
hand_over zero (suc e) true job a = (a, raised (unix_error (suc e) "launch_thread" ""))

abbrev pub meant : AsyncMethod → (errno job : ℕ) → Plain → Plain × Outcome Started
meant method_none errno job a = (a, returned ran_synchronously)
meant _ errno job a = hand_over a.waiting errno (ltb a.threads (room a.size)) job a

-- The pool and outcome that the code leaves are those that are meant.
abbrev pub Refines : Pool × Outcome Started → Plain × Outcome Started → Type 0
Refines (q, o) (a, meant_outcome) = Holds q a.jobs × (view a.jobs q ≡ a) × (o ≡ meant_outcome)

view-same :
    (q : Pool) (a : Plain)
    → q.thread_waiting_count ≡ a.waiting
    → q.thread_count ≡ a.threads
    → q.pool_size ≡ a.size
    → view a.jobs q ≡ a
view-same q a w t s i = record { jobs = a.jobs; waiting = w i; threads = t i; size = s i }

initialize-Holds : (p : Pool) (jobs : List ℕ) → Holds p jobs → Holds (initialize_threading p) jobs
unfolding initialize_threading
initialize-Holds p jobs h = go p.threading_initialized
  where
    go : (b : Bool) → Holds (if b then p else record p { threading_initialized = true }) jobs
    go true = h
    go false = h

module _ (errno job : ℕ) (jobs : List ℕ) (p : Pool) (h : Holds p jobs)
    (fresh : Fresh job jobs) where
  -- What `lwt_unix_start_job` does once the method is chosen.
  abbrev submitted : AsyncMethod → Pool × Outcome Started
  submitted k = elim k [
    | method_none ↦ (p, returned ran_synchronously)
    | _ ↦ let (q, s) = submit errno job (initialize_threading p) in (q, outcome s)
  ]

  enqueues :
      (w : ℕ)
      → p.thread_waiting_count ≡ suc w
      → Refines
          (let (r, s) = submit errno job (initialize_threading p) in (r, outcome s))
          (record (view jobs p) { jobs = jobs ++ job ∷ []; waiting = w }, returned look_at_job)
  unfolding submit
  enqueues w e =
      let same = initialize-same p in
      let some_wait : ((initialize_threading p).thread_waiting_count == 0) ≡ false =
        ground (arith, same.2) in
      let e_same = enqueue-same job (initialize_threading p) in
      rw some_wait (
        enqueue-Holds job jobs (initialize_threading p) fresh (initialize-Holds p jobs h),
        view-same
            (record (enqueue job (initialize_threading p)) {
              thread_waiting_count =
                  (enqueue job (initialize_threading p)).thread_waiting_count - 1;
            })
            _ (omega (arith, e_same.0, same.2)) (e_same.1 ∙ same.1) (e_same.2 ∙ same.0),
        refl,
      )

  starts :
      p.thread_waiting_count ≡ 0
      → errno ≡ 0
      → Refines
          (let (r, s) = submit errno job (initialize_threading p) in (r, outcome s))
          (record (view jobs p) { threads = suc p.thread_count }, returned look_at_job)
  unfolding submit
  starts e ok =
      let same = initialize-same p in
      let none_waits : ((initialize_threading p).thread_waiting_count == 0) ≡ true =
        ground (arith, same.2) in
      let no_error : (errno == 0) ≡ true = ground arith in
      rw (none_waits, no_error)
        (
          initialize-Holds p jobs h,
          view-same
              (record (initialize_threading p) {
                thread_count = (initialize_threading p).thread_count + 1;
              })
              _ same.2 (omega (arith, same.1)) same.0,
          refl,
        )

  fails :
      p.thread_waiting_count ≡ 0
      → (c : ℕ) → errno ≡ suc c
      → Refines
          (let (r, s) = submit errno job (initialize_threading p) in (r, outcome s))
          (view jobs p, raised (unix_error (suc c) "launch_thread" ""))
  unfolding submit
  fails e c bad =
      let same = initialize-same p in
      let none_waits : ((initialize_threading p).thread_waiting_count == 0) ≡ true =
        ground (arith, same.2) in
      let error : (errno == 0) ≡ false = ground arith in
      rw (none_waits, error)
        (
          initialize-Holds p jobs h,
          view-same (initialize_threading p) _ same.2 same.1 same.0,
          ap (λ z. raised (unix_error z "launch_thread" "")) bad,
        )

  hands :
      (w e : ℕ) (may : Bool)
      → p.thread_waiting_count ≡ w
      → errno ≡ e
      → (w ≡ 0 → may ≡ true)
      → Refines
          (let (r, s) = submit errno job (initialize_threading p) in (r, outcome s))
          (hand_over w e may job (view jobs p))
  hands (suc w) e may h1 h2 ok = enqueues w h1
  hands zero e false h1 h2 ok = absurd (false≢true (ok refl))
  hands zero zero true h1 h2 ok = starts h1 h2
  hands zero (suc c) true h1 h2 ok = fails h1 c h2

  runs_here :
      (w e : ℕ) (may : Bool)
      → w ≡ 0
      → may ≡ false
      → Refines (p, returned ran_synchronously) (hand_over w e may job (view jobs p))
  runs_here (suc w) e may h1 h2 = absurd (omega arith)
  runs_here zero e true h1 h2 = absurd (false≢true (sym h2))
  runs_here zero e false h1 h2 = (h, refl, refl)

  -- Whether a thread may be started, and whether the job is run here, by the test of the code.
  may_start : ltb p.thread_count (room p.pool_size) ≡ not (reached p.pool_size p.thread_count)
  may_start = by_size p.pool_size p.thread_count
    where
      by_size : (size : ℤ) (c : ℕ) → ltb c (room size) ≡ not (reached size c)
      by_size (ℤ.pos n) c = ground arith
      by_size (ℤ.negsuc n) c = ground arith

-- The fallback test.
abbrev at_limit : Pool → Bool
at_limit p = (p.thread_waiting_count == 0) && reached p.pool_size p.thread_count

kept_here :
    (errno job : ℕ) (jobs : List ℕ) (p : Pool)
    → Holds p jobs
    → Fresh job jobs
    → at_limit p ≡ true
    → Refines
        (p, returned ran_synchronously)
        (hand_over p.thread_waiting_count errno
          (ltb p.thread_count (room p.pool_size))
          job
          (view jobs p))
kept_here errno job jobs p h f full =
    let may = may_start errno job jobs p h f in
    runs_here errno job jobs p h f p.thread_waiting_count errno
      (ltb p.thread_count (room p.pool_size)) (ground arith) (ground (arith, may))

handed :
    (errno job : ℕ) (jobs : List ℕ) (p : Pool)
    → Holds p jobs
    → Fresh job jobs
    → at_limit p ≡ false
    → Refines (let (r, s) = submit errno job (initialize_threading p) in (r, outcome s)) (
        hand_over p.thread_waiting_count errno
          (ltb p.thread_count (room p.pool_size))
          job
          (view jobs p))
handed errno job jobs p h f free =
    let may = may_start errno job jobs p h f in
    hands errno job jobs p h f p.thread_waiting_count errno (ltb p.thread_count (room p.pool_size))
      refl refl (λ z. ground (arith, may))

-- `lwt_unix_start_job` refines the description of it on the queue as a list: with the method for
-- synchronous runs, or where no thread waits and the size allows no further one, it runs the job at
-- once and leaves the pool; else, where a thread waits, it puts the job behind the queued jobs and
-- counts that thread no longer; else it starts one thread for it, or, if that fails, raises the
-- error of the launch and leaves queue and counters. Conditions: the list holds the queued jobs, and
-- the job is not one of them.
pub start_job-Refines :
    (m : AsyncMethod) (errno job : ℕ) (jobs : List ℕ) (p : Pool)
    → Holds p jobs
    → Fresh job jobs
    → Refines (start_job m errno job p) (meant m errno job (view jobs p))
unfolding start_job choose_method
start_job-Refines method_none errno job jobs p h f = (h, refl, refl)
start_job-Refines method_detach errno job jobs p h f = by_test (at_limit p) refl
  where
    by_test :
        (b : Bool)
        → at_limit p ≡ b
        → Refines
            (submitted errno job jobs p h f (if b then method_none else method_detach))
            (meant method_detach errno job (view jobs p))
    by_test true full = kept_here errno job jobs p h f full
    by_test false free = handed errno job jobs p h f free
start_job-Refines method_switch errno job jobs p h f = by_test (at_limit p) refl
  where
    by_test :
        (b : Bool)
        → at_limit p ≡ b
        → Refines
            (submitted errno job jobs p h f (if b then method_none else method_switch))
            (meant method_switch errno job (view jobs p))
    by_test true full = kept_here errno job jobs p h f full
    by_test false free = handed errno job jobs p h f free
