-- ===== src/Pool/Invariant.antt =====
-- The invariant of the pool of src/unix/lwt_unix_stubs.c, and that each critical section keeps it.
use lwt.Base.{
  ℤ, pos, negsuc, false, ℕ, zero, suc, ◌+◌, ◌-◌, ◌≤◌, ◌<◌, ◌≡◌, ◌≢◌, refl, subst, List, [], ◌∷◌,
  some, arith, ◌⊎◌, inl, inr, ◌==◌, Bool-cases,
}
use lwt.Job.{AsyncMethod, method_none, method_detach, method_switch}
use lwt.Pool.{
  Pool, reached, submit, launched, enqueued, launch_failed, worker_turn, enqueue, dequeue, waits,
  takes as takes_job,
}
use lwt.Pool.Queue.{Fresh, Holds, enqueue-Holds, dequeue-Holds, dequeue-empty}
use lwt.Pool.System.{System, MainPc, idle, decided, signal_blocked, signal_woken, after_submit}

-- The number of threads that a size allows.
abbrev pub room : ℤ → ℕ
room (pos n) = n
room (negsuc n) = 0

pub reached-room : (size : ℤ) (c : ℕ) → reached size c ≡ false → c < room size
reached-room (pos n) c e = ground arith
reached-room (negsuc n) c e = absurd (cc e)

-- The main thread means to hand a job over: a worker waits, or one more may be started.
abbrev pub CanSubmit : MainPc → Pool → List ℕ → Type 0
CanSubmit idle p jobs = Unit
CanSubmit (decided method_none job) p jobs = Fresh job jobs
CanSubmit (decided _ job) p jobs =
    Fresh job jobs × ((0 < p.thread_waiting_count) ⊎ (p.thread_count < room p.pool_size))

pub record Inv (s : System) : Type 0 where
  pub holds : Holds s.pool s.jobs
  pub counted : s.pool.thread_count ≡ s.blocked + s.woken + s.looking + s.busy
  pub waiting : s.blocked ≤ s.pool.thread_waiting_count
  pub exists : 0 < s.pool.thread_waiting_count → 0 < s.pool.thread_count
  pub served : s.jobs ≢ [] → 0 < s.woken + s.looking + s.busy
  pub can_submit : CanSubmit s.main s.pool s.jobs

-- The pool after a worker has found the queue empty, and after it has taken the first job.
pub worker_turn-empty :
    (p : Pool)
    → Holds p []
    → worker_turn p ≡ (record p { thread_waiting_count = p.thread_waiting_count + 1 }, waits)
unfolding worker_turn
worker_turn-empty p h = rw (dequeue-empty p h, worker_turn)

pub record Taken (p q : Pool) (x : ℕ) (xs : List ℕ) : Type 0 where
  pub turn : worker_turn p ≡ (q, takes_job x)
  pub left : Holds q xs
  pub same_waiting : q.thread_waiting_count ≡ p.thread_waiting_count
  pub same_count : q.thread_count ≡ p.thread_count
  pub same_size : q.pool_size ≡ p.pool_size

dequeue-same :
    (p q : Pool) (x : ℕ)
    → dequeue p ≡ some (x, q)
    → (q.thread_waiting_count ≡ p.thread_waiting_count)
      × (q.thread_count ≡ p.thread_count)
      × (q.pool_size ≡ p.pool_size)
unfolding dequeue
dequeue-same p q x e = ground arith

pub worker_turn-Taken :
    (p : Pool) (x : ℕ) (xs : List ℕ) → Holds p (x ∷ xs) → Taken p (worker_turn p).0 x xs
unfolding worker_turn
worker_turn-Taken p x xs h =
    let (q, e, l) = dequeue-Holds x xs p h in
    rw (e, worker_turn)
      (record {
        turn = rw (e, worker_turn);
        left = l;
        same_waiting = (dequeue-same p q x e).0;
        same_count = (dequeue-same p q x e).1;
        same_size = (dequeue-same p q x e).2;
      })

pub enqueue-same :
    (j : ℕ) (p : Pool)
    → ((enqueue j p).thread_waiting_count ≡ p.thread_waiting_count)
      × ((enqueue j p).thread_count ≡ p.thread_count)
      × ((enqueue j p).pool_size ≡ p.pool_size)
unfolding enqueue
enqueue-same j p = ground arith

pub CanSubmit-Fresh :
    (m : AsyncMethod) (j : ℕ) (p : Pool) (jobs : List ℕ)
    → m ≢ method_none
    → CanSubmit (decided m j) p jobs
    → Fresh j jobs × ((0 < p.thread_waiting_count) ⊎ (p.thread_count < room p.pool_size))
CanSubmit-Fresh method_none j p jobs h c = absurd (h refl)
CanSubmit-Fresh method_detach j p jobs h c = c
CanSubmit-Fresh method_switch j p jobs h c = c

-- A signal moves one thread, if one is blocked; the rest of the workers are awake already.
signal_moves :
    (b w r : ℕ)
    → 0 < b + w + r
    → (signal_blocked b + signal_woken b w ≡ b + w) × (0 < signal_woken b w + r)
signal_moves zero w r h = omega arith
signal_moves (suc b) w r h = omega arith

module _ (s : System) (v : Inv s) where
  enqueued-Inv :
      (j : ℕ)
      → Fresh j s.jobs
      → 0 < s.pool.thread_waiting_count
      → Inv (
          after_submit enqueued j
            (record (enqueue j s.pool) {
              thread_waiting_count = (enqueue j s.pool).thread_waiting_count - 1;
            })
            s)
  enqueued-Inv j f w =
      let same = enqueue-same j s.pool in
      let some_thread : 0 < s.blocked + s.woken + (s.looking + s.busy) =
        omega (arith, v.exists w, v.counted) in
      let moved = signal_moves s.blocked s.woken (s.looking + s.busy) some_thread in
      record {
        holds = enqueue-Holds j s.jobs s.pool f v.holds;
        counted = omega (arith, same.1, v.counted, moved.0);
        waiting = omega (arith, same.0, v.waiting);
        exists = λ _. omega (arith, enqueue-same j s.pool, v.exists w);
        served = λ h. omega (arith, moved.1);
        can_submit = tt;
      }

  launched-Inv :
      (j : ℕ)
      → s.pool.thread_count < room s.pool.pool_size
      → Inv (after_submit launched j (record s.pool { thread_count = s.pool.thread_count + 1 }) s)
  launched-Inv j f = record {
    holds = v.holds;
    counted = omega (arith, v.counted);
    waiting = v.waiting;
    exists = λ w. omega arith;
    served = λ h. omega arith;
    can_submit = tt;
  }

  failed-Inv : (j e : ℕ) → Inv (after_submit (launch_failed e) j s.pool s)
  failed-Inv j e = record {
    holds = v.holds;
    counted = v.counted;
    waiting = v.waiting;
    exists = v.exists;
    served = v.served;
    can_submit = tt;
  }

  pub submit-Inv :
      (errno : ℕ) {m : AsyncMethod} {j : ℕ}
      → s.main ≡ decided m j
      → m ≢ method_none
      → Inv (after_submit (submit errno j s.pool).1 j (submit errno j s.pool).0 s)
  unfolding submit
  submit-Inv errno {m} {j} e h =
      let c =
        CanSubmit-Fresh m j s.pool s.jobs h
          (subst (λ x. CanSubmit x s.pool s.jobs) e v.can_submit) in
      elim (Bool-cases (s.pool.thread_waiting_count == 0)) [
        | inl none_waits ↦ elim (Bool-cases (errno == 0)) [
          | inl ok ↦ rw (none_waits, ok) (launched-Inv j (ground (arith, c.1)))
          | inr bad ↦ rw (none_waits, bad) (failed-Inv j errno)
        ]
        | inr some_wait ↦ rw some_wait (enqueued-Inv j c.0 (ground arith))
      ]
