-- ===== src/Pool/Fork.antt =====
-- `lwt_unix_reset_after_fork` of src/unix/lwt_unix_stubs.c: the pool of a child process, which has
-- only the main thread.
use lwt.Base.{ℕ, ◌+◌, ◌≤◌, ◌<◌, ◌≡◌, refl, List, [], ◌∷◌, Bool, true, arith}
use lwt.Pool.{Pool, reset_after_fork}
use lwt.Pool.System.{System, idle, Reach}
use lwt.Pool.Invariant.{Inv, room}
use lwt.Pool.Progress.{Reach-Inv}
use lwt.Pool.Bound.{largest, Reach-Bounded}

-- The child, before it submits a job.
abbrev pub child : Pool → System
child p = record {
  pool = reset_after_fork p;
  jobs = [];
  main = idle;
  blocked = 0;
  woken = 0;
  looking = 0;
  busy = 0;
}

child-Inv : (p : Pool) → p.threading_initialized ≡ true → Inv (child p)
unfolding reset_after_fork
child-Inv p e = rw e (record {
  holds = (refl, tt);
  counted = refl;
  waiting = omega arith;
  exists = λ h. absurd (omega arith);
  served = λ h. absurd (h refl);
  can_submit = tt;
})

child-count :
    (p : Pool)
    → p.threading_initialized ≡ true
    → (child p).pool.thread_count ≤ room (child p).pool.pool_size
unfolding reset_after_fork
child-count p e = rw e (omega arith)

-- After `lwt_unix_reset_after_fork` in any pool that was in use, in every state that the child
-- reaches, with changes of the size among the steps: there are as many threads as `thread_count`
-- says, at most the largest size that the child's pool has had, and if a job is queued some worker
-- is not blocked.
pub fork-pool :
    {b : Bool} (p : Pool) {s : System}
    → p.threading_initialized ≡ true
    → (r : Reach b (child p) s)
    → (s.pool.thread_count ≤ largest r)
      × (s.pool.thread_count ≡ s.blocked + s.woken + s.looking + s.busy)
      × ((x : ℕ) (xs : List ℕ) → s.jobs ≡ x ∷ xs → 0 < s.woken + s.looking + s.busy)
fork-pool p e r =
    let v = Reach-Inv (child-Inv p e) r in
    ((Reach-Bounded r (child-Inv p e) (child-count p e)).1, v.counted, λ x xs q. v.served (λ z. cc))
