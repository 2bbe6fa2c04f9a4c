-- ===== src/Tests/PoolTests.antt =====
-- A pool of src/unix/lwt_unix_stubs.c with one thread at most, and three jobs.
use lwt.Base.{
  pos, int_val, arith, returned, List, ℕ, ◌+◌, ◌<◌, ◌≤◌, ◌≡◌, refl, [], ◌∷◌, none, some, true,
  false,
}
use lwt.Job.{method_detach}
use lwt.Pool.{
  look_at_job, start_job, reset_after_fork, Pool, update, initial_pool, initialize_threading,
  enqueue, dequeue, choose_method, submit, worker_turn, Turn, set_pool_size,
}
use lwt.Pool.System.{
  System, idle, arrives, submits, finishes, blocks, resizes, decided, Step, Reach, here, later,
}
use lwt.Pool.Progress.{start, start-Inv, Reach-Inv, queued-served}
use lwt.Pool.Start.{Refines, start_job-Refines}
use lwt.Pool.Bound.{largest, thread_count-le, launch-le}
use lwt.Pool.Fork.{child, fork-pool}
use lwt.Pool.Counter.{Exact, Reach-start-Exact, spurious-overcounts}

abbrev self : ℕ → ℕ
self k = k

abbrev busy_pool : Pool
busy_pool = record {
  thread_waiting_count = 0;
  thread_count = 1;
  pool_size = pos 1;
  pool_queue = none;
  threading_initialized = true;
  next = self;
}

-- The worker has run the first job and sleeps.
abbrev asleep : System
asleep = record {
  pool = record busy_pool { thread_waiting_count = 1 };
  jobs = [];
  main = idle;
  blocked = 1;
  woken = 0;
  looking = 0;
  busy = 0;
}

-- A second job has been queued for it.
abbrev queued : System
queued = record asleep {
  pool = record busy_pool { pool_queue = some 4; next = update self 4 4 };
  jobs = 4 ∷ [];
  blocked = 0;
  woken = 1;
}

asleep_run : Reach false (start (pos 1) self) asleep
unfolding initial_pool set_pool_size int_val choose_method submit initialize_threading worker_turn
    dequeue
asleep_run =
    later
      (later (later (later here (arrives method_detach 3 refl tt)) (submits 0 refl (λ e. cc e)))
        (finishes refl))
      (blocks refl refl)

queued_run : Reach false (start (pos 1) self) queued
unfolding choose_method submit initialize_threading enqueue
queued_run = later (later asleep_run (arrives method_detach 4 refl tt)) (submits 0 refl (λ e. cc e))

queued-served_example :
    (0 < queued.woken + queued.looking + queued.busy) × ((worker_turn queued.pool).1 ≡ Turn.takes 4)
queued-served_example = queued-served (pos 1) self queued_run refl

-- The size is set to 0 then, below the number of threads.
abbrev shrunk : System
shrunk = record queued { pool = record queued.pool { pool_size = pos 0 } }

shrunk_run : Reach false (start (pos 1) self) shrunk
unfolding set_pool_size int_val
shrunk_run = later queued_run (resizes (pos 0) refl)

thread_count-le_example :
    (shrunk.pool.thread_count ≤ largest shrunk_run)
    × (shrunk.pool.thread_count ≡ shrunk.blocked + shrunk.woken + shrunk.looking + shrunk.busy)
thread_count-le_example = thread_count-le (pos 1) self shrunk_run

-- The first job has been decided on, and the first thread started.
abbrev arrived : System
arrived = record asleep {
  pool = record busy_pool { thread_count = 0; threading_initialized = false };
  main = decided method_detach 3;
  blocked = 0;
}

abbrev running : System
running = record asleep { pool = busy_pool; blocked = 0; busy = 1 }

arrived_run : Reach false (start (pos 1) self) arrived
unfolding initial_pool set_pool_size int_val choose_method
arrived_run = later here (arrives method_detach 3 refl tt)

first_launch : Step false arrived running
unfolding submit initialize_threading
first_launch = submits 0 refl (λ e. cc e)

launch-le_example : (running.pool.thread_count ≡ 1) × (running.pool.thread_count ≤ 1)
launch-le_example = launch-le (pos 1) self arrived_run first_launch (omega arith)

Reach-start-Exact_example : Exact queued
Reach-start-Exact_example = Reach-start-Exact (pos 1) self queued_run

spurious-overcounts_example :
    (t : System) × Reach true asleep t
    × (t.pool.thread_waiting_count ≡ 2)
    × (t.blocked ≡ asleep.blocked)
    × (t.jobs ≡ [])
spurious-overcounts_example =
    spurious-overcounts asleep 0 (Reach-Inv (start-Inv (pos 1) self) asleep_run) refl refl

-- The child of a process that had a job queued has started its first worker.
abbrev in_child : System
in_child = record {
  pool = record queued.pool { thread_count = 1; thread_waiting_count = 0; pool_queue = none };
  jobs = [];
  main = idle;
  blocked = 0;
  woken = 0;
  looking = 0;
  busy = 1;
}

in_child_run : Reach false (child queued.pool) in_child
unfolding reset_after_fork choose_method submit initialize_threading
in_child_run = later (later here (arrives method_detach 9 refl tt)) (submits 0 refl (λ e. cc e))

fork-pool_example :
    (in_child.pool.thread_count ≤ largest in_child_run)
    × (in_child.pool.thread_count
        ≡ in_child.blocked + in_child.woken + in_child.looking + in_child.busy)
    × ((x : ℕ) (xs : List ℕ)
        → in_child.jobs ≡ x ∷ xs
        → 0 < in_child.woken + in_child.looking + in_child.busy)
fork-pool_example = fork-pool queued.pool refl in_child_run

start_job-Refines_example :
    Refines
      (start_job method_detach 11 4 asleep.pool)
      (record { jobs = 4 ∷ []; waiting = 0; threads = 1; size = pos 1 }, returned look_at_job)
start_job-Refines_example = start_job-Refines method_detach 11 4 [] asleep.pool (refl, tt) tt
