-- ===== src/Pool.antt =====
-- src/unix/lwt_unix_stubs.c, "Thread pool", "Worker loop", `lwt_unix_start_job`,
-- `lwt_unix_reset_after_fork` and "Statistics and control". Jobs are addresses; `next` is the field
-- of that name of every job in memory. What stands between a lock and an unlock of `pool_mutex` is
-- one function.
pub mod Queue
pub mod System
pub mod Invariant
pub mod Kept
pub mod Progress
pub mod Bound
pub mod Counter
pub mod Fork
pub mod Start
use lwt.Base.{
  ℤ, pos, negsuc, int_val, ℕ, ◌+◌, ◌-◌, Bool, true, false, ◌&&◌, Option, none, some, ◌==◌, leb,
  if◌then◌else◌, Exn, unix_error, Outcome, returned, raised,
}
use lwt.Job.{AsyncMethod, method_none, method_detach, method_switch}

-- The static variables. The queue points to the job that was enqueued last.
pub record Pool : Type 0 where
  pub thread_waiting_count : ℕ
  pub thread_count : ℕ
  pub pool_size : ℤ
  pub pool_queue : Option ℕ
  pub threading_initialized : Bool
  pub next : ℕ → ℕ

abbrev pub update : (ℕ → ℕ) → ℕ → ℕ → ℕ → ℕ
update f i v k = if k == i then v else f k

unfoldable pub initial_pool : (ℕ → ℕ) → Pool
initial_pool next = record {
  thread_waiting_count = 0;
  thread_count = 0;
  pool_size = pos 1000;
  pool_queue = none;
  threading_initialized = false;
  next = next;
}

unfoldable pub initialize_threading : Pool → Pool
initialize_threading p =
    if p.threading_initialized then p else record p { threading_initialized = true }

-- "Add the job at the end of the queue."
unfoldable pub enqueue : ℕ → Pool → Pool
enqueue job p = elim p.pool_queue [
  | none ↦ record p { pool_queue = some job; next = update p.next job job }
  | some last ↦ record p {
    pool_queue = some job;
    next = update (update p.next job (p.next last)) last job;
  }
]

-- "Take the first queued job" and "remove it from the queue"; `none` where the queue is empty.
unfoldable pub dequeue : Pool → Option (ℕ × Pool)
dequeue p = elim p.pool_queue [
  | none ↦ none
  | some last ↦
      let job = p.next last in
      some (
        job,
        (if p.next job == job
            then record p { pool_queue = none }
            else record p { next = update p.next last (p.next job) }),
      )
]

-- `thread_count >= pool_size`
abbrev pub reached : (pool_size : ℤ) (thread_count : ℕ) → Bool
reached (pos n) c = leb n c
reached (negsuc n) c = true

-- The fallback at the head of `lwt_unix_start_job`, which is decided without the mutex.
unfoldable pub choose_method : AsyncMethod → Pool → AsyncMethod
choose_method method_none p = method_none
choose_method m p =
    if (p.thread_waiting_count == 0) && reached p.pool_size p.thread_count then method_none else m

-- What the critical section of `lwt_unix_start_job` has done with the job.
pub data Submission : Type 0 where
  launched enqueued : Submission
  launch_failed : ℕ → Submission

-- `errno` is the result of `lwt_unix_launch_thread`: zero if the thread was started.
unfoldable pub submit : ℕ → ℕ → Pool → Pool × Submission
submit errno job p =
    if p.thread_waiting_count == 0
    then (if errno == 0
        then (record p { thread_count = p.thread_count + 1 }, launched)
        else (p, launch_failed errno))
    else (
      let q = enqueue job p in record q { thread_waiting_count = q.thread_waiting_count - 1 },
      enqueued,
    )

-- How `lwt_unix_start_job` goes on: `Val_true` after a synchronous run, or a look at the job's state.
pub data Started : Type 0 where
  ran_synchronously look_at_job : Started

abbrev outcome : Submission → Outcome Started
outcome launched = returned look_at_job
outcome enqueued = returned look_at_job
outcome (launch_failed e) = raised (unix_error e "launch_thread" "")

unfoldable pub start_job : AsyncMethod → ℕ → ℕ → Pool → Pool × Outcome Started
start_job m errno job p = elim (choose_method m p) [
  | method_none ↦ (p, returned ran_synchronously)
  | _ ↦ let (q, s) = submit errno job (initialize_threading p) in (q, outcome s)
]

-- One round of the `while (pool_queue == NULL)` of the worker loop, and what follows it: the worker
-- waits, and is counted, or has a job.
pub data Turn : Type 0 where
  waits : Turn
  takes : ℕ → Turn

unfoldable pub worker_turn : Pool → Pool × Turn
worker_turn p = elim (dequeue p) [
  | none ↦ (record p { thread_waiting_count = p.thread_waiting_count + 1 }, waits)
  | some (job, q) ↦ (q, takes job)
]

unfoldable pub reset_after_fork : Pool → Pool
reset_after_fork p =
    if p.threading_initialized
    then record p {
      thread_waiting_count = 0;
      thread_count = 0;
      pool_queue = none;
      threading_initialized = false;
    }
    else p

unfoldable pub set_pool_size : ℤ → Pool → Pool
set_pool_size n p = record p { pool_size = int_val n }
