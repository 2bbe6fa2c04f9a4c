-- ===== src/Job.antt =====
-- src/unix/lwt_unix.h, `struct lwt_unix_job`, and of src/unix/lwt_unix_stubs.c the parts that run one
-- job: `execute_job`, `lwt_unix_check_job`, `lwt_unix_free_job`, `lwt_unix_self_result`,
-- `lwt_unix_run_job_sync`, and the end of `lwt_unix_start_job` that looks whether the job is done.
-- Functions between a lock and an unlock of the job's mutex are the critical sections.
pub mod Handshake
pub mod Once
use lwt.Base.{ℕ, Bool, true, false, ℤ, Option, none, some}

-- `enum lwt_unix_async_method`
pub data AsyncMethod : Type 0 where
  method_none method_detach method_switch : AsyncMethod

-- `enum lwt_unix_job_state`
pub data JobState : Type 0 where
  pending running done : JobState

-- The fields that every job has. `P` is what follows the common header: the arguments and results of
-- the system call. `locked` and `mutex_live` stand for the mutex, `freed` for the block itself.
pub record Job (P : Type 0) : Type 0 where
  pub notification_id : ℤ
  pub state : JobState
  pub fast : Bool
  pub async_method : AsyncMethod
  pub mutex_live : Bool
  pub freed : Bool
  pub body : P

module _ {P : Type 0} where
  -- "Initialises job parameters" in `lwt_unix_start_job`.
  unfoldable pub prepare : AsyncMethod → Job P → Job P
  prepare m j = record j { state = pending; fast = true; async_method = m }

  -- `lwt_unix_mutex_init(&job->mutex)`
  unfoldable pub init_mutex : Job P → Job P
  init_mutex j = record j { mutex_live = true }

  -- The first critical section of `execute_job`.
  unfoldable pub mark_running : Job P → Job P
  mark_running j = record j { state = running }

  -- `job->worker(job)`
  unfoldable pub work : (P → P) → Job P → Job P
  work worker j = record j { body = worker j.body }

  -- The write at the head of the second critical section.
  unfoldable pub mark_done : Job P → Job P
  mark_done j = record j { state = done }

  -- `if (job->fast == 0)`, before the unlock.
  unfoldable pub must_notify : Job P → Bool
  must_notify j = elim j.fast [ true ↦ false | false ↦ true ]

  abbrev pub notified : Job P → Bool → Job P × Option ℤ
  notified j true = (j, some j.notification_id)
  notified j false = (j, none)

  -- `execute_job` with nobody else at work: the job after it, and the id that it notifies.
  unfoldable pub execute_job : (P → P) → Job P → Job P × Option ℤ
  unfolding mark_running work mark_done must_notify
  execute_job worker j =
      let j' = mark_done (work worker (mark_running j)) in notified j' (must_notify j')

  abbrev pub is_done : Job P → Bool
  is_done j = elim j.state [ done ↦ true | pending ↦ false | running ↦ false ]

  -- The critical section of `lwt_unix_check_job`.
  unfoldable pub stop_waiting : ℤ → Job P → Job P
  stop_waiting id j = record j { fast = false; notification_id = id }

  unfoldable pub check_job : ℤ → Job P → Job P × Bool
  unfolding stop_waiting
  check_job id j = elim j.async_method [
    | method_none ↦ (j, true)
    | method_detach ↦ (stop_waiting id j, is_done j)
    | method_switch ↦ (stop_waiting id j, is_done j)
  ]

  -- The mutex is destroyed only if it was initialised; then the block goes.
  unfoldable pub free_job : Job P → Job P
  free_job j = elim j.async_method [
    | method_none ↦ record j { freed = true }
    | method_detach ↦ record j { mutex_live = false; freed = true }
    | method_switch ↦ record j { mutex_live = false; freed = true }
  ]

  -- `lwt_unix_self_result`: the job's own function decides the value, and frees the job.
  unfoldable pub self_result : {V : Type 0} → (Job P → V) → Job P → V
  self_result result j = result j

  unfoldable pub run_job_sync : {V : Type 0} → (P → P) → (Job P → V) → Job P → V
  unfolding work
  run_job_sync worker result j = result (work worker (record j { async_method = method_none }))
