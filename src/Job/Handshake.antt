-- ===== src/Job/Handshake.antt =====
-- One asynchronous job of src/unix/lwt_unix_stubs.c, interleaved: the worker thread in `execute_job`,
-- and the main thread from the unlocked look at `job->state` in `lwt_unix_start_job` through
-- `run_job_aux` of src/unix/lwt_unix.cppo.ml (`check_job`, then the notification) to the release.
use lwt.Base.{◌≡◌, Bool, true, false, ℤ, List, [], ◌∷◌}
use lwt.Job.{
  Job, AsyncMethod, prepare, init_mutex, mark_running, work, mark_done, must_notify, is_done,
  check_job, free_job,
}

-- Where the worker stands in `execute_job`.
pub data WorkerPc : Type 0 where
  queued : WorkerPc  -- before the first lock
  working : WorkerPc  -- between the first unlock and the call of `job->worker`
  worked : WorkerPc  -- after that call
  marked : WorkerPc  -- state is DONE, and the worker holds the job's mutex
  notifying : WorkerPc  -- unlocked, before `job->notification_id` is read
  finished : WorkerPc

-- Where the main thread stands.
pub data MainPc : Type 0 where
  looking : MainPc  -- before `done = job->state == DONE`
  saw_done : MainPc  -- before the lock and unlock that wait for the worker
  polling : MainPc  -- `start_job` has returned false
  parked : MainPc  -- `check_job` has returned false: waits for the notification
  collecting : MainPc  -- about to take the result and free the job
  released : MainPc

module _ {P : Type 0} (worker : P → P) (id : ℤ) where
  -- `sent` holds the notifications that the worker has sent.
  pub record System : Type 0 where
    pub job : Job P
    pub wpc : WorkerPc
    pub mpc : MainPc
    pub sent : List ℤ

  -- Nobody holds the job's mutex: only the worker keeps it over more than one step.
  abbrev pub unlocked : WorkerPc → Bool
  unlocked marked = false
  unlocked _ = true

  -- What the main thread does once `check_job` has answered.
  abbrev pub checked : Bool → MainPc
  checked true = collecting
  checked false = parked

  abbrev pub looked : Bool → MainPc
  looked true = saw_done
  looked false = polling

  abbrev pub leaves : Bool → WorkerPc
  leaves true = notifying
  leaves false = finished

  pub data Step (s : System) : System → Type 0 where
    runs :
        s.wpc ≡ queued
        → Step s (record { job = mark_running s.job; wpc = working; mpc = s.mpc; sent = s.sent })
    works :
        s.wpc ≡ working
        → Step s (record { job = work worker s.job; wpc = worked; mpc = s.mpc; sent = s.sent })
    marks :
        s.wpc ≡ worked
        → Step s (record { job = mark_done s.job; wpc = marked; mpc = s.mpc; sent = s.sent })
    unlocks :
        s.wpc ≡ marked
        → Step s
            (record { job = s.job; wpc = leaves (must_notify s.job); mpc = s.mpc; sent = s.sent })
    notifies :
        s.wpc ≡ notifying
        → Step s (record {
          job = s.job;
          wpc = finished;
          mpc = s.mpc;
          sent = s.job.notification_id ∷ s.sent;
        })
    looks :
        s.mpc ≡ looking
        → Step s (record { job = s.job; wpc = s.wpc; mpc = looked (is_done s.job); sent = s.sent })
    waits_for_mutex :
        s.mpc ≡ saw_done
        → unlocked s.wpc ≡ true
        → Step s (record { job = s.job; wpc = s.wpc; mpc = collecting; sent = s.sent })
    checks :
        s.mpc ≡ polling
        → unlocked s.wpc ≡ true
        → Step s (record {
          job = (check_job id s.job).0;
          wpc = s.wpc;
          mpc = checked (check_job id s.job).1;
          sent = s.sent;
        })
    hears :
        s.mpc ≡ parked
        → s.sent ≡ id ∷ []
        → Step s (record { job = s.job; wpc = s.wpc; mpc = collecting; sent = s.sent })
    frees :
        s.mpc ≡ collecting
        → Step s (record { job = free_job s.job; wpc = s.wpc; mpc = released; sent = s.sent })

  -- The state after `lwt_unix_start_job` has handed the job to a worker.
  abbrev pub start : AsyncMethod → Job P → System
  start m j = record { job = init_mutex (prepare m j); wpc = queued; mpc = looking; sent = [] }

  pub data Reach (s₀ : System) : System → Type 0 where
    here : Reach s₀ s₀
    later : {s t : System} → Reach s₀ s → Step s t → Reach s₀ t
