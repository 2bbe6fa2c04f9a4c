-- ===== src/Job/Once.antt =====
-- The protocol of src/unix/lwt_unix_stubs.c between a worker and the main thread: nobody touches a
-- job that was freed, and the main thread learns of the end of each job in exactly one way.
use lwt.Base.{◌≡◌, refl, Bool, true, false, ℤ, List, [], ◌∷◌, arith, ◌⊎◌, inl, inr, ◌≢◌}
use lwt.Job.{
  Job, JobState, pending, running, done, AsyncMethod, method_none, method_detach, method_switch,
  prepare, init_mutex, mark_running, work, mark_done, must_notify, check_job, free_job,
}
use lwt.Job.Handshake.{
  WorkerPc, queued, working, worked, marked, notifying, finished, MainPc, looking, saw_done,
  polling, parked, collecting, released, System, Step, runs, works, marks, unlocks, notifies, looks,
  waits_for_mutex, checks, hears, frees, start, Reach, here, later,
}

abbrev stage : WorkerPc → JobState
stage queued = pending
stage working = running
stage worked = running
stage _ = done

-- The main thread still counts on a synchronous answer; or it waits for a notification, and has said so.
abbrev Waits : Bool → ℤ → ℤ → List ℤ → Type 0
Waits fast n id sent = (fast ≡ true) × (sent ≡ [])

abbrev Parks : Bool → ℤ → ℤ → List ℤ → Type 0
Parks fast n id sent = (fast ≡ false) × (n ≡ id) × (sent ≡ [])

-- Which positions of the two threads go together, and what they say of `fast`, `notification_id` and
-- the notifications sent.
abbrev Unfinished : MainPc → Bool → ℤ → ℤ → List ℤ → Type 0
Unfinished looking f n id l = Waits f n id l
Unfinished polling f n id l = Waits f n id l
Unfinished parked f n id l = Parks f n id l
Unfinished _ f n id l = ⊥

abbrev Marked : MainPc → Bool → ℤ → ℤ → List ℤ → Type 0
Marked saw_done f n id l = Waits f n id l
Marked m f n id l = Unfinished m f n id l

abbrev Notifying : MainPc → Bool → ℤ → ℤ → List ℤ → Type 0
Notifying parked f n id l = Parks f n id l
Notifying _ f n id l = ⊥

abbrev Finished : MainPc → Bool → ℤ → ℤ → List ℤ → Type 0
Finished looking f n id l = Waits f n id l
Finished saw_done f n id l = Waits f n id l
Finished polling f n id l = Waits f n id l
Finished parked f n id l = (f ≡ false) × (l ≡ id ∷ [])
Finished _ f n id l = (l ≡ []) ⊎ ((f ≡ false) × (l ≡ id ∷ []))

abbrev Together : WorkerPc → MainPc → Bool → ℤ → ℤ → List ℤ → Type 0
Together marked m f n id l = Marked m f n id l
Together notifying m f n id l = Notifying m f n id l
Together finished m f n id l = Finished m f n id l
Together _ m f n id l = Unfinished m f n id l

abbrev is_released : MainPc → Bool
is_released released = true
is_released _ = false

module _ {P : Type 0} (worker : P → P) (id : ℤ) (body : P) where
  -- The body of the job: as it was submitted until the system call is made, then what the call left.
  abbrev body_at : WorkerPc → P
  body_at queued = body
  body_at working = body
  body_at _ = worker body

  record Inv (s : System worker id) : Type 0 where
    async : (s.job.async_method ≡ method_detach) ⊎ (s.job.async_method ≡ method_switch)
    staged : s.job.state ≡ stage s.wpc
    together : Together s.wpc s.mpc s.job.fast s.job.notification_id id s.sent
    block : s.job.freed ≡ is_released s.mpc
    worked_once : s.job.body ≡ body_at s.wpc

  Step-Inv : {s t : System worker id} → Step worker id s t → Inv s → Inv t
  unfolding mark_running work mark_done must_notify check_job free_job
  Step-Inv (runs e) v = ground arith
  Step-Inv (works e) v = ground arith
  Step-Inv (marks e) v = ground arith
  Step-Inv (unlocks e) v = ground arith
  Step-Inv (notifies e) v = ground arith
  Step-Inv (looks e) v = ground arith
  Step-Inv (waits_for_mutex e u) v = ground arith
  Step-Inv (checks e u) v = ground arith
  Step-Inv (hears e h) v = ground arith
  Step-Inv (frees e) v = ground arith

  start-Inv :
      (m : AsyncMethod) (j : Job P)
      → m ≢ method_none
      → j.freed ≡ false
      → j.body ≡ body
      → Inv (start worker id m j)
  unfolding prepare init_mutex
  start-Inv m j h f e = ground arith

  Reach-Inv : {s t : System worker id} → Inv s → Reach worker id s t → Inv t
  Reach-Inv v here = v
  Reach-Inv v (later r st) = Step-Inv st (Reach-Inv v r)

module _ {P : Type 0} (worker : P → P) (id : ℤ) (m : AsyncMethod) (j : Job P)
    (async : m ≢ method_none) (live : j.freed ≡ false) where
  holds : {s : System worker id} → Reach worker id (start worker id m j) s → Inv worker id j.body s
  holds r = Reach-Inv worker id j.body (start-Inv worker id j.body m j async live refl) r

  -- In every state that a job started with an asynchronous method reaches, if it was not freed
  -- before: once the main thread has freed it, the worker is past its last access to it.
  pub freed-finished :
      {s : System worker id}
      → Reach worker id (start worker id m j) s
      → s.job.freed ≡ true
      → s.wpc ≡ finished
  freed-finished r e = ground (arith, holds r)

  -- In every state that a job started with an asynchronous method reaches, if it was not freed
  -- before: no notification was sent, or one, for the id that the main thread registers; none while
  -- `fast` is set; and one if the worker has finished and the main thread is parked.
  pub sent_once :
      {s : System worker id}
      → Reach worker id (start worker id m j) s
      → ((s.sent ≡ []) ⊎ (s.sent ≡ id ∷ []))
        × (s.job.fast ≡ true → s.sent ≡ [])
        × (s.wpc ≡ finished → s.mpc ≡ parked → s.sent ≡ id ∷ [])
  sent_once r = ground (arith, holds r)

  -- In every state that a job started with an asynchronous method reaches, if it was not freed
  -- before: when the main thread takes the result, the body is what one system call made of it, the
  -- state is DONE and the worker has finished.
  pub collecting-worked :
      {s : System worker id}
      → Reach worker id (start worker id m j) s
      → s.mpc ≡ collecting
      → (s.job.body ≡ worker j.body) × (s.job.state ≡ done) × (s.wpc ≡ finished)
  collecting-worked r e = ground (arith, holds r)

  -- In every state that a job started with an asynchronous method reaches, if it was not freed
  -- before: either the job is released and its worker has finished, or one of the two threads can
  -- make a step.
  pub progress :
      {s : System worker id}
      → Reach worker id (start worker id m j) s
      → ((s.mpc ≡ released) × (s.wpc ≡ finished)) ⊎ ((t : System worker id) × Step worker id s t)
  progress {s} r = by_worker s.wpc refl
    where
      v : Inv worker id j.body s
      v = holds r

      by_main :
          (p : MainPc)
          → s.mpc ≡ p
          → s.wpc ≡ finished
          → ((s.mpc ≡ released) × (s.wpc ≡ finished))
            ⊎ ((t : System worker id) × Step worker id s t)
      by_main looking e f = inr (_, looks e)
      by_main saw_done e f = inr (_, waits_for_mutex e (rw f))
      by_main polling e f = inr (_, checks e (rw f))
      by_main parked e f = inr (_, hears e (ground (arith, v)))
      by_main collecting e f = inr (_, frees e)
      by_main released e f = inl (e, f)

      by_worker :
          (p : WorkerPc)
          → s.wpc ≡ p
          → ((s.mpc ≡ released) × (s.wpc ≡ finished))
            ⊎ ((t : System worker id) × Step worker id s t)
      by_worker queued e = inr (_, runs e)
      by_worker working e = inr (_, works e)
      by_worker worked e = inr (_, marks e)
      by_worker marked e = inr (_, unlocks e)
      by_worker notifying e = inr (_, notifies e)
      by_worker finished e = by_main s.mpc refl e
