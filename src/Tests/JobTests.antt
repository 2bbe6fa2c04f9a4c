-- ===== src/Tests/JobTests.antt =====
-- A job of src/unix/lwt_unix_stubs.c whose body is a number and whose worker adds one to it.
use lwt.Base.{ℕ, suc, ◌≡◌, ◌≢◌, refl, [], ◌∷◌, pos, true, false, ◌⊎◌}
use lwt.Job.{
  Job, pending, done, method_none, method_detach, prepare, init_mutex, mark_running, work,
  mark_done, must_notify, check_job, free_job,
}
use lwt.Job.Handshake.{
  System, Step, Reach, here, later, start, finished, released, parked, collecting, runs, works,
  marks, unlocks, notifies, looks, checks, hears, frees,
}
use lwt.Job.Once.{freed-finished, sent_once, collecting-worked, progress}

abbrev job : Job ℕ
job = record {
  notification_id = pos 0;
  state = pending;
  fast = false;
  async_method = method_none;
  mutex_live = false;
  freed = false;
  body = 3;
}

abbrev first : System {P = ℕ} (λ n. suc n) (pos 5)
first = start (λ n. suc n) (pos 5) method_detach job

-- The notification came, and nothing has been freed.
abbrev heard : System {P = ℕ} (λ n. suc n) (pos 5)
heard = record {
  job = record {
    notification_id = pos 5;
    state = done;
    fast = false;
    async_method = method_detach;
    mutex_live = true;
    freed = false;
    body = 4;
  };
  wpc = finished;
  mpc = collecting;
  sent = pos 5 ∷ [];
}

abbrev last : System {P = ℕ} (λ n. suc n) (pos 5)
last = record heard { job = record heard.job { mutex_live = false; freed = true }; mpc = released }

heard_run : Reach (λ n. suc n) (pos 5) first heard
unfolding prepare init_mutex mark_running work mark_done must_notify check_job
heard_run =
    later
      (later
        (later
          (later
            (later (later (later (later here (runs refl)) (works refl)) (looks refl))
              (checks refl refl))
            (marks refl))
          (unlocks refl))
        (notifies refl))
      (hears refl refl)

full_run : Reach (λ n. suc n) (pos 5) first last
unfolding free_job
full_run = later heard_run (frees refl)

is_async : method_detach ≢ method_none
is_async e = cc e

freed-finished_example : last.wpc ≡ finished
freed-finished_example =
    freed-finished (λ n. suc n) (pos 5) method_detach job is_async refl full_run refl

sent_once_example :
    ((last.sent ≡ []) ⊎ (last.sent ≡ pos 5 ∷ []))
    × (last.job.fast ≡ true → last.sent ≡ [])
    × (last.wpc ≡ finished → last.mpc ≡ parked → last.sent ≡ pos 5 ∷ [])
sent_once_example = sent_once (λ n. suc n) (pos 5) method_detach job is_async refl full_run

collecting-worked_example :
    (heard.job.body ≡ suc job.body) × (heard.job.state ≡ done) × (heard.wpc ≡ finished)
collecting-worked_example =
    collecting-worked (λ n. suc n) (pos 5) method_detach job is_async refl heard_run refl

progress_example :
    ((heard.mpc ≡ released) × (heard.wpc ≡ finished))
    ⊎ ((t : System (λ n. suc n) (pos 5)) × Step (λ n. suc n) (pos 5) heard t)
progress_example = progress (λ n. suc n) (pos 5) method_detach job is_async refl heard_run
