-- ===== src/Calls/DescriptorLaws.antt =====
-- What the jobs of src/unix/unix_c that make a call on a descriptor do (unix_close_job.c and so on).
use Prim.Native.String.{String}
use lwt.Base.{List, some, ℤ, int_val, ◌≡◌, Outcome, unix_error}
use lwt.Calls.{CallJob, Sys, Worker, Result, run}
use lwt.Calls.Contract.{Spec, run_plain}
use lwt.Calls.Descriptor.{
  FdArgs, FdNumber, FdOwner, entry_of, worker_fsync, result_fsync, fsync_job, worker_fdatasync,
  result_fdatasync, fdatasync_job, worker_close, result_close, close_job, worker_tcdrain,
  result_tcdrain, tcdrain_job, worker_tcflow, result_tcflow, tcflow_job, worker_tcflush,
  result_tcflush, tcflush_job, worker_tcsendbreak, result_tcsendbreak, tcsendbreak_job,
  worker_fchmod, result_fchmod, fchmod_job, worker_fchown, result_fchown, fchown_job,
  worker_ftruncate, result_ftruncate, ftruncate_job, ftruncate_64_job,
}

-- The system calls on a descriptor.
pub record FdCalls (W : Type 0) : Type 0 where
  pub fsync : ℤ → Sys W
  pub fdatasync : ℤ → Sys W
  pub close : ℤ → Sys W
  pub tcdrain : ℤ → Sys W
  pub tcflow : ℤ → ℤ → Sys W
  pub tcflush : ℤ → ℤ → Sys W
  pub tcsendbreak : ℤ → ℤ → Sys W
  pub fchmod : ℤ → ℤ → Sys W
  pub fchown : ℤ → ℤ → ℤ → Sys W
  pub ftruncate : ℤ → ℤ → Sys W

-- A job makes the call `sys`, and its error names no argument.
abbrev pub Calls :
    {A W : Type 0}
    → String
    → Outcome (CallJob A)
    → Worker A W
    → Result A (Unit {0})
    → Sys W
    → W
    → Type 0
Calls {A} {W} name created worker result sys w =
    run created worker result w ≡ Spec (λ e. unix_error e name "") sys w

-- What each of the jobs on a descriptor is to do, with `flow` and `flush` the entries of the tables.
abbrev pub FdJobs :
    {W : Type 0}
    → FdCalls W
    → (flow_action_table flush_queue_table : List ℤ)
    → (fd action queue duration mode ower group offset flow flush : ℤ) → W
    → Type 0
FdJobs c flow_action_table flush_queue_table fd action queue duration mode ower group offset flow
      flush w =
    Calls "fsync" (fsync_job fd) (worker_fsync c.fsync) result_fsync (c.fsync (int_val fd)) w
    × Calls "fdatasync" (fdatasync_job fd) (worker_fdatasync c.fdatasync) result_fdatasync
        (c.fdatasync (int_val fd)) w
    × Calls "close" (close_job fd) (worker_close c.close) result_close (c.close (int_val fd)) w
    × Calls "tcdrain" (tcdrain_job fd) (worker_tcdrain c.tcdrain) result_tcdrain
        (c.tcdrain (int_val fd)) w
    × Calls "tcflow" (tcflow_job flow_action_table fd action) (worker_tcflow c.tcflow) result_tcflow
        (c.tcflow (int_val fd) flow) w
    × Calls "tcflush" (tcflush_job flush_queue_table fd queue) (worker_tcflush c.tcflush)
        result_tcflush (c.tcflush (int_val fd) flush) w
    × Calls "tcsendbreak" (tcsendbreak_job fd duration) (worker_tcsendbreak c.tcsendbreak)
        result_tcsendbreak (c.tcsendbreak (int_val fd) (int_val duration)) w
    × Calls "fchmod" (fchmod_job fd mode) (worker_fchmod c.fchmod) result_fchmod
        (c.fchmod (int_val fd) (int_val mode)) w
    × Calls "fchown" (fchown_job fd ower group) (worker_fchown c.fchown) result_fchown
        (c.fchown (int_val fd) (int_val ower) (int_val group)) w
    × Calls "ftruncate" (ftruncate_job fd offset) (worker_ftruncate c.ftruncate) result_ftruncate
        (c.ftruncate (int_val fd) offset) w
    × Calls "ftruncate" (ftruncate_64_job fd offset) (worker_ftruncate c.ftruncate) result_ftruncate
        (c.ftruncate (int_val fd) offset) w

-- The jobs on a descriptor (fsync, fdatasync, close, tcdrain, tcflow, tcflush, tcsendbreak, fchmod,
-- fchown, and both of ftruncate), from the stub to the result: the call is made once, on numbers as
-- an `int` holds them (an offset as it is, an action or a queue as its entry of the table); a
-- negative answer raises `Unix_error` with the errno behind it, any other returns unit; and the job
-- is freed, without being used afterwards. Condition: the action and the queue are in their tables.
pub descriptor_calls :
    {W : Type 0} (c : FdCalls W) (flow_action_table flush_queue_table : List ℤ)
    (fd action queue duration mode ower group offset flow flush : ℤ) (w : W)
    → entry_of flow_action_table (int_val action) ≡ some flow
    → entry_of flush_queue_table (int_val queue) ≡ some flush
    → FdJobs c flow_action_table flush_queue_table fd action queue duration mode ower group offset
        flow flush w
unfolding worker_fsync result_fsync fsync_job worker_fdatasync result_fdatasync fdatasync_job
    worker_close result_close close_job worker_tcdrain result_tcdrain tcdrain_job worker_tcflow
    result_tcflow tcflow_job worker_tcflush result_tcflush tcflush_job worker_tcsendbreak
    result_tcsendbreak tcsendbreak_job worker_fchmod result_fchmod fchmod_job worker_fchown
    result_fchown fchown_job worker_ftruncate result_ftruncate ftruncate_job ftruncate_64_job
descriptor_calls c flow_action_table flush_queue_table fd action queue duration mode ower group
      offset flow flush w h k =
    let fd' = int_val fd in
    let only : FdArgs = record { fd = fd' } in
    let with_number : ℤ → FdNumber = λ n. record { fd = fd'; number = n } in
    let with_owner : FdOwner = record { fd = fd'; ower = int_val ower; group = int_val group } in
    (
      run_plain only "fsync" w (c.fsync fd'),
      run_plain only "fdatasync" w (c.fdatasync fd'),
      run_plain only "close" w (c.close fd'),
      run_plain only "tcdrain" w (c.tcdrain fd'),
      rw (h, run) (run_plain (with_number flow) "tcflow" w (c.tcflow fd' flow)),
      rw (k, run) (run_plain (with_number flush) "tcflush" w (c.tcflush fd' flush)),
      run_plain (with_number (int_val duration)) "tcsendbreak" w
          (c.tcsendbreak fd' (int_val duration)),
      run_plain (with_number (int_val mode)) "fchmod" w (c.fchmod fd' (int_val mode)),
      run_plain with_owner "fchown" w (c.fchown fd' (int_val ower) (int_val group)),
      run_plain (with_number offset) "ftruncate" w (c.ftruncate fd' offset),
      run_plain (with_number offset) "ftruncate" w (c.ftruncate fd' offset),
    )
