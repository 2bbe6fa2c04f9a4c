-- ===== src/Calls/Descriptor.antt =====
-- The jobs of src/unix/unix_c that make a call on a descriptor: unix_fsync_job.c, unix_fdatasync_job.c,
-- unix_close_job.c, unix_tcdrain_job.c, unix_tcflow_job.c, unix_tcflush_job.c,
-- unix_tcsendbreak_job.c, unix_fchmod_job.c, unix_fchown_job.c and unix_ftruncate_job.c. They copy
-- nothing; their stubs return always, but for an index outside a table.
use lwt.Base.{
  List, Option, none, some, ℤ, pos, negsuc, is_negative, int_val, get_elem?, Outcome, returned,
  fault,
}
use lwt.Calls.{CallJob, new, Sys, Worker, Result, perform, check_job, free_job}

pub record FdArgs : Type 0 where
  pub fd : ℤ

pub record FdNumber : Type 0 where
  pub fd : ℤ
  pub number : ℤ

pub record FdOwner : Type 0 where
  pub fd : ℤ
  pub ower : ℤ
  pub group : ℤ

-- The cell of a table of constants of C, such as `flow_action_table`.
abbrev pub entry_of : List ℤ → ℤ → Option ℤ
entry_of table (pos i) = get_elem? table i
entry_of table (negsuc i) = none

abbrev pub with_entry : {A : Type 0} → List ℤ → ℤ → (ℤ → CallJob A) → Outcome (CallJob A)
with_entry table i k = elim (entry_of table i) [ none ↦ fault | some x ↦ returned (k x) ]

-- `struct job_fsync`
abbrev pub JobFsync : Type 0
JobFsync = CallJob FdArgs

unfoldable pub worker_fsync : {W : Type 0} (fsync : ℤ → Sys W) → Worker FdArgs W
worker_fsync fsync job = perform (fsync job.args.fd) job

unfoldable pub result_fsync : Result FdArgs (Unit {0})
result_fsync = check_job is_negative "fsync" free_job

unfoldable pub fsync_job : (fd : ℤ) → Outcome JobFsync
fsync_job fd = returned (new (record { fd = int_val fd }))

-- `struct job_fdatasync`
abbrev pub JobFdatasync : Type 0
JobFdatasync = CallJob FdArgs

unfoldable pub worker_fdatasync : {W : Type 0} (fdatasync : ℤ → Sys W) → Worker FdArgs W
worker_fdatasync fdatasync job = perform (fdatasync job.args.fd) job

unfoldable pub result_fdatasync : Result FdArgs (Unit {0})
result_fdatasync = check_job is_negative "fdatasync" free_job

unfoldable pub fdatasync_job : (fd : ℤ) → Outcome JobFdatasync
fdatasync_job fd = returned (new (record { fd = int_val fd }))

-- `struct job_close`
abbrev pub JobClose : Type 0
JobClose = CallJob FdArgs

unfoldable pub worker_close : {W : Type 0} (close : ℤ → Sys W) → Worker FdArgs W
worker_close close job = perform (close job.args.fd) job

unfoldable pub result_close : Result FdArgs (Unit {0})
result_close = check_job is_negative "close" free_job

unfoldable pub close_job : (fd : ℤ) → Outcome JobClose
close_job fd = returned (new (record { fd = int_val fd }))

-- `struct job_tcdrain`
abbrev pub JobTcdrain : Type 0
JobTcdrain = CallJob FdArgs

unfoldable pub worker_tcdrain : {W : Type 0} (tcdrain : ℤ → Sys W) → Worker FdArgs W
worker_tcdrain tcdrain job = perform (tcdrain job.args.fd) job

unfoldable pub result_tcdrain : Result FdArgs (Unit {0})
result_tcdrain = check_job is_negative "tcdrain" free_job

unfoldable pub tcdrain_job : (fd : ℤ) → Outcome JobTcdrain
tcdrain_job fd = returned (new (record { fd = int_val fd }))

-- `struct job_tcflow`; `number` is its `action`.
abbrev pub JobTcflow : Type 0
JobTcflow = CallJob FdNumber

unfoldable pub worker_tcflow : {W : Type 0} (tcflow : (fd action : ℤ) → Sys W) → Worker FdNumber W
worker_tcflow tcflow job = perform (tcflow job.args.fd job.args.number) job

unfoldable pub result_tcflow : Result FdNumber (Unit {0})
result_tcflow = check_job is_negative "tcflow" free_job

unfoldable pub tcflow_job : (flow_action_table : List ℤ) (fd action : ℤ) → Outcome JobTcflow
tcflow_job flow_action_table fd action =
    with_entry flow_action_table (int_val action)
      (λ x. new (record { fd = int_val fd; number = x }))

-- `struct job_tcflush`; `number` is its `queue`.
abbrev pub JobTcflush : Type 0
JobTcflush = CallJob FdNumber

unfoldable pub worker_tcflush : {W : Type 0} (tcflush : (fd queue : ℤ) → Sys W) → Worker FdNumber W
worker_tcflush tcflush job = perform (tcflush job.args.fd job.args.number) job

unfoldable pub result_tcflush : Result FdNumber (Unit {0})
result_tcflush = check_job is_negative "tcflush" free_job

unfoldable pub tcflush_job : (flush_queue_table : List ℤ) (fd queue : ℤ) → Outcome JobTcflush
tcflush_job flush_queue_table fd queue =
    with_entry flush_queue_table (int_val queue) (λ x. new (record { fd = int_val fd; number = x }))

-- `struct job_tcsendbreak`; `number` is its `duration`.
abbrev pub JobTcsendbreak : Type 0
JobTcsendbreak = CallJob FdNumber

unfoldable pub worker_tcsendbreak :
    {W : Type 0} (tcsendbreak : (fd duration : ℤ) → Sys W) → Worker FdNumber W
worker_tcsendbreak tcsendbreak job = perform (tcsendbreak job.args.fd job.args.number) job

unfoldable pub result_tcsendbreak : Result FdNumber (Unit {0})
result_tcsendbreak = check_job is_negative "tcsendbreak" free_job

unfoldable pub tcsendbreak_job : (fd duration : ℤ) → Outcome JobTcsendbreak
tcsendbreak_job fd duration = returned (new (record { fd = int_val fd; number = int_val duration }))

-- `struct job_fchmod`; `number` is its `mode`.
abbrev pub JobFchmod : Type 0
JobFchmod = CallJob FdNumber

unfoldable pub worker_fchmod : {W : Type 0} (fchmod : (fd mode : ℤ) → Sys W) → Worker FdNumber W
worker_fchmod fchmod job = perform (fchmod job.args.fd job.args.number) job

unfoldable pub result_fchmod : Result FdNumber (Unit {0})
result_fchmod = check_job is_negative "fchmod" free_job

unfoldable pub fchmod_job : (fd mode : ℤ) → Outcome JobFchmod
fchmod_job fd mode = returned (new (record { fd = int_val fd; number = int_val mode }))

-- `struct job_fchown`
abbrev pub JobFchown : Type 0
JobFchown = CallJob FdOwner

unfoldable pub worker_fchown :
    {W : Type 0} (fchown : (fd ower group : ℤ) → Sys W) → Worker FdOwner W
worker_fchown fchown job = perform (fchown job.args.fd job.args.ower job.args.group) job

unfoldable pub result_fchown : Result FdOwner (Unit {0})
result_fchown = check_job is_negative "fchown" free_job

unfoldable pub fchown_job : (fd ower group : ℤ) → Outcome JobFchown
fchown_job fd ower group =
    returned (new (record { fd = int_val fd; ower = int_val ower; group = int_val group }))

-- `struct job_ftruncate`; `number` is its `offset`.
abbrev pub JobFtruncate : Type 0
JobFtruncate = CallJob FdNumber

unfoldable pub worker_ftruncate :
    {W : Type 0} (ftruncate : (fd offset : ℤ) → Sys W) → Worker FdNumber W
worker_ftruncate ftruncate job = perform (ftruncate job.args.fd job.args.number) job

unfoldable pub result_ftruncate : Result FdNumber (Unit {0})
result_ftruncate = check_job is_negative "ftruncate" free_job

-- The offset is an OCaml integer, which fits.
unfoldable pub ftruncate_job : (fd offset : ℤ) → Outcome JobFtruncate
ftruncate_job fd offset = returned (new (record { fd = int_val fd; number = offset }))

-- The offset is an int64.
unfoldable pub ftruncate_64_job : (fd offset : ℤ) → Outcome JobFtruncate
ftruncate_64_job fd offset = returned (new (record { fd = int_val fd; number = offset }))
