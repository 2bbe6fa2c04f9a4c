-- ===== src/Calls/PathNumbers.antt =====
-- src/unix/unix_c/unix_mkdir_job.c, unix_mkfifo_job.c, unix_chmod_job.c, unix_chown_job.c and
-- unix_truncate_job.c: calls of a path and numbers.
use lwt.Base.{ℕ, ◌+◌, ℤ, is_negative, int_val, length, Outcome}
use lwt.Calls.{
  Bytes, CallJob, new_plus, string_val, memcpy, Sys, Worker, Result, perform, with_string,
  check_job_arg, free_job,
}

pub record ModeArgs : Type 0 where
  pub path : ℕ
  pub mode : ℤ

pub record OwnerArgs : Type 0 where
  pub path : ℕ
  pub ower : ℤ
  pub group : ℤ

pub record OffsetArgs : Type 0 where
  pub path : ℕ
  pub offset : ℤ

-- `struct job_mkdir`
abbrev pub JobMkdir : Type 0
JobMkdir = CallJob ModeArgs

unfoldable pub worker_mkdir :
    {W : Type 0} (mkdir : (path : Bytes) (mode : ℤ) → Sys W) → Worker ModeArgs W
worker_mkdir mkdir job = with_string job.args.path (λ path. perform (mkdir path job.args.mode)) job

unfoldable pub result_mkdir : Result ModeArgs (Unit {0})
result_mkdir = check_job_arg is_negative "mkdir" (λ a. a.path) free_job

unfoldable pub mkdir_job : (path : Bytes) (mode : ℤ) → Outcome JobMkdir
mkdir_job path mode =
    let len_path = length path + 1 in
    memcpy 0 (string_val path) (new_plus len_path (record { path = 0; mode = int_val mode }))

-- `struct job_mkfifo`
abbrev pub JobMkfifo : Type 0
JobMkfifo = CallJob ModeArgs

unfoldable pub worker_mkfifo :
    {W : Type 0} (mkfifo : (path : Bytes) (mode : ℤ) → Sys W) → Worker ModeArgs W
worker_mkfifo mkfifo job =
    with_string job.args.path (λ path. perform (mkfifo path job.args.mode)) job

unfoldable pub result_mkfifo : Result ModeArgs (Unit {0})
result_mkfifo = check_job_arg is_negative "mkfifo" (λ a. a.path) free_job

unfoldable pub mkfifo_job : (path : Bytes) (mode : ℤ) → Outcome JobMkfifo
mkfifo_job path mode =
    let len_path = length path + 1 in
    memcpy 0 (string_val path) (new_plus len_path (record { path = 0; mode = int_val mode }))

-- `struct job_chmod`
abbrev pub JobChmod : Type 0
JobChmod = CallJob ModeArgs

unfoldable pub worker_chmod :
    {W : Type 0} (chmod : (path : Bytes) (mode : ℤ) → Sys W) → Worker ModeArgs W
worker_chmod chmod job = with_string job.args.path (λ path. perform (chmod path job.args.mode)) job

unfoldable pub result_chmod : Result ModeArgs (Unit {0})
result_chmod = check_job_arg is_negative "chmod" (λ a. a.path) free_job

unfoldable pub chmod_job : (path : Bytes) (mode : ℤ) → Outcome JobChmod
chmod_job path mode =
    let len_path = length path + 1 in
    memcpy 0 (string_val path) (new_plus len_path (record { path = 0; mode = int_val mode }))

-- `struct job_chown`
abbrev pub JobChown : Type 0
JobChown = CallJob OwnerArgs

unfoldable pub worker_chown :
    {W : Type 0} (chown : (path : Bytes) (ower group : ℤ) → Sys W) → Worker OwnerArgs W
worker_chown chown job =
    with_string job.args.path (λ path. perform (chown path job.args.ower job.args.group)) job

unfoldable pub result_chown : Result OwnerArgs (Unit {0})
result_chown = check_job_arg is_negative "chown" (λ a. a.path) free_job

unfoldable pub chown_job : (path : Bytes) (ower group : ℤ) → Outcome JobChown
chown_job path ower group =
    let len_path = length path + 1 in
    memcpy 0 (string_val path)
      (new_plus len_path (record { path = 0; ower = int_val ower; group = int_val group }))

-- `struct job_truncate`
abbrev pub JobTruncate : Type 0
JobTruncate = CallJob OffsetArgs

unfoldable pub worker_truncate :
    {W : Type 0} (truncate : (path : Bytes) (offset : ℤ) → Sys W) → Worker OffsetArgs W
worker_truncate truncate job =
    with_string job.args.path (λ path. perform (truncate path job.args.offset)) job

unfoldable pub result_truncate : Result OffsetArgs (Unit {0})
result_truncate = check_job_arg is_negative "truncate" (λ a. a.path) free_job

-- The offset is an OCaml integer, which fits.
unfoldable pub truncate_job : (path : Bytes) (offset : ℤ) → Outcome JobTruncate
truncate_job path offset =
    let len_path = length path + 1 in
    memcpy 0 (string_val path) (new_plus len_path (record { path = 0; offset = offset }))

-- The offset is an int64.
unfoldable pub truncate_64_job : (path : Bytes) (offset : ℤ) → Outcome JobTruncate
truncate_64_job path offset =
    let len_path = length path + 1 in
    memcpy 0 (string_val path) (new_plus len_path (record { path = 0; offset = offset }))
