-- ===== src/Calls/PathLaws.antt =====
-- What the jobs of src/unix/unix_c that take a path do (unix_chdir_job.c, unix_mkdir_job.c and so on).
use Prim.Native.String.{String}
use lwt.Base.{ℕ, ℤ, int_val, is_negative, ◌≡◌, refl, Outcome, unix_error_arg}
use lwt.Calls.{
  Bytes, CallJob, Sys, Worker, Result, run, memcpy, new_plus, string_val, with_string, perform,
  check_job_arg, free_job,
}
use lwt.Calls.Strings.{cut, cells, size, c_string_one, memcpy_one}
use lwt.Calls.Contract.{Spec, run_arg}
use lwt.Calls.Path.{
  PathArgs, worker_chdir, result_chdir, chdir_job, worker_chroot, result_chroot, chroot_job,
  worker_rmdir, result_rmdir, rmdir_job, worker_unlink, result_unlink, unlink_job,
}
use lwt.Calls.PathNumbers.{
  ModeArgs, OwnerArgs, OffsetArgs, worker_mkdir, result_mkdir, mkdir_job, worker_mkfifo,
  result_mkfifo, mkfifo_job, worker_chmod, result_chmod, chmod_job, worker_chown, result_chown,
  chown_job, worker_truncate, result_truncate, truncate_job, truncate_64_job,
}

-- A job that takes `path` makes the call `sys` on the part of it that C sees.
abbrev pub Calls :
    {A W : Type 0}
    → String
    → Bytes
    → Outcome (CallJob A)
    → Worker A W
    → Result A (Unit {0})
    → (Bytes → Sys W)
    → W
    → Type 0
Calls {A} {W} name path created worker result sys w =
    run created worker result w ≡ Spec (λ e. unix_error_arg e name (cut path)) (sys (cut path)) w

module _ {A W : Type 0} (args : A) (at : A → ℕ) (first : at args ≡ 0) (name : String) where
  run_one :
      (path : Bytes) (sys : A → Bytes → Sys W) (w : W)
      → Calls name path
          (memcpy 0 (string_val path) (new_plus (size path) args))
          (λ job. with_string (at job.args) (λ p. perform (sys job.args p)) job)
          (check_job_arg is_negative name at free_job)
          (sys args)
          w
  run_one path sys w =
      rw (memcpy_one args path)
        (run_arg args name w at (cut path) (sys args) (cells path) (rw first (c_string_one path)))

-- The system calls of one path.
pub record PathCalls (W : Type 0) : Type 0 where
  pub chdir : Bytes → Sys W
  pub chroot : Bytes → Sys W
  pub rmdir : Bytes → Sys W
  pub unlink : Bytes → Sys W
  pub mkdir : Bytes → ℤ → Sys W
  pub mkfifo : Bytes → ℤ → Sys W
  pub chmod : Bytes → ℤ → Sys W
  pub chown : Bytes → ℤ → ℤ → Sys W
  pub truncate : Bytes → ℤ → Sys W

-- What each of the jobs of one path is to do.
abbrev pub PathJobs : {W : Type 0} → PathCalls W → Bytes → (mode ower group offset : ℤ) → W → Type 0
PathJobs c path mode ower group offset w =
    Calls "chdir" path (chdir_job path) (worker_chdir c.chdir) result_chdir c.chdir w
    × Calls "chroot" path (chroot_job path) (worker_chroot c.chroot) result_chroot c.chroot w
    × Calls "rmdir" path (rmdir_job path) (worker_rmdir c.rmdir) result_rmdir c.rmdir w
    × Calls "unlink" path (unlink_job path) (worker_unlink c.unlink) result_unlink c.unlink w
    × Calls "mkdir" path (mkdir_job path mode) (worker_mkdir c.mkdir) result_mkdir
        (λ path. c.mkdir path (int_val mode)) w
    × Calls "mkfifo" path (mkfifo_job path mode) (worker_mkfifo c.mkfifo) result_mkfifo
        (λ path. c.mkfifo path (int_val mode)) w
    × Calls "chmod" path (chmod_job path mode) (worker_chmod c.chmod) result_chmod
        (λ path. c.chmod path (int_val mode)) w
    × Calls "chown" path (chown_job path ower group) (worker_chown c.chown) result_chown
        (λ path. c.chown path (int_val ower) (int_val group)) w
    × Calls "truncate" path (truncate_job path offset) (worker_truncate c.truncate) result_truncate
        (λ path. c.truncate path offset) w
    × Calls "truncate" path (truncate_64_job path offset) (worker_truncate c.truncate)
        result_truncate (λ path. c.truncate path offset) w

-- The jobs of one path (chdir, chroot, rmdir, unlink, mkdir, mkfifo, chmod, chown, and both of
-- truncate), from the stub to the result: the call is made once, on the path up to its first zero
-- and on numbers as an `int` holds them (an offset as it is); a negative answer raises `Unix_error`
-- with the errno behind it and that path, any other returns unit; and the job is freed, without
-- being used afterwards.
pub path_calls :
    {W : Type 0} (c : PathCalls W) (path : Bytes) (mode ower group offset : ℤ) (w : W)
    → PathJobs c path mode ower group offset w
unfolding worker_chdir result_chdir chdir_job worker_chroot result_chroot chroot_job worker_rmdir
    result_rmdir rmdir_job worker_unlink result_unlink unlink_job worker_mkdir result_mkdir
    mkdir_job worker_mkfifo result_mkfifo mkfifo_job worker_chmod result_chmod chmod_job
    worker_chown result_chown chown_job worker_truncate result_truncate truncate_job truncate_64_job
path_calls c path mode ower group offset w =
    let plain : PathArgs = record { path = 0 } in
    let with_mode : ModeArgs = record { path = 0; mode = int_val mode } in
    let with_owner : OwnerArgs = record { path = 0; ower = int_val ower; group = int_val group } in
    let with_offset : OffsetArgs = record { path = 0; offset = offset } in
    (
      run_one plain (λ a. a.path) refl "chdir" path (λ a path. c.chdir path) w,
      run_one plain (λ a. a.path) refl "chroot" path (λ a path. c.chroot path) w,
      run_one plain (λ a. a.path) refl "rmdir" path (λ a path. c.rmdir path) w,
      run_one plain (λ a. a.path) refl "unlink" path (λ a path. c.unlink path) w,
      run_one with_mode (λ a. a.path) refl "mkdir" path (λ a path. c.mkdir path a.mode) w,
      run_one with_mode (λ a. a.path) refl "mkfifo" path (λ a path. c.mkfifo path a.mode) w,
      run_one with_mode (λ a. a.path) refl "chmod" path (λ a path. c.chmod path a.mode) w,
      run_one with_owner (λ a. a.path) refl "chown" path (λ a path. c.chown path a.ower a.group) w,
      run_one with_offset (λ a. a.path) refl "truncate" path (λ a path. c.truncate path a.offset) w,
      run_one with_offset (λ a. a.path) refl "truncate" path (λ a path. c.truncate path a.offset) w,
    )
