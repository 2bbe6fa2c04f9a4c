-- ===== src/Calls/Path.antt =====
-- src/unix/unix_c/unix_chdir_job.c, unix_chroot_job.c, unix_rmdir_job.c and unix_unlink_job.c: calls
-- of one path.
use lwt.Base.{ℕ, ◌+◌, is_negative, length, Outcome}
use lwt.Calls.{
  Bytes, CallJob, new_plus, string_val, memcpy, Sys, Worker, Result, perform, with_string,
  check_job_arg, free_job,
}

pub record PathArgs : Type 0 where
  pub path : ℕ

-- `struct job_chdir`
abbrev pub JobChdir : Type 0
JobChdir = CallJob PathArgs

unfoldable pub worker_chdir : {W : Type 0} (chdir : Bytes → Sys W) → Worker PathArgs W
worker_chdir chdir job = with_string job.args.path (λ path. perform (chdir path)) job

unfoldable pub result_chdir : Result PathArgs (Unit {0})
result_chdir = check_job_arg is_negative "chdir" (λ a. a.path) free_job

unfoldable pub chdir_job : (path : Bytes) → Outcome JobChdir
chdir_job path =
    let len_path = length path + 1 in
    memcpy 0 (string_val path) (new_plus len_path (record { path = 0 }))

-- `struct job_chroot`
abbrev pub JobChroot : Type 0
JobChroot = CallJob PathArgs

unfoldable pub worker_chroot : {W : Type 0} (chroot : Bytes → Sys W) → Worker PathArgs W
worker_chroot chroot job = with_string job.args.path (λ path. perform (chroot path)) job

unfoldable pub result_chroot : Result PathArgs (Unit {0})
result_chroot = check_job_arg is_negative "chroot" (λ a. a.path) free_job

unfoldable pub chroot_job : (path : Bytes) → Outcome JobChroot
chroot_job path =
    let len_path = length path + 1 in
    memcpy 0 (string_val path) (new_plus len_path (record { path = 0 }))

-- `struct job_rmdir`
abbrev pub JobRmdir : Type 0
JobRmdir = CallJob PathArgs

unfoldable pub worker_rmdir : {W : Type 0} (rmdir : Bytes → Sys W) → Worker PathArgs W
worker_rmdir rmdir job = with_string job.args.path (λ path. perform (rmdir path)) job

unfoldable pub result_rmdir : Result PathArgs (Unit {0})
result_rmdir = check_job_arg is_negative "rmdir" (λ a. a.path) free_job

unfoldable pub rmdir_job : (path : Bytes) → Outcome JobRmdir
rmdir_job path =
    let len_path = length path + 1 in
    memcpy 0 (string_val path) (new_plus len_path (record { path = 0 }))

-- `struct job_unlink`
abbrev pub JobUnlink : Type 0
JobUnlink = CallJob PathArgs

unfoldable pub worker_unlink : {W : Type 0} (unlink : Bytes → Sys W) → Worker PathArgs W
worker_unlink unlink job = with_string job.args.path (λ path. perform (unlink path)) job

unfoldable pub result_unlink : Result PathArgs (Unit {0})
result_unlink = check_job_arg is_negative "unlink" (λ a. a.path) free_job

unfoldable pub unlink_job : (path : Bytes) → Outcome JobUnlink
unlink_job path =
    let len_path = length path + 1 in
    memcpy 0 (string_val path) (new_plus len_path (record { path = 0 }))
