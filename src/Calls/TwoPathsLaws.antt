-- ===== src/Calls/TwoPathsLaws.antt =====
-- What the jobs of src/unix/unix_c/unix_link_job.c, unix_rename_job.c and unix_symlink_job.c do.
use Prim.Native.String.{String}
use lwt.Base.{◌+◌, ◌++◌, is_negative, ◌≡◌, Outcome, unix_error_arg, returned, arith}
use lwt.Calls.{
  Bytes, CallJob, Sys, Worker, Result, run, memcpy, new_plus, string_val, with_string, perform,
  check_job_arg, free_job,
}
use lwt.Calls.Strings.{
  cut, cells, size, holding, memcpy_first, memcpy_last, c_string-cut, c_string-drop-size,
}
use lwt.Calls.Contract.{Spec}
use lwt.Calls.TwoPaths.{
  TwoPaths, then_copy, worker_link, result_link, link_job, worker_rename, result_rename, rename_job,
  worker_symlink, result_symlink, symlink_job,
}

module _ (oldpath newpath : Bytes) where
  args : TwoPaths
  args = record { oldpath = 0; newpath = size oldpath }

  -- Where the strings of a job lie when its stub returns.
  two_copies :
      then_copy
        (size oldpath)
        (string_val newpath)
        (memcpy 0 (string_val oldpath) (new_plus (size oldpath + size newpath) args))
      ≡ returned (holding args (cells oldpath ++ cells newpath))
  unfolding args
  two_copies = rw (memcpy_first args oldpath (size newpath)) (memcpy_last args oldpath newpath)

  run_two :
      {W : Type 0} (name : String) (sys : Bytes → Bytes → Sys W) (w : W)
      → run
          (then_copy
            (size oldpath)
            (string_val newpath)
            (memcpy 0 (string_val oldpath) (new_plus (size oldpath + size newpath) args)))
          (λ job.
            with_string job.args.oldpath
              (λ oldpath. with_string job.args.newpath (λ newpath. perform (sys oldpath newpath)))
              job)
          (check_job_arg is_negative name (λ a. a.oldpath) free_job)
          w
        ≡ Spec (λ e. unix_error_arg e name (cut oldpath)) (sys (cut oldpath) (cut newpath)) w
  unfolding args
  run_two name sys w =
      rw two_copies
        (ground (arith, c_string-cut oldpath (cells newpath), c_string-drop-size oldpath newpath))

-- The system calls of two paths.
pub record TwoPathCalls (W : Type 0) : Type 0 where
  pub link : Bytes → Bytes → Sys W
  pub rename : Bytes → Bytes → Sys W
  pub symlink : Bytes → Bytes → Sys W

-- A job that takes two paths makes the call `sys` on the parts of them that C sees, and names the
-- first in its error.
abbrev pub Calls :
    {W : Type 0}
    → String
    → (oldpath newpath : Bytes) → Outcome (CallJob TwoPaths)
    → Worker TwoPaths W
    → Result TwoPaths (Unit {0})
    → (Bytes → Bytes → Sys W)
    → W
    → Type 0
Calls {W} name oldpath newpath created worker result sys w =
    run created worker result w
    ≡ Spec (λ e. unix_error_arg e name (cut oldpath)) (sys (cut oldpath) (cut newpath)) w

-- What each of the jobs of two paths is to do.
abbrev pub TwoPathJobs : {W : Type 0} → TwoPathCalls W → (oldpath newpath : Bytes) → W → Type 0
TwoPathJobs c oldpath newpath w =
    Calls "link" oldpath newpath (link_job oldpath newpath) (worker_link c.link) result_link c.link
      w
    × Calls "rename" oldpath newpath (rename_job oldpath newpath) (worker_rename c.rename)
        result_rename c.rename w
    × Calls "symlink" oldpath newpath (symlink_job oldpath newpath) (worker_symlink c.symlink)
        result_symlink c.symlink w

-- The jobs for link, rename and symlink, from the stub to the result: the call is made once, on
-- both paths in their order, each up to its first zero, though they lie one behind the other in one
-- block; a negative answer raises `Unix_error` with the errno behind it and the first path, any
-- other returns unit; and the job is freed, without being used afterwards.
pub two_path_calls :
    {W : Type 0} (c : TwoPathCalls W) (oldpath newpath : Bytes) (w : W)
    → TwoPathJobs c oldpath newpath w
unfolding args worker_link result_link link_job worker_rename result_rename rename_job
    worker_symlink result_symlink symlink_job
two_path_calls c oldpath newpath w = (
  run_two oldpath newpath "link" c.link w,
  run_two oldpath newpath "rename" c.rename w,
  run_two oldpath newpath "symlink" c.symlink w,
)
