-- ===== src/Calls/Directory.antt =====
-- The jobs on a directory stream, src/unix/unix_c/unix_opendir_job.c, unix_readdir_job.c,
-- unix_rewinddir_job.c and unix_closedir_job.c, with unix_valid_dir.c and unix_invalidate_dir.c. The
-- OCaml value of a stream holds a `DIR *`, here a number, where null is `none`. Batch compares them with
-- unix_readdir_n_job.c.
pub mod Batch
use lwt.Base.{
  ℕ, suc, ◌+◌, Bool, true, false, not, Option, none, some, ℤ, pos, is_negative, length, ◌==◌,
  if◌then◌else◌, end_of_file, Outcome, returned,
}
use lwt.Calls.{
  Bytes, CallJob, new, new_plus, string_val, memcpy, Sys, Worker, Result, ◌>>=◌, ◌>>◌, returning,
  raising, field, fail, fail_arg, perform, with_string, check_job, free_job,
}
use lwt.Readdir.{Name, Reading, entry, end_of_directory, error}

abbrev pub Dir : Type 0
Dir = Option ℕ

unfoldable pub valid_dir : Dir → Bool
valid_dir none = false
valid_dir (some d) = true

unfoldable pub invalidate_dir : Dir → Dir
invalidate_dir dir = none

-- `struct job_opendir`; the `DIR *` of the answer is not set before the call.
pub record OpendirArgs : Type 0 where
  pub result : Option Dir
  pub path : ℕ

unfoldable pub worker_opendir :
    {W : Type 0} (opendir : Bytes → W → (Dir × ℕ) × W) → Worker OpendirArgs W
worker_opendir opendir job =
    with_string job.args.path
      (λ path job w.
        let (a, w') = opendir path w in
        some
          (record job { errno_copy = some a.1; args = record job.args { result = some a.0 } }, w'))
      job

unfoldable pub result_opendir : Result OpendirArgs Dir
result_opendir = do
  r ← field (λ job. job.args.result)
  elim r [ none ↦ fail_arg "opendir" (λ a. a.path) | some d ↦ (do free_job; returning (some d)) ]

unfoldable pub opendir_job : (path : Bytes) → Outcome (CallJob OpendirArgs)
opendir_job path =
    memcpy 0 (string_val path) (new_plus (length path + 1) (record { result = none; path = 0 }))

-- `struct job_readdir`; `entry` is not set before the call, and is null where there is no name.
pub record ReaddirArgs : Type 0 where
  pub dir : Dir
  pub entry : Option (Option Name)

abbrev name_of : Reading → Option Name
name_of (entry name) = some name
name_of end_of_directory = none
name_of (error e) = none

-- `errno`, which is 0 before the call.
abbrev errno_of : Reading → ℕ
errno_of (entry name) = 0
errno_of end_of_directory = 0
errno_of (error e) = suc e

unfoldable pub worker_readdir :
    {W : Type 0} (readdir : Dir → W → Reading × W) → Worker ReaddirArgs W
worker_readdir readdir job w =
    let (r, w') = readdir job.args.dir w in
    some (
      record job {
        errno_copy = some (errno_of r);
        args = record job.args { entry = some (name_of r) };
      },
      w',
    )

unfoldable pub result_readdir : Result ReaddirArgs Name
result_readdir = do
  e ← field (λ job. job.args.entry)
  code ← field (λ job. job.errno_copy)
  elim e [
    | some name ↦ (do free_job; returning name)
    | none ↦ if code == 0 then (do free_job; raising end_of_file) else fail "readdir"
  ]

unfoldable pub readdir_job : Dir → Outcome (CallJob ReaddirArgs)
readdir_job dir = returned (new (record { dir = dir; entry = none }))

-- `struct job_closedir` and `struct job_rewinddir`
pub record DirArgs : Type 0 where
  pub dir : Dir

unfoldable pub worker_closedir : {W : Type 0} (closedir : Dir → Sys W) → Worker DirArgs W
worker_closedir closedir job = perform (closedir job.args.dir) job

unfoldable pub result_closedir : Result DirArgs (Unit {0})
result_closedir = check_job is_negative "closedir" free_job

unfoldable pub closedir_job : Dir → Outcome (CallJob DirArgs)
closedir_job dir = returned (new (record { dir = dir }))

unfoldable pub worker_rewinddir : {W : Type 0} (rewinddir : Dir → W → W) → Worker DirArgs W
worker_rewinddir rewinddir job w = some (job, rewinddir job.args.dir w)

unfoldable pub result_rewinddir : Result DirArgs (Unit {0})
result_rewinddir = free_job

unfoldable pub rewinddir_job : Dir → Outcome (CallJob DirArgs)
rewinddir_job dir = returned (new (record { dir = dir }))
