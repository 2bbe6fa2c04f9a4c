-- ===== src/Calls/Lseek.antt =====
-- src/unix/unix_c/unix_lseek_job.c: two jobs, which give the offset as an OCaml integer and as an
-- int64. `off_t` has 64 bits.
use lwt.Base.{
  true, List, some, ℤ, is_minus_one, int_val, val_long, ◌≡◌, arith, Outcome, returned, raised,
  unix_error, if◌then◌else◌,
}
use lwt.Calls.{
  CallJob, new, Sys, Worker, Result, ◌>>=◌, ◌>>◌, returning, field, perform, check_job, free_job,
  run, Ran,
}
use lwt.Calls.Descriptor.{entry_of, with_entry}

pub record LseekArgs : Type 0 where
  pub fd : ℤ
  pub offset : ℤ
  pub whence : ℤ

-- `struct job_lseek`
abbrev pub JobLseek : Type 0
JobLseek = CallJob LseekArgs

unfoldable pub worker_lseek :
    {W : Type 0} (lseek : (fd offset whence : ℤ) → Sys W) → Worker LseekArgs W
worker_lseek lseek job = perform (lseek job.args.fd job.args.offset job.args.whence) job

-- Other than in the jobs without a value, only -1 is an error.
unfoldable pub result_lseek : Result LseekArgs ℤ
result_lseek =
    check_job is_minus_one "lseek"
      (do r ← field (λ job. job.result); free_job; returning (val_long r))

unfoldable pub result_lseek_64 : Result LseekArgs ℤ
result_lseek_64 =
    check_job is_minus_one "lseek" (do r ← field (λ job. job.result); free_job; returning r)

unfoldable pub lseek_job : (seek_command_table : List ℤ) (fd offset whence : ℤ) → Outcome JobLseek
lseek_job seek_command_table fd offset whence =
    with_entry seek_command_table (int_val whence)
      (λ x. new (record { fd = int_val fd; offset = offset; whence = x }))

unfoldable pub lseek_64_job :
    (seek_command_table : List ℤ) (fd offset whence : ℤ) → Outcome JobLseek
lseek_64_job seek_command_table fd offset whence =
    with_entry seek_command_table (int_val whence)
      (λ x. new (record { fd = int_val fd; offset = offset; whence = x }))

-- What the jobs are to do.
abbrev pub Spec : {W : Type 0} → (ℤ → ℤ) → Sys W → W → Ran ℤ W
Spec convert sys w =
    let (a, w') = sys w in
    record {
      value =
          if is_minus_one a.0 then raised (unix_error a.1 "lseek" "") else returned (convert a.0);
      freed = true;
      system = w';
    }

abbrev pub LseekJobs :
    {W : Type 0} (lseek : (fd offset whence : ℤ) → Sys W) (seek_command_table : List ℤ)
    (fd offset whence command : ℤ) (w : W)
    → Type 0
LseekJobs lseek seek_command_table fd offset whence command w =
    (run (lseek_job seek_command_table fd offset whence) (worker_lseek lseek) result_lseek w
      ≡ Spec val_long (lseek (int_val fd) offset command) w)
    × (run (lseek_64_job seek_command_table fd offset whence) (worker_lseek lseek) result_lseek_64 w
        ≡ Spec (λ r. r) (lseek (int_val fd) offset command) w)

-- Both jobs for lseek, from the stub to the result: only the answer -1 is an error; any other,
-- negative or not, is returned, by the one as an OCaml integer, which has one bit less, by the
-- other as it is; and the job is freed. Condition: the command is in its table.
pub lseek_calls :
    {W : Type 0} (lseek : (fd offset whence : ℤ) → Sys W) (seek_command_table : List ℤ)
    (fd offset whence command : ℤ) (w : W)
    → entry_of seek_command_table (int_val whence) ≡ some command
    → LseekJobs lseek seek_command_table fd offset whence command w
unfolding lseek_job lseek_64_job worker_lseek result_lseek result_lseek_64
lseek_calls lseek table fd offset whence command w h =
    (rw (h, run) (ground arith), rw (h, run) (ground arith))
