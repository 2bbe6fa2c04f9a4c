-- ===== src/Calls/Contract.antt =====
-- What a job of src/unix/unix_c that makes one system call does, all in all: a specification without
-- structures, copies or threads.
use Prim.Native.String.{String}
use lwt.Base.{
  ℕ, true, List, Option, some, ℤ, is_negative, drop, if◌then◌else◌, ◌≡◌, arith, Exn, unix_error,
  unix_error_arg, Outcome, returned, raised,
}
use lwt.Calls.{
  Bytes, Sys, with_string, perform, check_job, check_job_arg, free_job, Ran, run, c_string, new,
}
use lwt.Calls.Strings.{holding}

-- The call is made once; a negative result is an error; the job is freed.
abbrev pub value_of : (ℕ → Exn) → ℤ × ℕ → Outcome (Unit {0})
value_of exn a = if is_negative a.0 then raised (exn a.1) else returned tt

abbrev pub Spec : {W : Type 0} → (ℕ → Exn) → Sys W → W → Ran (Unit {0}) W
Spec exn sys w = let (a, w') = sys w in record { value = value_of exn a; freed = true; system = w' }

module _ {A W : Type 0} (args : A) (name : String) (w : W) where
  pub run_plain :
      (sys : Sys W)
      → run (returned (new args)) (perform sys) (check_job is_negative name free_job) w
        ≡ Spec (λ e. unix_error e name "") sys w
  run_plain sys = ground arith

  pub run_arg :
      (at : A → ℕ) (p : Bytes) (sys : Bytes → Sys W) (all : List (Option ℕ))
      → c_string (drop (at args) all) ≡ some p
      → run
          (returned (holding args all))
          (with_string (at args) (λ p'. perform (sys p')))
          (check_job_arg is_negative name at free_job)
          w
        ≡ Spec (λ e. unix_error_arg e name p) (sys p) w
  run_arg at p sys all h = ground (arith, h)
