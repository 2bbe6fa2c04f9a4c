-- ===== src/Calls/Query.antt =====
-- Further jobs of src/unix/unix_c: unix_isatty_job.c, unix_guess_blocking_job.c, unix_bind_job.c,
-- unix_access_job.c and unix_utimes_job.c.
use Prim.Native.Nat.{bit_or}
use lwt.Base.{
  ℕ, zero, suc, ◌+◌, Bool, true, false, ◌&&◌, List, [], ◌∷◌, Option, none, some, ℤ, pos, negsuc,
  is_negative, int_val, get_elem?, length, if◌then◌else◌, Outcome, returned, fault,
}
use lwt.Calls.{
  Bytes, CallJob, new, new_plus, string_val, memcpy, Sys, Worker, Result, ◌>>=◌, ◌>>◌, returning,
  field, perform, with_string, check_job, check_job_arg, free_job,
}
use lwt.Calls.Open.{FileKind, is_blocking}

abbrev pub not_zero : ℤ → Bool
not_zero (pos zero) = false
not_zero (pos (suc n)) = true
not_zero (negsuc n) = true

-- `struct job_isatty`; neither `errno` nor an error is looked at.
pub record IsattyArgs : Type 0 where
  pub fd : ℤ

unfoldable pub worker_isatty : {W : Type 0} (isatty : ℤ → W → ℤ × W) → Worker IsattyArgs W
worker_isatty isatty job w =
    let (r, w') = isatty job.args.fd w in some (record job { result = some r }, w')

abbrev bool_result : {A : Type 0} → Result A Bool
bool_result = do r ← field (λ job. job.result); free_job; returning (not_zero r)

unfoldable pub result_isatty : Result IsattyArgs Bool
result_isatty = bool_result

unfoldable pub isatty_job : (fd : ℤ) → Outcome (CallJob IsattyArgs)
isatty_job fd = returned (new (record { fd = int_val fd }))

abbrev pub of_bool : Bool → ℤ
of_bool true = pos 1
of_bool false = pos 0

-- `struct job_guess_blocking`; `fstat` gives the kind of file, or fails.
pub record GuessBlockingArgs : Type 0 where
  pub fd : ℤ

unfoldable pub worker_guess_blocking :
    {W : Type 0} (fstat : ℤ → W → Option FileKind × W) → Worker GuessBlockingArgs W
worker_guess_blocking fstat job w =
    let (kind, w') = fstat job.args.fd w in
    some (record job { result = some (of_bool (is_blocking kind)) }, w')

unfoldable pub result_guess_blocking : Result GuessBlockingArgs Bool
result_guess_blocking = bool_result

unfoldable pub guess_blocking_job : (fd : ℤ) → Outcome (CallJob GuessBlockingArgs)
guess_blocking_job fd = returned (new (record { fd = int_val fd }))

-- `struct job_bind`; the address is converted by OCaml's runtime.
pub record BindArgs (A : Type 0) : Type 0 where
  pub fd : ℤ
  pub addr : A

unfoldable pub worker_bind : {A W : Type 0} (bind : ℤ → A → Sys W) → Worker (BindArgs A) W
worker_bind bind job = perform (bind job.args.fd job.args.addr) job

unfoldable pub result_bind : {A : Type 0} → Result (BindArgs A) (Unit {0})
result_bind = check_job not_zero "bind" free_job

unfoldable pub bind_job :
    {A S : Type 0} (get_sockaddr : S → A) (fd : ℤ) (address : S) → Outcome (CallJob (BindArgs A))
bind_job get_sockaddr fd address =
    returned (new (record { fd = int_val fd; addr = get_sockaddr address }))

-- The loop of `int_of_access_permissions`; an index outside the table is a fault.
unfoldable pub int_of_access_permissions :
    (access_permission_table : List ℕ) (permissions : List ℕ) (result : ℕ) → Option ℕ
int_of_access_permissions table [] result = some result
int_of_access_permissions table (p ∷ permissions) result = elim (get_elem? table p) [
  | none ↦ none
  | some x ↦ int_of_access_permissions table permissions (bit_or result x)
]

-- `struct job_access`
pub record AccessArgs : Type 0 where
  pub path : ℕ
  pub mode : ℕ

unfoldable pub worker_access :
    {W : Type 0} (access : (path : Bytes) (mode : ℕ) → Sys W) → Worker AccessArgs W
worker_access access job =
    with_string job.args.path (λ path. perform (access path job.args.mode)) job

unfoldable pub result_access : Result AccessArgs (Unit {0})
result_access = check_job_arg is_negative "access" (λ a. a.path) free_job

unfoldable pub access_job :
    (access_permission_table : List ℕ) (path : Bytes) (mode : List ℕ) → Outcome (CallJob AccessArgs)
access_job table path mode = elim (int_of_access_permissions table mode 0) [
  | none ↦ fault
  | some n ↦ memcpy 0 (string_val path) (new_plus (length path + 1) (record { path = 0; mode = n }))
]

-- Seconds and microseconds.
abbrev pub Timeval : Type 0
Timeval = ℤ × ℤ

-- `struct job_utimes`; `times` is null where no times are given.
pub record UtimesArgs : Type 0 where
  pub path : ℕ
  pub times : Option (Timeval × Timeval)

unfoldable pub worker_utimes :
    {W : Type 0} (utimes : (path : Bytes) → Option (Timeval × Timeval) → Sys W)
    → Worker UtimesArgs W
worker_utimes utimes job =
    with_string job.args.path (λ path. perform (utimes path job.args.times)) job

unfoldable pub result_utimes : Result UtimesArgs (Unit {0})
result_utimes = check_job_arg not_zero "utimes" (λ a. a.path) free_job

module _ {D : Type 0} (is_zero : D → Bool) (timeval : D → Timeval) where
  -- `D` are OCaml's floats, and `timeval` splits one into seconds and microseconds.
  abbrev pub times_of : (atime mtime : D) → Option (Timeval × Timeval)
  times_of atime mtime =
      if is_zero atime && is_zero mtime then none else some (timeval atime, timeval mtime)

  unfoldable pub utimes_job : (path : Bytes) (atime mtime : D) → Outcome (CallJob UtimesArgs)
  utimes_job path atime mtime =
      memcpy 0 (string_val path)
        (new_plus (length path + 1) (record { path = 0; times = times_of atime mtime }))
