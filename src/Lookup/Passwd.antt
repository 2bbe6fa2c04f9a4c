-- ===== src/Lookup/Passwd.antt =====
-- src/unix/unix_c/unix_get_pw_gr_nam_id_job.c: the jobs for getpwnam, getgrnam, getpwuid and getgrgid.
use Prim.Native.String.{String}
use lwt.Base.{
  ℕ, ◌+◌, List, Option, none, some, ℤ, int_val, drop, length, ◌==◌, if◌then◌else◌, Outcome,
  unix_error, unix_error_arg,
}
use lwt.Calls.{
  Bytes, CallJob, Result, ◌>>=◌, ◌>>◌, raising, field, copy_string, free_job, new, new_plus,
  string_val, memcpy, c_string,
}
use lwt.Lookup.{EntryArgs, Lookup, doubling, initial_size, free_buffer, entry_or_not_found}

-- `struct passwd` and `struct group`.
pub record Passwd : Type 0 where
  pub pw_name : Bytes
  pub pw_passwd : Bytes
  pub pw_uid : ℤ
  pub pw_gid : ℤ
  pub pw_gecos : Bytes
  pub pw_dir : Bytes
  pub pw_shell : Bytes

pub record Group : Type 0 where
  pub gr_name : Bytes
  pub gr_passwd : Bytes
  pub gr_gid : ℤ
  pub gr_mem : List Bytes

-- `Unix.passwd_entry` and `Unix.group_entry`, the fields in OCaml's order.
abbrev pub PasswdEntry : Type 0
PasswdEntry = Bytes × Bytes × ℤ × ℤ × Bytes × Bytes × Bytes

abbrev pub GroupEntry : Type 0
GroupEntry = Bytes × Bytes × ℤ × List Bytes

unfoldable pub alloc_passwd_entry : Passwd → PasswdEntry
alloc_passwd_entry entry = (
  entry.pw_name, entry.pw_passwd, entry.pw_uid, entry.pw_gid, entry.pw_gecos, entry.pw_dir,
  entry.pw_shell,
)

unfoldable pub alloc_group_entry : Group → GroupEntry
alloc_group_entry entry = (entry.gr_name, entry.gr_passwd, entry.gr_gid, entry.gr_mem)

-- `result_##FUNC` where `result` is not 0: the argument is copied first, then all is freed.
abbrev pub fail_name : {E V : Type 0} → String → ℕ → Result (EntryArgs ℕ E) V
fail_name func code = do
  arg ← copy_string (λ a. a.key)
  free_buffer
  free_job
  raising (unix_error_arg code func arg)

abbrev pub fail_number : {E V : Type 0} → String → ℕ → Result (EntryArgs ℤ E) V
fail_number func code = do free_buffer; free_job; raising (unix_error code func "")

-- `result_##FUNC`
abbrev pub get_entry :
    {K E V : Type 0} → (E → V) → (ℕ → Result (EntryArgs K E) V) → Result (EntryArgs K E) V
get_entry alloc fail = do
  code ← field (λ job. job.args.code)
  if code == 0 then entry_or_not_found alloc else fail code

-- `struct job_getpwnam`
abbrev pub JobGetpwnam : Type 0
JobGetpwnam = CallJob (EntryArgs ℕ Passwd)

unfoldable pub worker_getpwnam :
    (erange : ℕ) (sysconf : ℤ) (getpwnam_r : Bytes → Lookup Passwd) (fuel : ℕ)
    → JobGetpwnam
    → Option JobGetpwnam
worker_getpwnam erange sysconf getpwnam_r fuel job = elim (c_string (drop job.args.key job.data_)) [
  | none ↦ none
  | some name ↦ doubling erange (getpwnam_r name) fuel (initial_size sysconf) job
]

unfoldable pub result_getpwnam : Result (EntryArgs ℕ Passwd) PasswdEntry
result_getpwnam = get_entry alloc_passwd_entry (fail_name "getpwnam")

unfoldable pub getpwnam_job : (name : Bytes) → Outcome JobGetpwnam
getpwnam_job name =
    memcpy 0 (string_val name)
      (new_plus (length name + 1) (record { key = 0; code = none; ptr = none; buffers = 0 }))

-- `struct job_getgrnam`
abbrev pub JobGetgrnam : Type 0
JobGetgrnam = CallJob (EntryArgs ℕ Group)

unfoldable pub worker_getgrnam :
    (erange : ℕ) (sysconf : ℤ) (getgrnam_r : Bytes → Lookup Group) (fuel : ℕ)
    → JobGetgrnam
    → Option JobGetgrnam
worker_getgrnam erange sysconf getgrnam_r fuel job = elim (c_string (drop job.args.key job.data_)) [
  | none ↦ none
  | some name ↦ doubling erange (getgrnam_r name) fuel (initial_size sysconf) job
]

unfoldable pub result_getgrnam : Result (EntryArgs ℕ Group) GroupEntry
result_getgrnam = get_entry alloc_group_entry (fail_name "getgrnam")

unfoldable pub getgrnam_job : (name : Bytes) → Outcome JobGetgrnam
getgrnam_job name =
    memcpy 0 (string_val name)
      (new_plus (length name + 1) (record { key = 0; code = none; ptr = none; buffers = 0 }))

-- `struct job_getpwuid`
abbrev pub JobGetpwuid : Type 0
JobGetpwuid = CallJob (EntryArgs ℤ Passwd)

unfoldable pub worker_getpwuid :
    (erange : ℕ) (sysconf : ℤ) (getpwuid_r : ℤ → Lookup Passwd) (fuel : ℕ)
    → JobGetpwuid
    → Option JobGetpwuid
worker_getpwuid erange sysconf getpwuid_r fuel job =
    doubling erange (getpwuid_r job.args.key) fuel (initial_size sysconf) job

unfoldable pub result_getpwuid : Result (EntryArgs ℤ Passwd) PasswdEntry
result_getpwuid = get_entry alloc_passwd_entry (fail_number "getpwuid")

unfoldable pub getpwuid_job : (uid : ℤ) → JobGetpwuid
getpwuid_job uid = new (record { key = int_val uid; code = none; ptr = none; buffers = 0 })

-- `struct job_getgrgid`
abbrev pub JobGetgrgid : Type 0
JobGetgrgid = CallJob (EntryArgs ℤ Group)

unfoldable pub worker_getgrgid :
    (erange : ℕ) (sysconf : ℤ) (getgrgid_r : ℤ → Lookup Group) (fuel : ℕ)
    → JobGetgrgid
    → Option JobGetgrgid
worker_getgrgid erange sysconf getgrgid_r fuel job =
    doubling erange (getgrgid_r job.args.key) fuel (initial_size sysconf) job

unfoldable pub result_getgrgid : Result (EntryArgs ℤ Group) GroupEntry
result_getgrgid = get_entry alloc_group_entry (fail_number "getgrgid")

unfoldable pub getgrgid_job : (gid : ℤ) → JobGetgrgid
getgrgid_job gid = new (record { key = int_val gid; code = none; ptr = none; buffers = 0 })
