-- ===== src/Lookup/PasswdLaws.antt =====
-- What the jobs of src/unix/unix_c/unix_get_pw_gr_nam_id_job.c give.
use Prim.Native.String.{String}
use lwt.Base.{
  ℕ, suc, ◌^◌, ◌<◌, true, Option, none, some, ℤ, ◌*◌, int_val, ◌==◌, if◌then◌else◌, ◌≡◌, arith, Exn,
  unix_error, unix_error_arg, not_found, Outcome, returned, raised, fault,
}
use lwt.Calls.{Bytes, CallJob, Result, new}
use lwt.Calls.Strings.{cut, cells, holding, memcpy_one, c_string_one}
use lwt.Lookup.{EntryArgs, Lookup, answered, doubling, initial_size}
use lwt.Lookup.Laws.{EndsAt, Last, doubled, doubling_ends}
use lwt.Lookup.Passwd.{
  Passwd, Group, alloc_passwd_entry, alloc_group_entry, get_entry, fail_name, fail_number,
  worker_getpwnam, result_getpwnam, getpwnam_job, worker_getgrnam, result_getgrnam, getgrnam_job,
  worker_getpwuid, result_getpwuid, getpwuid_job, worker_getgrgid, result_getgrgid, getgrgid_job,
}

-- What the answer of a call means.
abbrev pub entry_value : {E V : Type 0} → (E → V) → (ℕ → Exn) → ℕ × Option E → Outcome V
entry_value alloc exn (code, none) = if code == 0 then raised not_found else raised (exn code)
entry_value alloc exn (code, some e) = if code == 0 then returned (alloc e) else raised (exn code)

abbrev pub worked :
    {A : Type 0} → Outcome (CallJob A) → (CallJob A → Option (CallJob A)) → Option (CallJob A)
worked (returned job) worker = worker job
worked (raised e) worker = none
worked fault worker = none

-- The worker ends; the result is what the answer at the first size means whose answer is not `ERANGE`;
-- the job and all its buffers are freed.
abbrev pub LooksUp :
    {K E V : Type 0} (erange : ℕ) (alloc : E → V) (exn : ℕ → Exn) (func : Lookup E) (first : ℕ)
    → Option (CallJob (EntryArgs K E))
    → Result (EntryArgs K E) V
    → Type 0
LooksUp {K} {E} {V} erange alloc exn func first ended result =
    (job : CallJob (EntryArgs K E)) × (ended ≡ some job)
    × ((i : ℕ) × EndsAt erange func Last (doubled first) i
        × ((result job).0 ≡ entry_value alloc exn (func (doubled first i))))
    × ((result job).1.freed ≡ true)
    × ((result job).1.args.buffers ≡ 0)

-- A job whose call has not been made.
abbrev pub none_yet : {K E : Type 0} → K → EntryArgs K E
none_yet key = record { key = key; code = none; ptr = none; buffers = 0 }

module _ {E V : Type 0} (erange : ℕ) (alloc : E → V) (name : String) (k : ℕ) (first : ℕ)
    (h : 2 ^ 20 < first * 2 ^ k) where
  by_number :
      (func : ℤ → Lookup E) (key : ℤ)
      → LooksUp erange alloc
          (λ c. unix_error c name "")
          (func key)
          first
          (doubling erange (func key) (suc k) first (new (none_yet key)))
          (get_entry alloc (fail_number name))
  by_number func key =
      let (i, made, ends) = doubling_ends erange (func key) k first (new (none_yet key)) h in
      (
        answered (func key (doubled first i)) (new (none_yet key)),
        made,
        (i, ends, ground arith),
        ground arith,
        ground arith,
      )

  by_name :
      (func : Bytes → Lookup E) (key : Bytes)
      → LooksUp erange alloc
          (λ c. unix_error_arg c name (cut key))
          (func (cut key))
          first
          (doubling erange (func (cut key)) (suc k) first (holding (none_yet 0) (cells key)))
          (get_entry alloc (fail_name name))
  by_name func key =
      let job = holding (none_yet 0) (cells key) in
      let (i, made, ends) = doubling_ends erange (func (cut key)) k first job h in
      (
        answered (func (cut key) (doubled first i)) job,
        made,
        (i, ends, ground (arith, c_string_one key)),
        ground (arith, c_string_one key),
        ground (arith, c_string_one key),
      )

-- The calls ending in `_r`.
pub record Database : Type 0 where
  pub getpwnam_r : Bytes → Lookup Passwd
  pub getgrnam_r : Bytes → Lookup Group
  pub getpwuid_r : ℤ → Lookup Passwd
  pub getgrgid_r : ℤ → Lookup Group

-- What each of the jobs is to do; `rounds` is more than its worker takes.
abbrev pub PasswdJobs :
    (erange : ℕ) → Database → (sysconf : ℤ) → (rounds : ℕ) → (name : Bytes) → (uid gid : ℤ) → Type 0
PasswdJobs erange d sysconf rounds name uid gid =
    LooksUp erange alloc_passwd_entry (λ c. unix_error_arg c "getpwnam" (cut name))
      (d.getpwnam_r (cut name)) (initial_size sysconf)
      (worked (getpwnam_job name) (worker_getpwnam erange sysconf d.getpwnam_r rounds))
      result_getpwnam
    × LooksUp erange alloc_group_entry (λ c. unix_error_arg c "getgrnam" (cut name))
        (d.getgrnam_r (cut name)) (initial_size sysconf)
        (worked (getgrnam_job name) (worker_getgrnam erange sysconf d.getgrnam_r rounds))
        result_getgrnam
    × LooksUp erange alloc_passwd_entry (λ c. unix_error c "getpwuid" "")
        (d.getpwuid_r (int_val uid)) (initial_size sysconf)
        (worker_getpwuid erange sysconf d.getpwuid_r rounds (getpwuid_job uid)) result_getpwuid
    × LooksUp erange alloc_group_entry (λ c. unix_error c "getgrgid" "")
        (d.getgrgid_r (int_val gid)) (initial_size sysconf)
        (worker_getgrgid erange sysconf d.getgrgid_r rounds (getgrgid_job gid)) result_getgrgid

-- The jobs for getpwnam, getgrnam, getpwuid and getgrgid end, whatever the calls answer: the result
-- is what the answer means (an entry, `Not_found`, or `Unix_error`) at the first buffer size that
-- is not answered by `ERANGE`, of those doubled from the first, or else at the last of at most 2 ^
-- 20 bytes; the job and each of its buffers are freed. Condition: doubling the first size `k` times
-- passes 2 ^ 20, for `k + 1` rounds.
pub passwd_lookups :
    (erange : ℕ) (d : Database) (sysconf : ℤ) (k : ℕ) (name : Bytes) (uid gid : ℤ)
    → 2 ^ 20 < initial_size sysconf * 2 ^ k
    → PasswdJobs erange d sysconf (suc k) name uid gid
unfolding getpwnam_job worker_getpwnam result_getpwnam getgrnam_job worker_getgrnam result_getgrnam
    getpwuid_job worker_getpwuid result_getpwuid getgrgid_job worker_getgrgid result_getgrgid
passwd_lookups erange d sysconf k name uid gid h =
    let first = initial_size sysconf in
    (
      rw (memcpy_one (none_yet {K = ℕ} {E = Passwd} 0) name) (
          rw (c_string_one name, worker_getpwnam)
            (by_name erange alloc_passwd_entry "getpwnam" k first h d.getpwnam_r name)),
      rw (memcpy_one (none_yet {K = ℕ} {E = Group} 0) name) (
          rw (c_string_one name, worker_getgrnam)
            (by_name erange alloc_group_entry "getgrnam" k first h d.getgrnam_r name)),
      by_number erange alloc_passwd_entry "getpwuid" k first h d.getpwuid_r (int_val uid),
      by_number erange alloc_group_entry "getgrgid" k first h d.getgrgid_r (int_val gid),
    )
