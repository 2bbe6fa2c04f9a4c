-- ===== src/Lookup.antt =====
-- The jobs of src/unix/unix_c that look up an entry of a database of the system, with a buffer that
-- the worker enlarges while the call answers `ERANGE`: `JOB_GET_ENTRY` of
-- unix_get_pw_gr_nam_id_job.c, and `JOB_GET_ENTRY2` of unix_getprotoby_getservby_job.c as compiled
-- where the calls ending in `_r` exist. Fuel is the number of rounds.
pub mod Passwd
pub mod Network
pub mod Laws
pub mod PasswdLaws
pub mod NetworkLaws
pub mod Copies
pub mod Enough
pub mod Copied
use Prim.Native.String.{String}
use lwt.Base.{
  ℕ, zero, suc, ◌+◌, ◌-◌, ◌*◌, ◌^◌, Bool, true, false, not, ◌||◌, Option, none, some, ℤ, pos,
  negsuc, ltb, ◌==◌, if◌then◌else◌, not_found, Outcome, returned, raised, fault,
}
use lwt.Calls.{
  Bytes, CallJob, Result, ◌>>=◌, ◌>>◌, returning, raising, field, copy_string, free_job,
}

-- The fields of such a job: `ptr` is the entry, or null, which lies in `buffer`; of the buffers
-- made by `malloc` for the job, `buffers` were not freed. `code` is the field `result` of the
-- former. `K` is what it looks for.
pub record EntryArgs (K E : Type 0) : Type 0 where
  pub key : K
  pub code : Option ℕ
  pub ptr : Option E
  pub buffers : ℕ

-- A call ending in `_r`: its result, and the entry that it puts into `ptr`.
abbrev pub Lookup : Type 0 → Type 0
Lookup E = (size : ℕ) → ℕ × Option E

module _ {K E : Type 0} where
  -- `job->buffer = lwt_unix_malloc(size)`, and what the call leaves in the job.
  abbrev pub answered : ℕ × Option E → CallJob (EntryArgs K E) → CallJob (EntryArgs K E)
  answered a job = record job {
    args = record job.args { code = some a.0; ptr = a.1; buffers = suc job.args.buffers };
  }

  -- `free(job->buffer)`, once `malloc` has given it.
  abbrev pub without_buffer : CallJob (EntryArgs K E) → CallJob (EntryArgs K E)
  without_buffer job = record job { args = record job.args { buffers = job.args.buffers - 1 } }

  abbrev pub free_buffer : Result (EntryArgs K E) (Unit {0})
  free_buffer job =
      if job.freed || (job.args.buffers == 0)
      then (fault, job)
      else (returned tt, without_buffer job)

  -- The loop of `worker_##FUNC` in `JOB_GET_ENTRY`, from a buffer size on.
  unfoldable pub doubling :
      (erange : ℕ)
      → Lookup E
      → (fuel buffer_size : ℕ) → CallJob (EntryArgs K E)
      → Option (CallJob (EntryArgs K E))
  doubling erange func zero buffer_size job = none
  doubling erange func (suc fuel) buffer_size job =
      let a = func buffer_size in
      let job' = answered a job in
      let size = buffer_size * 2 in
      let again = doubling erange func fuel size (without_buffer job') in
      if not (a.0 == erange) then some job' else if ltb (2 ^ 20) size then some job' else again

  -- The loop of `worker_##FUNC` in `JOB_GET_ENTRY2`, where `code` is a local variable: null tells of an
  -- error.
  unfoldable pub adding :
      (erange : ℕ)
      → Lookup E
      → (fuel size : ℕ) → CallJob (EntryArgs K E)
      → Option (CallJob (EntryArgs K E))
  adding erange func zero size job = none
  adding erange func (suc fuel) size job =
      let a = func size in
      let job' = answered a job in
      let again = adding erange func fuel (size + 1024) (without_buffer job') in
      if a.0 == 0
      then some job'
      else if a.0 == erange
      then again
      else some (record job' { args = record job'.args { ptr = none } })

  -- The end of `result_##FUNC`, in both: no entry, or the entry as an OCaml value.
  abbrev pub entry_or_not_found : {V : Type 0} → (E → V) → Result (EntryArgs K E) V
  entry_or_not_found alloc = do
    ptr ← field (λ job. some job.args.ptr)
    free_buffer
    free_job
    (elim ptr [ none ↦ raising not_found | some entry ↦ returning (alloc entry) ])

-- `buffer_size` of `JOB_GET_ENTRY`: `sysconf`, as a `size_t`, or 16384 if it is -1.
abbrev pub initial_size : ℤ → ℕ
initial_size (pos n) = n
initial_size (negsuc zero) = 16384
initial_size (negsuc (suc n)) = 2 ^ 64 - 2 - n
