-- ===== src/Buffers.antt =====
-- The jobs of src/unix/unix_c that enlarge a buffer until a call's result fits: unix_readlink_job.c and
-- unix_gethostname_job.c. The buffer is a block of its own on the heap. `free` may change `errno`, as
-- it could before POSIX of 2024: `free_errno` is the parameter for what it leaves. Fuel is the number
-- of rounds.
pub mod Doubling
pub mod Readlink
pub mod Gethostname
pub mod Ends
use lwt.Base.{
  ℕ, zero, suc, ◌+◌, ◌*◌, ◌-◌, Bool, true, false, ◌&&◌, List, [], ◌∷◌, ◌++◌, map, replicate, Option,
  none, some, ℤ, pos, negsuc, minus_one, is_minus_one, is_negative, length, drop, ltb, ◌==◌,
  if◌then◌else◌, Exn, unix_error, unix_error_arg, Outcome, returned, raised, fault,
}
use lwt.Heap.{Heap, lwt_malloc, free}
use lwt.Calls.{
  Bytes, CallJob, new, new_plus, string_val, memcpy, c_string, Result, ◌>>=◌, ◌>>◌, returning,
  field, fail, fail_arg, free_job,
}

-- What a call returns, the `errno` behind it, and the bytes that it wrote at the start of the buffer.
pub record Answer : Type 0 where
  pub value : ℤ
  pub errno : ℕ
  pub written : Bytes

-- `struct job_readlink` and `struct job_gethostname`, less the result and the `errno`; `name` is the
-- place of the name in `data_`, which only `readlink` has. The cells of `buffer` that were not
-- written are `none`; it is not `live` once it is freed.
pub record BufferArgs : Type 0 where
  pub name : ℕ
  pub buffer : List (Option ℕ)
  pub live : Bool

abbrev pub Job : Type 0
Job = CallJob BufferArgs

pub record State : Type 0 where
  pub job : Job
  pub heap : Heap

-- The loops' two ends: the buffer is freed and `errno` kept, or the buffer is kept.
abbrev pub failed : (free_errno : ℕ → ℕ) → Job → (errno : ℕ) → Heap → State
failed free_errno job errno heap = record {
  job = record job {
    result = some minus_one;
    errno_copy = some (free_errno errno);
    args = record job.args { live = false };
  };
  heap = free heap;
}

abbrev pub kept : Job → List (Option ℕ) → (result : ℤ) → Heap → State
kept job buffer result heap = record {
  job = record job {
    result = some result;
    args = record job.args { buffer = buffer; live = true };
  };
  heap = heap;
}

-- One more than the largest `ssize_t`, and than the largest `int`.
abbrev pub ssize_limit : ℕ
ssize_limit = 9223372036854775808

abbrev pub int_limit : ℕ
int_limit = 2147483648

-- `buffer_size *= 2` and a further round; what an overflow would do is undefined.
abbrev pub doubled : (limit size : ℕ) → Option State → Option State
doubled limit size again = if ltb (size * 2) limit then again else none

module _ (free_errno : ℕ → ℕ) where
  -- `worker_readlink` from a buffer size on. A length is not above the buffer's size.
  unfoldable pub worker_readlink :
      (readlink : (name : Bytes) (size : ℕ) → Answer) (fuel buffer_size : ℕ)
      → Job
      → Heap
      → Option State
  worker_readlink readlink zero buffer_size job heap = none
  worker_readlink readlink (suc fuel) buffer_size job heap =
      let h = lwt_malloc heap in
      let again = worker_readlink readlink fuel (buffer_size * 2) job (free h) in
      elim (c_string (drop job.args.name job.data_)) [
        | none ↦ none
        | some name ↦
            let a = readlink name buffer_size in
            elim a.value [
              | negsuc _ ↦ some (failed free_errno job a.errno h)
              | pos link_length ↦
                  if ltb link_length buffer_size
                  then some (kept job (map some (a.written ++ 0 ∷ [])) (pos link_length) h)
                  else doubled ssize_limit buffer_size again
            ]
      ]

  -- The buffer of `gethostname` has a zero behind the bytes that the call may write.
  abbrev pub ended : Bytes → (size : ℕ) → List (Option ℕ)
  ended written size = map some written ++ (replicate (size - length written) none ++ some 0 ∷ [])

  unfoldable pub worker_gethostname :
      (enametoolong : ℕ) (gethostname : (size : ℕ) → Answer) (fuel buffer_size : ℕ)
      → Job
      → Heap
      → Option State
  worker_gethostname enametoolong gethostname zero buffer_size job heap = none
  worker_gethostname enametoolong gethostname (suc fuel) buffer_size job heap =
      let a = gethostname buffer_size in
      let h = lwt_malloc heap in
      let again = worker_gethostname enametoolong gethostname fuel (buffer_size * 2) job (free h) in
      if is_minus_one a.value && (a.errno == enametoolong)
      then doubled int_limit buffer_size again
      else if is_minus_one a.value
      then some (failed free_errno job a.errno h)
      else some (kept job (ended a.written buffer_size) (pos 0) h)

-- `caml_copy_string(job->buffer)`, and the buffer and the job are freed.
abbrev pub copied : Result BufferArgs Bytes
copied = do
  s ← field (λ job. if job.args.live then c_string job.args.buffer else none)
  (λ job. (returned tt, record job { args = record job.args { live = false } }))
  free_job
  returning s

-- The test of the result; only the second end frees the buffer.
abbrev pub ends_by : Result BufferArgs Bytes → Job → Heap → (Outcome Bytes × Job) × Heap
ends_by fails job heap = elim job.result [
  | none ↦ ((fault, job), heap)
  | some r ↦ if is_negative r then (fails job, heap) else (copied job, free heap)
]

unfoldable pub result_readlink : Job → Heap → (Outcome Bytes × Job) × Heap
result_readlink job heap = ends_by (fail_arg "readlink" (λ a. a.name)) job heap

unfoldable pub result_gethostname : Job → Heap → (Outcome Bytes × Job) × Heap
result_gethostname job heap = ends_by (fail "gethostname") job heap

unfoldable pub readlink_job : (name : Bytes) → Outcome Job
readlink_job name =
    memcpy 0 (string_val name)
      (new_plus (length name + 1) (record { name = 0; buffer = []; live = false }))

unfoldable pub gethostname_job : Outcome Job
gethostname_job = returned (new (record { name = 0; buffer = []; live = false }))

-- The worker on the job that the stub made.
abbrev pub started : Outcome Job → (Job → Heap → Option State) → Heap → Option State
started (returned job) worker heap = worker job heap
started (raised e) worker heap = none
started fault worker heap = none
