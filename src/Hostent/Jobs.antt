-- ===== src/Hostent/Jobs.antt =====
-- src/unix/unix_c/unix_gethostbyname_job.c and src/unix/unix_c/unix_gethostbyaddr_job.c, in each of the
-- three ways in which the call may be there. The buffer of the calls ending in `_r` is theirs.
use lwt.Base.{
  ℕ, ◌+◌, true, Option, none, some, ◌==◌, if◌then◌else◌, length, drop, take, leb, Outcome, returned,
  raised, fault, not_found,
}
use lwt.Heap.{Heap}
use lwt.Hostent.{Hostent, HostEntry, alloc_host_entry, hostent_dup, hostent_free}
use lwt.Calls.{Bytes, CallJob, Worker, new, new_plus, string_val, memcpy, c_string}

-- The call: the reentrant one that returns the entry, the reentrant one that returns a code and sets a
-- pointer, or the one whose result the next call may overwrite.
pub data HostCall : Type 0 where
  gives_entry : (Bytes → Option Hostent) → HostCall
  gives_code : (Bytes → ℕ × Option Hostent) → HostCall
  shared : (Bytes → Option Hostent) → HostCall

-- `struct job_gethostbyname` and `struct job_gethostbyaddr`; `key` is the name's place in `data_`, or
-- the 4 bytes of `struct in_addr`.
pub record HostArgs (K : Type 0) : Type 0 where
  pub key : K
  pub entry : Option Hostent
  pub ptr : Option Hostent

abbrev pub set_ptr : {K : Type 0} → Option Hostent → CallJob (HostArgs K) → CallJob (HostArgs K)
set_ptr e job = record job { args = record job.args { entry = e; ptr = e } }

-- `hostent_dup` is only called on an entry.
abbrev pub dup_found : Option Hostent → Heap → Option Hostent × Heap
dup_found none h = (none, h)
dup_found (some o) h = hostent_dup (some o) h

-- The three branches of both workers.
abbrev pub look_up : {K : Type 0} → HostCall → Bytes → Worker (HostArgs K) Heap
look_up (gives_entry call) key job h = some (set_ptr (call key) job, h)
look_up (gives_code call) key job h =
    let (code, ptr) = call key in some (set_ptr (if code == 0 then ptr else none) job, h)
look_up (shared call) key job h = let (e, h') = dup_found (call key) h in some (set_ptr e job, h')

unfoldable pub worker_gethostbyname : HostCall → Worker (HostArgs ℕ) Heap
worker_gethostbyname call job h = elim (c_string (drop job.args.key job.data_)) [
  | none ↦ none
  | some name ↦ look_up call name job h
]

unfoldable pub worker_gethostbyaddr : HostCall → Worker (HostArgs Bytes) Heap
worker_gethostbyaddr call job h = look_up call job.args.key job h

-- `NON_R_GETHOSTBYNAME`: the copy is freed.
abbrev pub release : HostCall → Option Hostent → Heap → Heap
release (gives_entry call) ptr h = h
release (gives_code call) ptr h = h
release (shared call) ptr h = hostent_free ptr h

module _ (pf_unix pf_inet : ℕ) where
  abbrev pub entry_value : Option Hostent → Outcome HostEntry
  entry_value none = fault
  entry_value (some e) = alloc_host_entry pf_unix pf_inet e

  -- Both results: the OCaml value, the freed job, and the heap.
  abbrev pub host_result :
      {K : Type 0}
      → HostCall
      → CallJob (HostArgs K)
      → Heap
      → Outcome HostEntry × CallJob (HostArgs K) × Heap
  host_result call job h = if job.freed then (fault, job, h) else elim job.args.ptr [
    | none ↦ (raised not_found, record job { freed = true }, h)
    | some p ↦ (entry_value job.args.entry, record job { freed = true }, release call (some p) h)
  ]

  unfoldable pub result_gethostbyname :
      HostCall → CallJob (HostArgs ℕ) → Heap → Outcome HostEntry × CallJob (HostArgs ℕ) × Heap
  result_gethostbyname call job h = host_result call job h

  unfoldable pub result_gethostbyaddr :
      HostCall
      → CallJob (HostArgs Bytes)
      → Heap
      → Outcome HostEntry × CallJob (HostArgs Bytes) × Heap
  result_gethostbyaddr call job h = host_result call job h

unfoldable pub gethostbyname_job : (name : Bytes) → Outcome (CallJob (HostArgs ℕ))
gethostbyname_job name =
    memcpy 0 (string_val name)
      (new_plus (length name + 1) (record { key = 0; entry = none; ptr = none }))

-- `GET_INET_ADDR` reads a `struct in_addr` of 4 bytes, which the OCaml string is to have.
abbrev pub get_inet_addr : Bytes → Option Bytes
get_inet_addr addr = if leb 4 (length addr) then some (take 4 addr) else none

abbrev pub job_on : Option Bytes → Outcome (CallJob (HostArgs Bytes))
job_on none = fault
job_on (some addr) = returned (new (record { key = addr; entry = none; ptr = none }))

unfoldable pub gethostbyaddr_job : (addr : Bytes) → Outcome (CallJob (HostArgs Bytes))
gethostbyaddr_job addr = job_on (get_inet_addr addr)
