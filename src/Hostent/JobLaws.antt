-- ===== src/Hostent/JobLaws.antt =====
-- What the jobs of src/unix/unix_c/unix_gethostbyname_job.c and
-- src/unix/unix_c/unix_gethostbyaddr_job.c give, and what they leave allocated.
use lwt.Base.{
  ℕ, ◌≤◌, true, false, [], Option, none, some, ◌==◌, if◌then◌else◌, ◌≡◌, ◌≢◌, ◌⊎◌, inl, inr, refl,
  length, take, leb, ap, ◌∙◌, arith, Outcome, returned, raised, fault, not_found,
}
use lwt.Heap.{Heap, Holds}
use lwt.Hostent.{Hostent, HostEntry, alloc_host_entry, addr_size, hostent_dup}
use lwt.Hostent.Copy.{DupResult}
use lwt.Hostent.Dup.{hostent_dup-DupResult}
use lwt.Hostent.Entry.{copied-alloc}
use lwt.Hostent.Enough.{Made, hostent_dup-Made}
use lwt.Hostent.Jobs.{
  HostCall, gives_entry, gives_code, shared, HostArgs, set_ptr, look_up, host_result,
  worker_gethostbyname, worker_gethostbyaddr, result_gethostbyname, result_gethostbyaddr,
  gethostbyname_job, gethostbyaddr_job,
}
use lwt.Calls.{Bytes, CallJob, Worker, new}
use lwt.Calls.Strings.{cut, cells, holding, memcpy_one, c_string_one}

-- What the call answers, in any of the three ways.
abbrev pub answer_of : HostCall → Bytes → Option Hostent
answer_of (gives_entry call) key = call key
answer_of (gives_code call) key = let (code, ptr) = call key in if code == 0 then ptr else none
answer_of (shared call) key = call key

-- An entry as the calls give it: it has a name, and its addresses are as long as they are read.
abbrev pub Whole : Option Hostent → Type 0
Whole none = Unit {0}
Whole (some o) = (o.h_name ≢ none) × (addr_size o ≤ o.h_length)

abbrev pub IsShared : HostCall → Type 0
IsShared (gives_entry call) = ⊥
IsShared (gives_code call) = ⊥
IsShared (shared call) = Unit {0}

module _ (pf_unix pf_inet : ℕ) where
  -- The value of an answer; that an entry is not found though it is there comes from memory that is
  -- needed for its copy.
  abbrev pub Means : HostCall → Option Hostent → Heap → Outcome HostEntry → Type 0
  Means call none h v = v ≡ raised not_found
  Means call (some o) h v =
      (v ≡ alloc_host_entry pf_unix pf_inet o)
      ⊎ ((v ≡ raised not_found) × IsShared call × (h.script ≢ []))

  -- A result means the answer, with the job freed, and the heap holds what it did.
  abbrev pub Ended :
      {K : Type 0}
      → HostCall
      → Option Hostent
      → Heap
      → Outcome HostEntry × CallJob (HostArgs K) × Heap
      → Type 0
  Ended call answer h (v, job, h') = Means call answer h v × (job.freed ≡ true) × Holds 0 h h'

  -- The worker ends, and the result is as above.
  abbrev pub Done :
      {K : Type 0}
      → HostCall
      → Option Hostent
      → Heap
      → Option (CallJob (HostArgs K) × Heap)
      → (CallJob (HostArgs K) → Heap → Outcome HostEntry × CallJob (HostArgs K) × Heap)
      → Type 0
  Done {K} call answer h worked result =
      (job : CallJob (HostArgs K)) × (h' : Heap) × Ended call answer h (result job h')
      × (worked ≡ some (job, h'))

  module _ {K : Type 0} (call : Bytes → Option Hostent) (job : CallJob (HostArgs K))
      (fresh : job.freed ≡ false) where
    copied_result :
        (o : Hostent) (h : Heap) (r : Option Hostent × Heap)
        → Whole (some o)
        → DupResult o h r.0 r.1
        → (h.script ≡ [] → Made r)
        → Ended
            (shared call)
            (some o)
            h
            (host_result pf_unix pf_inet (shared call) (set_ptr r.0 job) r.1)
    copied_result o h (none, h') whole c made =
        rw fresh (inr (refl, tt, λ e. absurd (cc (made e).1)), refl, c)
    copied_result o h (some e, h') whole c made = rw fresh (
      inl (
          ap (alloc_host_entry pf_unix pf_inet) c.0
          ∙ copied-alloc pf_unix pf_inet o whole.0 whole.1),
      refl,
      c.1,
    )

  module _ {K : Type 0} (key : Bytes) (job : CallJob (HostArgs K)) (fresh : job.freed ≡ false)
      (h : Heap) where
    -- Where the answer is kept as it is, and nothing is allocated.
    kept :
        (call : HostCall) (answer : Option Hostent)
        → look_up call key job h ≡ some (set_ptr answer job, h)
        → host_result pf_unix pf_inet call (set_ptr answer job) h
          ≡ host_result pf_unix pf_inet (gives_entry (λ k. answer)) (set_ptr answer job) h
        → Done call answer h (look_up call key job h) (host_result pf_unix pf_inet call)
    kept call none made same = (_, _, rw (same, fresh) (refl, refl, omega arith), made)
    kept call (some o) made same = (_, _, rw (same, fresh) (inl refl, refl, omega arith), made)

    dup_done :
        (call : Bytes → Option Hostent) (answer : Option Hostent)
        → call key ≡ answer
        → Whole answer
        → Done
            (shared call)
            answer
            h
            (look_up (shared call) key job h)
            (host_result pf_unix pf_inet (shared call))
    dup_done call none e whole = rw e (_, _, rw fresh (refl, refl, omega arith), refl)
    dup_done call (some o) e whole = rw e (
      _,
      _,
      copied_result call job fresh o h (hostent_dup (some o) h) whole (hostent_dup-DupResult o h)
          (hostent_dup-Made o h),
      refl,
    )

    looked_up :
        (call : HostCall)
        → Whole (answer_of call key)
        → Done call
            (answer_of call key)
            h
            (look_up call key job h)
            (host_result pf_unix pf_inet call)
    looked_up (gives_entry call) whole = kept (gives_entry call) (call key) refl refl
    looked_up (gives_code call) whole =
        kept (gives_code call) (answer_of (gives_code call) key) refl refl
    looked_up (shared call) whole = dup_done call (call key) refl whole

-- The worker on the job that the stub made.
abbrev pub after :
    {K : Type 0}
    → Outcome (CallJob (HostArgs K))
    → Worker (HostArgs K) Heap
    → Heap
    → Option (CallJob (HostArgs K) × Heap)
after (returned job) worker h = worker job h
after (raised e) worker h = none
after fault worker h = none

abbrev new_args : {K : Type 0} → K → HostArgs K
new_args key = record { key = key; entry = none; ptr = none }

gethostbyaddr_job-read :
    (addr : Bytes)
    → 4 ≤ length addr
    → gethostbyaddr_job addr ≡ returned (new (new_args (take 4 addr)))
unfolding gethostbyaddr_job
gethostbyaddr_job-read addr h = let long : leb 4 (length addr) ≡ true = ground arith in rw long refl

-- The jobs for gethostbyname and gethostbyaddr, in each of the three ways in which the calls may be
-- there, whatever allocations fail, from the stub to the result: the value is that of the entry
-- that the call answers for the name up to its first zero or for the first 4 bytes of the address,
-- an IPv4 address, or `Not_found`, which with an entry comes only from a copy for which memory can
-- run out; the job is freed, and all that was allocated for the copy. Conditions: the address has
-- at least 4 bytes, an entry has a name, and its addresses are as long as `alloc_host_entry` reads.
pub host_lookups :
    (pf_unix pf_inet : ℕ) (by_name by_addr : HostCall) (name addr : Bytes) (h : Heap)
    → Whole (answer_of by_name (cut name))
    → 4 ≤ length addr
    → Whole (answer_of by_addr (take 4 addr))
    → Done pf_unix pf_inet by_name
        (answer_of by_name (cut name))
        h
        (after (gethostbyname_job name) (worker_gethostbyname by_name) h)
        (result_gethostbyname pf_unix pf_inet by_name)
      × Done pf_unix pf_inet by_addr
          (answer_of by_addr (take 4 addr))
          h
          (after (gethostbyaddr_job addr) (worker_gethostbyaddr by_addr) h)
          (result_gethostbyaddr pf_unix pf_inet by_addr)
unfolding gethostbyname_job worker_gethostbyname result_gethostbyname worker_gethostbyaddr
    result_gethostbyaddr
host_lookups pf_unix pf_inet by_name by_addr name addr h name_whole size addr_whole =
    let args : HostArgs ℕ = new_args 0 in
    (
      rw (memcpy_one args name) (
          rw (c_string_one name, worker_gethostbyname)
            (looked_up pf_unix pf_inet (cut name) (holding args (cells name)) refl h by_name
              name_whole)),
      rw (ap (λ o. after o (worker_gethostbyaddr by_addr) h) (gethostbyaddr_job-read addr size)) (
          looked_up pf_unix pf_inet (take 4 addr) (new (new_args (take 4 addr))) refl h by_addr
            addr_whole),
    )
