-- ===== src/Lookup/NetworkLaws.antt =====
-- What the jobs of src/unix/unix_c/unix_getprotoby_getservby_job.c give.
use lwt.Base.{
  ℕ, suc, ◌+◌, ◌<◌, ◌≤◌, ◌++◌, true, List, [], replicate, Option, none, some, ℤ, int_val, ◌==◌,
  if◌then◌else◌, length, ◌≡◌, arith, not_found, Outcome, returned, raised,
}
use lwt.Calls.{Bytes, CallJob, Result, new_plus, string_val, memcpy}
use lwt.Calls.Strings.{
  cut, cells, holding, size, memcpy_one, memcpy_first, memcpy_last, c_string_one, c_string-cut,
  c_string-drop-size,
}
use lwt.Lookup.{EntryArgs, Lookup, adding, entry_or_not_found}
use lwt.Lookup.Laws.{EndsAt, Never, added, kept, adding_ends}
use lwt.Lookup.PasswdLaws.{worked, none_yet}
use lwt.Lookup.Network.{
  with_name, Protoent, Servent, TwoNames, PortProto, alloc_protoent, alloc_servent,
  worker_getprotobyname, result_getprotobyname, getprotobyname_job, worker_getprotobynumber,
  result_getprotobynumber, getprotobynumber_job, worker_getservbyname, result_getservbyname,
  getservbyname_job, worker_getservbyport, result_getservbyport, getservbyport_job,
}

-- What the answer of a call means: any error is `Not_found`.
abbrev pub found_value : {E V : Type 0} → (E → V) → ℕ × Option E → Outcome V
found_value alloc (code, none) = raised not_found
found_value alloc (code, some e) = if code == 0 then returned (alloc e) else raised not_found

-- The worker ends; the result is what the answer at the first size means that is not `ERANGE`, where
-- the sizes are the multiples of 1024; the job and all its buffers are freed.
abbrev pub LooksUp :
    {K E V : Type 0} (erange : ℕ) (alloc : E → V) (func : Lookup E)
    → Option (CallJob (EntryArgs K E))
    → Result (EntryArgs K E) V
    → Type 0
LooksUp {K} {E} {V} erange alloc func ended result =
    (job : CallJob (EntryArgs K E)) × (ended ≡ some job)
    × ((i : ℕ) × EndsAt erange func Never (added 1024) i
        × ((result job).0 ≡ found_value alloc (func (added 1024 i))))
    × ((result job).1.freed ≡ true)
    × ((result job).1.args.buffers ≡ 0)

-- `ERANGE` is only answered to buffers smaller than this.
abbrev pub Enough : {E : Type 0} → (erange need : ℕ) → Lookup E → Type 0
Enough erange need func = (s : ℕ) → (func s).0 ≡ erange → s < need

module _ {K E V : Type 0} (erange need : ℕ) (alloc : E → V) (func : Lookup E) (k : ℕ) (key : K)
    (all : List (Option ℕ)) where
  looks_up :
      ¬ (erange ≡ 0)
      → Enough erange need func
      → need ≤ added 1024 k
      → LooksUp erange alloc func
          (adding erange func (suc k) 1024 (holding (none_yet {E = E} key) all))
          (entry_or_not_found alloc)
  looks_up e enough h =
      let job = holding (none_yet {E = E} key) all in
      let (i, made, ends) = adding_ends erange need func k 1024 job e enough h in
      (kept (func (added 1024 i)) job, made, (i, ends, ground arith), ground arith, ground arith)

-- The calls ending in `_r`.
pub record Services : Type 0 where
  pub getprotobyname_r : Bytes → Lookup Protoent
  pub getprotobynumber_r : ℤ → Lookup Protoent
  pub getservbyname_r : Bytes → Bytes → Lookup Servent
  pub getservbyport_r : ℤ → Bytes → Lookup Servent

-- Where the two strings of the job for getservbyname lie.
two_names :
    {E : Type 0} (name proto : Bytes) (key : TwoNames)
    → memcpy 0 (string_val name) (new_plus (length name + length proto + 2) (none_yet {E = E} key))
      ≡ returned (holding (none_yet {E = E} key) (cells name ++ replicate (size proto) none))
two_names {E} name proto key =
    let e : length name + length proto + 2 ≡ size name + size proto = omega arith in
    rw e (memcpy_first (none_yet {E = E} key) name (size proto))

abbrev names : Bytes → TwoNames
names name = record { name = 0; proto = size name }

getservbyname_made :
    (name proto : Bytes)
    → getservbyname_job name proto
      ≡ returned (holding (none_yet (names name)) (cells name ++ cells proto))
unfolding getservbyname_job
getservbyname_made name proto =
    rw (two_names {E = Servent} name proto (names name), getservbyname_job)
      (memcpy_last (none_yet {E = Servent} (names name)) name proto)

-- What each of the jobs is to do; `rounds` is more than its worker takes.
abbrev pub NetworkJobs :
    (erange : ℕ)
    → Services
    → (htons ntohs : ℤ → ℤ) → (rounds : ℕ) → (name proto : Bytes) → (num port : ℤ) → Type 0
NetworkJobs erange s htons ntohs rounds name proto num port =
    LooksUp erange alloc_protoent (s.getprotobyname_r (cut name))
      (worked (getprotobyname_job name) (worker_getprotobyname erange s.getprotobyname_r rounds))
      result_getprotobyname
    × LooksUp erange alloc_protoent (s.getprotobynumber_r (int_val num))
        (worker_getprotobynumber erange s.getprotobynumber_r rounds (getprotobynumber_job num))
        result_getprotobynumber
    × LooksUp erange (alloc_servent ntohs) (s.getservbyname_r (cut name) (cut proto))
        (worked (getservbyname_job name proto)
          (worker_getservbyname erange s.getservbyname_r rounds))
        (result_getservbyname ntohs)
    × LooksUp erange (alloc_servent ntohs) (s.getservbyport_r (htons (int_val port)) (cut proto))
        (worked (getservbyport_job htons port proto)
          (worker_getservbyport erange s.getservbyport_r rounds))
        (result_getservbyport ntohs)

-- The jobs for getprotobyname, getprotobynumber, getservbyname and getservbyport end: the result is
-- what the answer means (an entry, or `Not_found` for every error) at the first multiple of 1024
-- bytes that is not answered by `ERANGE`; the job and each of its buffers are freed. Conditions:
-- `ERANGE` is not 0, and is only answered to buffers of fewer than `need` bytes, where `need` is at
-- most 1024 * (k + 1) for `k + 1` rounds.
pub network_lookups :
    (erange need : ℕ) (s : Services) (htons ntohs : ℤ → ℤ) (k : ℕ) (name proto : Bytes)
    (num port : ℤ)
    → ¬ (erange ≡ 0)
    → Enough erange need (s.getprotobyname_r (cut name))
    → Enough erange need (s.getprotobynumber_r (int_val num))
    → Enough erange need (s.getservbyname_r (cut name) (cut proto))
    → Enough erange need (s.getservbyport_r (htons (int_val port)) (cut proto))
    → need ≤ added 1024 k
    → NetworkJobs erange s htons ntohs (suc k) name proto num port
unfolding getprotobyname_job worker_getprotobyname result_getprotobyname getprotobynumber_job
    worker_getprotobynumber result_getprotobynumber getservbyname_job worker_getservbyname
    result_getservbyname getservbyport_job worker_getservbyport result_getservbyport
network_lookups erange need s htons ntohs k name proto num port e by_name by_number by_service
      by_port h =
    let port_key : PortProto = record { port = htons (int_val port); proto = 0 } in
    (
      rw (memcpy_one (none_yet {K = ℕ} {E = Protoent} 0) name) (
          rw (c_string_one name, worker_getprotobyname, with_name)
            (looks_up erange need alloc_protoent (s.getprotobyname_r (cut name)) k 0 (cells name) e
              by_name h)),
      looks_up erange need alloc_protoent (s.getprotobynumber_r (int_val num)) k (int_val num) [] e
          by_number h,
      rw (getservbyname_made name proto) (
          rw
            (
              c_string-cut name (cells proto),
              c_string-drop-size name proto,
              worker_getservbyname,
              with_name,
            )
            (looks_up erange need (alloc_servent ntohs) (s.getservbyname_r (cut name) (cut proto)) k
              (names name) (cells name ++ cells proto) e by_service h)),
      rw (memcpy_one (none_yet {E = Servent} port_key) proto) (
          rw (c_string_one proto, worker_getservbyport, with_name)
            (looks_up erange need (alloc_servent ntohs)
              (s.getservbyport_r (htons (int_val port)) (cut proto)) k port_key (cells proto) e
              by_port h)),
    )
