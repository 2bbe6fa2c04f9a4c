-- ===== src/Lookup/Network.antt =====
-- src/unix/unix_c/unix_getprotoby_getservby_job.c as compiled with `HAVE_NETDB_REENTRANT`: the jobs for
-- getprotobyname, getprotobynumber, getservbyname and getservbyport. `htons` and `ntohs` are
-- parameters, as they depend on the machine.
use lwt.Base.{
  ℕ, ◌+◌, List, Option, none, some, ℤ, int_val, drop, length, Outcome, returned, raised, fault,
}
use lwt.Calls.{Bytes, CallJob, Result, new, new_plus, string_val, memcpy, c_string}
use lwt.Lookup.{EntryArgs, Lookup, adding, entry_or_not_found}

-- `struct protoent` and `struct servent`.
pub record Protoent : Type 0 where
  pub p_name : Bytes
  pub p_aliases : List Bytes
  pub p_proto : ℤ

pub record Servent : Type 0 where
  pub s_name : Bytes
  pub s_aliases : List Bytes
  pub s_port : ℤ
  pub s_proto : Bytes

-- `Unix.protocol_entry` and `Unix.service_entry`, the fields in OCaml's order.
abbrev pub ProtocolEntry : Type 0
ProtocolEntry = Bytes × List Bytes × ℤ

abbrev pub ServiceEntry : Type 0
ServiceEntry = Bytes × List Bytes × ℤ × Bytes

unfoldable pub alloc_protoent : Protoent → ProtocolEntry
alloc_protoent entry = (entry.p_name, entry.p_aliases, entry.p_proto)

unfoldable pub alloc_servent : (ntohs : ℤ → ℤ) → Servent → ServiceEntry
alloc_servent ntohs entry = (entry.s_name, entry.s_aliases, ntohs entry.s_port, entry.s_proto)

-- The arguments of the four calls: offsets of strings, or numbers.
pub record TwoNames : Type 0 where
  pub name : ℕ
  pub proto : ℕ

pub record PortProto : Type 0 where
  pub port : ℤ
  pub proto : ℕ

-- A string of the job, for a worker.
abbrev pub with_name :
    {K E : Type 0}
    → ℕ
    → (Bytes → CallJob (EntryArgs K E) → Option (CallJob (EntryArgs K E)))
    → CallJob (EntryArgs K E)
    → Option (CallJob (EntryArgs K E))
with_name at k job = elim (c_string (drop at job.data_)) [ none ↦ none | some s ↦ k s job ]

-- `struct job_getprotobyname`
abbrev pub JobGetprotobyname : Type 0
JobGetprotobyname = CallJob (EntryArgs ℕ Protoent)

unfoldable pub worker_getprotobyname :
    (erange : ℕ) (getprotobyname_r : Bytes → Lookup Protoent) (fuel : ℕ)
    → JobGetprotobyname
    → Option JobGetprotobyname
worker_getprotobyname erange getprotobyname_r fuel job =
    with_name job.args.key (λ name. adding erange (getprotobyname_r name) fuel 1024) job

unfoldable pub result_getprotobyname : Result (EntryArgs ℕ Protoent) ProtocolEntry
result_getprotobyname = entry_or_not_found alloc_protoent

unfoldable pub getprotobyname_job : (name : Bytes) → Outcome JobGetprotobyname
getprotobyname_job name =
    memcpy 0 (string_val name)
      (new_plus (length name + 1) (record { key = 0; code = none; ptr = none; buffers = 0 }))

-- `struct job_getprotobynumber`
abbrev pub JobGetprotobynumber : Type 0
JobGetprotobynumber = CallJob (EntryArgs ℤ Protoent)

unfoldable pub worker_getprotobynumber :
    (erange : ℕ) (getprotobynumber_r : ℤ → Lookup Protoent) (fuel : ℕ)
    → JobGetprotobynumber
    → Option JobGetprotobynumber
worker_getprotobynumber erange getprotobynumber_r fuel job =
    adding erange (getprotobynumber_r job.args.key) fuel 1024 job

unfoldable pub result_getprotobynumber : Result (EntryArgs ℤ Protoent) ProtocolEntry
result_getprotobynumber = entry_or_not_found alloc_protoent

unfoldable pub getprotobynumber_job : (num : ℤ) → JobGetprotobynumber
getprotobynumber_job num = new (record { key = int_val num; code = none; ptr = none; buffers = 0 })

-- `struct job_getservbyname`
abbrev pub JobGetservbyname : Type 0
JobGetservbyname = CallJob (EntryArgs TwoNames Servent)

unfoldable pub worker_getservbyname :
    (erange : ℕ) (getservbyname_r : Bytes → Bytes → Lookup Servent) (fuel : ℕ)
    → JobGetservbyname
    → Option JobGetservbyname
worker_getservbyname erange getservbyname_r fuel job =
    with_name job.args.key.name
      (λ name.
        with_name job.args.key.proto
          (λ proto. adding erange (getservbyname_r name proto) fuel 1024))
      job

unfoldable pub result_getservbyname :
    (ntohs : ℤ → ℤ) → Result (EntryArgs TwoNames Servent) ServiceEntry
result_getservbyname ntohs = entry_or_not_found (alloc_servent ntohs)

unfoldable pub getservbyname_job : (name proto : Bytes) → Outcome JobGetservbyname
getservbyname_job name proto =
    let len1 = length name in
    let len2 = length proto in
    let key : TwoNames = record { name = 0; proto = len1 + 1 } in
    let job =
      new_plus (len1 + len2 + 2) (record { key = key; code = none; ptr = none; buffers = 0 }) in
    elim (memcpy 0 (string_val name) job) [
      | returned job' ↦ memcpy (len1 + 1) (string_val proto) job'
      | raised e ↦ raised e
      | fault ↦ fault
    ]

-- `struct job_getservbyport`
abbrev pub JobGetservbyport : Type 0
JobGetservbyport = CallJob (EntryArgs PortProto Servent)

unfoldable pub worker_getservbyport :
    (erange : ℕ) (getservbyport_r : ℤ → Bytes → Lookup Servent) (fuel : ℕ)
    → JobGetservbyport
    → Option JobGetservbyport
worker_getservbyport erange getservbyport_r fuel job =
    with_name job.args.key.proto
      (λ proto. adding erange (getservbyport_r job.args.key.port proto) fuel 1024) job

unfoldable pub result_getservbyport :
    (ntohs : ℤ → ℤ) → Result (EntryArgs PortProto Servent) ServiceEntry
result_getservbyport ntohs = entry_or_not_found (alloc_servent ntohs)

unfoldable pub getservbyport_job :
    (htons : ℤ → ℤ) (port : ℤ) (proto : Bytes) → Outcome JobGetservbyport
getservbyport_job htons port proto =
    let key : PortProto = record { port = htons (int_val port); proto = 0 } in
    memcpy 0 (string_val proto)
      (new_plus (length proto + 1) (record { key = key; code = none; ptr = none; buffers = 0 }))
