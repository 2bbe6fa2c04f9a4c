-- ===== src/Lookup/Copies.antt =====
-- src/unix/unix_c/unix_getprotoby_getservby_job.c where the calls ending in `_r` are missing: the
-- worker copies the entry, which the next call may overwrite, and the result frees the copy. The
-- copies are on the heap that may run out.
use lwt.Base.{List, Option, none, some, ℤ, if◌then◌else◌, not_found, Outcome, returned, raised}
use lwt.Heap.{Heap, malloc, free}
use lwt.Hostent.{Bytes, s_strdup, c_copy_string_array, c_free_string_array, failed}

-- `struct servent` and `struct protoent`, where a null pointer is `none`.
pub record Servent : Type 0 where
  pub s_name : Option Bytes
  pub s_aliases : Option (List Bytes)
  pub s_port : ℤ
  pub s_proto : Option Bytes

pub record Protoent : Type 0 where
  pub p_name : Option Bytes
  pub p_aliases : Option (List Bytes)
  pub p_proto : ℤ

-- What follows `s_strdup`: its cleanup, or what comes next.
abbrev pub after_strdup :
    {E : Type 0} (cleanup : Heap → Heap) (next : Bytes → Heap → Option E × Heap)
    → Option Bytes
    → Heap
    → Option E × Heap
after_strdup cleanup next none h = (none, cleanup h)
after_strdup cleanup next (some s) h = next s h

-- `servent_dup` from its array on, with `nomem4`.
unfoldable pub servent_aliases : Servent → (name proto : Bytes) → Heap → Option Servent × Heap
servent_aliases serv name proto h =
    let (aliases, h1) = c_copy_string_array serv.s_aliases h in
    if failed serv.s_aliases aliases then (none, free (free (free h1))) else (
      some (record {
        s_name = some name;
        s_aliases = aliases;
        s_port = serv.s_port;
        s_proto = some proto;
      }),
      h1,
    )

-- From its second string on, with `nomem3`.
unfoldable pub servent_proto : Servent → (name : Bytes) → Heap → Option Servent × Heap
servent_proto serv name h =
    let (proto, h1) = s_strdup serv.s_proto h in
    after_strdup (λ h. free (free h)) (servent_aliases serv name) proto h1

unfoldable pub servent_dup : Option Servent → Heap → Option Servent × Heap
servent_dup none h = (none, h)
servent_dup (some serv) h =
    let (ok, h1) = malloc h in
    if ok
    then (let (name, h2) = s_strdup serv.s_name h1 in
        after_strdup free (servent_proto serv) name h2)
    else (none, h1)

unfoldable pub servent_free : Option Servent → Heap → Heap
servent_free none h = h
servent_free (some s) h = free (c_free_string_array s.s_aliases (free (free h)))

-- `protoent_dup` from its array on, with `nomem2`.
unfoldable pub protoent_aliases : Protoent → (name : Bytes) → Heap → Option Protoent × Heap
protoent_aliases proto name h =
    let (aliases, h1) = c_copy_string_array proto.p_aliases h in
    if failed proto.p_aliases aliases
    then (none, free (free h1))
    else (some (record { p_name = some name; p_aliases = aliases; p_proto = proto.p_proto }), h1)

unfoldable pub protoent_dup : Option Protoent → Heap → Option Protoent × Heap
protoent_dup none h = (none, h)
protoent_dup (some proto) h =
    let (ok, h1) = malloc h in
    if ok
    then (let (name, h2) = s_strdup proto.p_name h1 in
        after_strdup free (protoent_aliases proto) name h2)
    else (none, h1)

unfoldable pub protoent_free : Option Protoent → Heap → Heap
protoent_free none h = h
protoent_free (some p) h = free (c_free_string_array p.p_aliases (free h))

-- `worker_##FUNC` in this variant: the entry that the call finds, copied.
abbrev pub worker_copy :
    {E : Type 0} (dup : Option E → Heap → Option E × Heap) → Option E → Heap → Option E × Heap
worker_copy dup none h = (none, h)
worker_copy dup (some e) h = dup (some e) h

-- `result_##FUNC` in this variant, and the release of the job.
abbrev pub result_copy :
    {E V : Type 0} (alloc : E → V) (free_entry : Option E → Heap → Heap)
    → Option E
    → Heap
    → Outcome V × Heap
result_copy alloc free_entry none h = (raised not_found, free h)
result_copy alloc free_entry (some e) h = (returned (alloc e), free (free_entry (some e) h))
