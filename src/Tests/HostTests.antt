-- ===== src/Tests/HostTests.antt =====
-- The jobs of src/unix/unix_c that look a host up, at concrete inputs.
use lwt.Base.{[], ◌∷◌, some, true, false, arith, length, ◌==◌, if◌then◌else◌}
use lwt.Heap.{Heap}
use lwt.Hostent.{Hostent}
use lwt.Hostent.Jobs.{
  HostCall, gives_code, shared, worker_gethostbyname, result_gethostbyname, gethostbyname_job,
  worker_gethostbyaddr, result_gethostbyaddr, gethostbyaddr_job,
}
use lwt.Hostent.JobLaws.{Done, Whole, after, host_lookups}
use lwt.Calls.{Bytes}

-- The fourth allocation fails.
abbrev scarce : Heap
scarce = record { mallocs = 7; frees = 2; script = true ∷ true ∷ true ∷ false ∷ [] }

abbrev localhost : Hostent
localhost = record {
  h_name = some (104 ∷ []);
  h_aliases = some ((97 ∷ []) ∷ (98 ∷ []) ∷ []);
  h_addrtype = 2;
  h_length = 4;
  h_addr_list = some ((127 ∷ 0 ∷ 0 ∷ 1 ∷ []) ∷ []);
}

abbrev by_name : HostCall
by_name = shared (λ name. some localhost)

abbrev by_addr : HostCall
by_addr = gives_code (λ addr. (if length addr == 4 then 0 else 34, some localhost))

-- An IPv6 address, of which only the first 4 bytes are looked up.
abbrev mapped : Bytes
mapped = 127 ∷ 0 ∷ 0 ∷ 1 ∷ 9 ∷ 9 ∷ 9 ∷ 9 ∷ 9 ∷ 9 ∷ 9 ∷ 9 ∷ 9 ∷ 9 ∷ 9 ∷ 9 ∷ []

abbrev name : Bytes
name = 104 ∷ 0 ∷ []

localhost-Whole : Whole (some localhost)
localhost-Whole = ((λ e. cc e), omega arith)

host_lookups_example :
    Done 1 2 by_name
      (some localhost)
      scarce
      (after (gethostbyname_job name) (worker_gethostbyname by_name) scarce)
      (result_gethostbyname 1 2 by_name)
    × Done 1 2 by_addr
        (some localhost)
        scarce
        (after (gethostbyaddr_job mapped) (worker_gethostbyaddr by_addr) scarce)
        (result_gethostbyaddr 1 2 by_addr)
host_lookups_example =
    host_lookups 1 2 by_name by_addr name mapped scarce localhost-Whole (omega arith)
      localhost-Whole
