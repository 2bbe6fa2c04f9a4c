-- ===== src/Tests/LookupTests.antt =====
-- The jobs of src/unix/unix_c that enlarge a buffer, at concrete inputs.
use lwt.Base.{
  ℕ, Bool, replicate, lt→ltb, le→ltb, [], ◌∷◌, none, some, true, false, ◌≡◌, pos, minus_one, length,
  take, ltb, if◌then◌else◌, min, ◌≤◌, inr, refl, arith, returned,
}
use lwt.Heap.{Heap}
use lwt.Hostent.{s_strdup, copy_array}
use lwt.Calls.{Bytes, string_val}
use lwt.Calls.Strings.{cut}
use lwt.Buffers.{
  started, Answer, worker_readlink, readlink_job, worker_gethostname, gethostname_job,
}
use lwt.Buffers.Readlink
use lwt.Buffers.Gethostname
use lwt.Buffers.Ends.{buffers_end}
use lwt.Lookup.{Lookup}
use lwt.Lookup.Passwd.{Passwd, Group}
use lwt.Lookup.PasswdLaws.{Database, PasswdJobs, passwd_lookups}
use lwt.Lookup.Network.{Protoent, Servent}
use lwt.Lookup.NetworkLaws.{Services, NetworkJobs, network_lookups, Enough}
use lwt.Lookup.Copies
use lwt.Lookup.Copied.{servent_copy, protoent_copy, CopyEnds, copies_end}

abbrev memory : Heap
memory = record { mallocs = 3; frees = 1; script = [] }

abbrev target : Bytes
target = 97 ∷ 98 ∷ []

abbrev path : Bytes
path = 47 ∷ 108 ∷ 0 ∷ 9 ∷ []

abbrev reads_link : Bytes → ℕ → Answer
reads_link name size = record {
  value = pos (min size (length target));
  errno = 0;
  written = take size target;
}

reads_Names : (size : ℕ) → Readlink.Names size (reads_link (cut path) size) (inr target)
reads_Names size = (refl, refl)

-- A host name of 70 bytes, for which the first buffer is too small; 36 is `ENAMETOOLONG`.
abbrev long_name : Bytes
long_name = replicate 70 104

abbrev host_answer : Bool → Answer
host_answer true = record { value = pos 0; errno = 0; written = string_val long_name }
host_answer false = record { value = minus_one; errno = 36; written = [] }

abbrev gives_host : ℕ → Answer
gives_host size = host_answer (ltb 70 size)

host_Names : (size : ℕ) → Gethostname.Names 36 size (gives_host size) (inr long_name)
host_Names size =
    ((λ h. rw (lt→ltb 70 size h) (refl, refl)), (λ h. rw (le→ltb 70 size h) (refl, refl)))

buffers_end_example :
    Readlink.Ended
      (λ e. e)
      reads_link
      memory
      (returned (cut target))
      (started (readlink_job path) (worker_readlink (λ e. e) reads_link 2 1024) memory)
    × Gethostname.Ended
        (λ e. e)
        36
        gives_host
        memory
        (returned (cut long_name))
        (started gethostname_job (worker_gethostname (λ e. e) 36 gives_host 2 64) memory)
buffers_end_example =
    buffers_end (λ e. e) 36 reads_link gives_host path (inr target) (inr long_name) 1 memory
      reads_Names host_Names (omega arith) (omega arith) (omega arith) (omega arith)

abbrev root : Passwd
root = record {
  pw_name = 114 ∷ [];
  pw_passwd = [];
  pw_uid = pos 0;
  pw_gid = pos 0;
  pw_gecos = [];
  pw_dir = 47 ∷ [];
  pw_shell = [];
}

abbrev wheel : Group
wheel = record { gr_name = 119 ∷ []; gr_passwd = []; gr_gid = pos 0; gr_mem = (114 ∷ []) ∷ [] }

-- An entry that needs a buffer of so many bytes; `ERANGE` is 34.
abbrev needing : {E : Type 0} → ℕ → E → Lookup E
needing n e size = if ltb size n then (34, none) else (0, some e)

abbrev database : Database
database = record {
  getpwnam_r = λ name. needing 5000 root;
  getgrnam_r = λ name size. (0, none);
  getpwuid_r = λ uid. needing 9999999 root;
  getgrgid_r = λ gid size. (5, none);
}

passwd_lookups_example : PasswdJobs 34 database (pos 1024) 12 (114 ∷ []) (pos 0) (pos 0)
passwd_lookups_example =
    passwd_lookups 34 database (pos 1024) 11 (114 ∷ []) (pos 0) (pos 0) (omega arith)

abbrev tcp : Protoent
tcp = record { p_name = 116 ∷ []; p_aliases = []; p_proto = pos 6 }

abbrev http : Servent
http = record { s_name = 104 ∷ []; s_aliases = []; s_port = pos 20480; s_proto = 116 ∷ [] }

abbrev services : Services
services = record {
  getprotobyname_r = λ name. needing 1500 tcp;
  getprotobynumber_r = λ num size. (2, none);
  getservbyname_r = λ name proto. needing 2000 http;
  getservbyport_r = λ port proto size. (0, none);
}

needing-Enough : {E : Type 0} (n : ℕ) (e : E) → n ≤ 2048 → Enough 34 2048 (needing n e)
needing-Enough n e le s h = ground arith

network_lookups_example :
    NetworkJobs 34 services (λ p. p) (λ p. p) 2 (104 ∷ []) (116 ∷ []) (pos 6) (pos 80)
network_lookups_example =
    network_lookups 34 2048 services (λ p. p) (λ p. p) 1 (104 ∷ []) (116 ∷ []) (pos 6) (pos 80)
      (λ e. omega arith) (needing-Enough 1500 tcp (omega arith)) (λ s e. omega arith)
      (needing-Enough 2000 http (omega arith)) (λ s e. omega arith) (omega arith)

-- Entries of the calls that share their result, and a heap whose fourth block fails.
abbrev shared : Copies.Servent
shared = record {
  s_name = some (104 ∷ []);
  s_aliases = some ((119 ∷ []) ∷ []);
  s_port = pos 20480;
  s_proto = none;
}

abbrev shared_proto : Copies.Protoent
shared_proto = record { p_name = some (116 ∷ []); p_aliases = none; p_proto = pos 6 }

abbrev small : Heap
small = record { mallocs = 3; frees = 1; script = true ∷ true ∷ true ∷ false ∷ [] }

copies_end_example :
    CopyEnds
      (λ (s : Copies.Servent). s)
      Copies.servent_dup
      Copies.servent_free
      (some shared)
      (some (servent_copy shared))
      small
    × CopyEnds
        (λ (p : Copies.Protoent). p)
        Copies.protoent_dup
        Copies.protoent_free
        (some shared_proto)
        (some (protoent_copy shared_proto))
        small
copies_end_example = copies_end (λ s. s) (λ p. p) (some shared) (some shared_proto) small

-- The array of aliases cannot be allocated: three blocks are freed.
shared_fails :
    Copies.servent_dup (some shared) small ≡ (none, record { mallocs = 6; frees = 4; script = [] })
unfolding Copies.servent_dup Copies.servent_proto Copies.servent_aliases s_strdup copy_array
shared_fails = refl
