-- ===== src/Tests/StubTests.antt =====
-- Host entries, directories, locks and transfers of src/unix/unix_c at concrete inputs.
use lwt.Base.{
  ℕ, ◌≡◌, ◌≢◌, ◌↔◌, refl, List, [], ◌∷◌, none, some, pos, true, false, fault, is_minus_one,
  minus_one,
}
use lwt.Heap.{Heap, Holds}
use lwt.Hostent.{Hostent, hostent_dup, copy_each, copy_array, s_strdup, dup_addresses, dup_aliases}
use lwt.Hostent.Copy.{DupResult}
use lwt.Hostent.Dup.{hostent_dup-DupResult}
use lwt.Readdir.{Reading, entry, error, worker_readdir_n, result_readdir_n}
use lwt.Readdir.Laws.{readdir_n-frees}
use lwt.Lockf.{Operation, Flock, Answer, f_unlck}
use lwt.Lockf.Laws.{lockf-fault, outcome, test_answer}

-- The heap's fourth allocation fails.
abbrev scarce : Heap
scarce = record { mallocs = 7; frees = 2; script = true ∷ true ∷ true ∷ false ∷ [] }

abbrev ample : Heap
ample = record { mallocs = 7; frees = 2; script = [] }

abbrev host : Hostent
host = record {
  h_name = some (104 ∷ []);
  h_aliases = some ((97 ∷ []) ∷ (98 ∷ []) ∷ []);
  h_addrtype = 2;
  h_length = 4;
  h_addr_list = some ((127 ∷ 0 ∷ 0 ∷ 1 ∷ 9 ∷ []) ∷ []);
}

hostent_dup-DupResult_example :
    DupResult host scarce (hostent_dup (some host) scarce).0 (hostent_dup (some host) scarce).1
hostent_dup-DupResult_example = hostent_dup-DupResult host scarce

scarce_dup : (hostent_dup (some host) scarce).0 ≡ none
unfolding hostent_dup copy_each copy_array s_strdup dup_aliases dup_addresses
scarce_dup = refl

abbrev host_copy : Hostent
host_copy = record host { h_addr_list = some ((127 ∷ 0 ∷ 0 ∷ 1 ∷ []) ∷ []) }

ample_dup :
    hostent_dup (some host) ample
    ≡ (some host_copy, record { mallocs = 14; frees = 2; script = [] })
unfolding hostent_dup copy_each copy_array s_strdup dup_aliases dup_addresses
ample_dup = refl

has_name : host.h_name ≢ none
has_name e = cc e

abbrev listing : List Reading
listing = entry (97 ∷ []) ∷ entry (98 ∷ []) ∷ error 4 ∷ entry (99 ∷ []) ∷ []

readdir_n-frees_example :
    ((result_readdir_n
        (worker_readdir_n 12 5 0 listing scarce).job
        (worker_readdir_n 12 5 0 listing scarce).heap).0
      ≢ fault)
    × Holds 1
        (result_readdir_n
          (worker_readdir_n 12 5 0 listing scarce).job
          (worker_readdir_n 12 5 0 listing scarce).heap).1
        scarce
readdir_n-frees_example = readdir_n-frees 12 5 listing scarce

abbrev files : List (List ℕ)
files = (97 ∷ []) ∷ (98 ∷ []) ∷ (99 ∷ []) ∷ []

abbrev bad_descriptor : ℕ → Operation → Flock → Answer
bad_descriptor fd operation l = record { value = minus_one; errno = 9; found = f_unlck }

-- The command that `F_TEST` is.
abbrev f_test : ℕ
f_test = 3

lockf-fault_example :
    (outcome bad_descriptor 13 22 1 f_test (pos 0) ≡ fault)
    ↔ ((f_test ≡ 3) × (is_minus_one (test_answer bad_descriptor 13 22 1 (pos 0)).value ≡ true))
lockf-fault_example = lockf-fault bad_descriptor 13 22 1 f_test (pos 0)
