-- ===== src/Tests/QueryTests.antt =====
-- Further jobs of src/unix/unix_c at concrete inputs, and a directory that is read in both ways.
use lwt.Base.{
  ℕ, suc, Bool, List, [], ◌∷◌, none, some, pos, negsuc, minus_one, int_val, length, ◌==◌,
  if◌then◌else◌, ◌≡◌, refl, arith, returned, raised, unix_error,
}
use lwt.Heap.{Heap}
use lwt.Calls.Open.{fifo}
use lwt.Calls.Query.{Timeval}
use lwt.Calls.Descriptor.{entry_of}
use lwt.Calls.Directory.{worker_readdir, result_readdir, readdir_job}
use lwt.Calls.Directory.Batch.{Agrees, singles, readdir_n-singles}
use lwt.Calls.QueryLaws.{Queries, Tables, Given, QueryJobs, query_calls}
use lwt.Readdir.{Reading, entry, error, worker_readdir_n, result_readdir_n}

-- A system that counts its calls; a working directory "/a", and no user.
abbrev counts : {X : Type 0} → X → ℕ → X × ℕ
counts x w = (x, suc w)

abbrev system : Queries ℕ ℕ
system = record {
  isatty = λ fd. counts (pos 1);
  fstat = λ fd. counts (some fifo);
  bind = λ fd addr. counts (minus_one, 98);
  access = λ path mode. counts (if mode == 6 then (pos 0, 0) else (minus_one, 13));
  utimes = λ path times. counts (pos 0, 0);
  opendir = λ path. counts (if length path == 2 then (some 7, 0) else (none, 2));
  closedir = λ dir. counts (pos 0, 0);
  rewinddir = λ dir. suc;
  getcwd = λ size. counts (some (47 ∷ 97 ∷ []), 0);
  getlogin_r = λ size. counts (6, []);
  getnameinfo = λ addr host serv opts. counts (0, 104 ∷ [], 56 ∷ 48 ∷ []);
  lseek = λ fd offset whence. counts (offset, 0);
}

-- The constants of Linux.
abbrev tables : Tables
tables = record {
  access_permission_table = 4 ∷ 2 ∷ 1 ∷ 0 ∷ [];
  getnameinfo_flag_table = 4 ∷ 1 ∷ 8 ∷ 2 ∷ 16 ∷ [];
  seek_command_table = pos 0 ∷ pos 1 ∷ pos 2 ∷ [];
}

abbrev given : Given ℕ ℕ
given = record {
  path = 97 ∷ 98 ∷ 0 ∷ 99 ∷ [];
  fd = pos 3;
  dir = some 7;
  address = 80;
  modes = 0 ∷ 1 ∷ [];
  atime = 0;
  mtime = 5;
  opts = 3 ∷ 1 ∷ [];
  offset = negsuc 1;
  whence = pos 1;
}

abbrev none_given : ℕ → Bool
none_given t = t == 0

abbrev split : ℕ → Timeval
split t = (pos t, pos 0)

abbrev words : List ℕ
words = 4 ∷ 2 ∷ []

abbrev flags : List ℕ
flags = 2 ∷ 1 ∷ []

whence_entry : entry_of tables.seek_command_table (int_val given.whence) ≡ some (pos 1)
unfolding int_val
whence_entry = refl

query_calls_example : QueryJobs system tables (λ a. a) none_given split given 0 words 3 (pos 1)
query_calls_example =
    query_calls system tables (λ a. a) none_given split given 0 words flags (pos 1)
      (refl, (refl, tt)) (refl, (refl, tt)) whence_entry (omega arith, tt, omega arith, omega arith)

abbrev ample : Heap
ample = record { mallocs = 7; frees = 2; script = [] }

abbrev listing : List Reading
listing = entry (97 ∷ []) ∷ entry (98 ∷ []) ∷ error 4 ∷ entry (99 ∷ []) ∷ []

readdir_n-singles_example :
    Agrees
      (some 7)
      5
      listing
      (result_readdir_n
        (worker_readdir_n 12 5 0 listing ample).job
        (worker_readdir_n 12 5 0 listing ample).heap).0
      (worker_readdir_n 12 5 0 listing ample).dir
readdir_n-singles_example = readdir_n-singles (some 7) 12 5 listing ample refl

-- The failure is raised once; the next job goes on behind it.
after_error :
    (singles (some 7) 2 (error 4 ∷ entry (99 ∷ []) ∷ [])).0
    ≡ raised (unix_error 5 "readdir" "") ∷ returned (99 ∷ []) ∷ []
unfolding singles worker_readdir result_readdir readdir_job
after_error = refl
