-- ===== src/Tests/CallsTests.antt =====
-- The jobs of src/unix/unix_c that make one call, at concrete inputs: a system that counts the bytes
-- and the numbers it is given.
use lwt.Base.{
  ℕ, ◌+◌, List, [], ◌∷◌, Option, some, true, false, ℤ, pos, negsuc, minus_one, int_val, length,
  if◌then◌else◌, ◌==◌, ◌≡◌, refl, returned, raised, unix_error_arg,
}
use lwt.Calls.{Bytes, Sys, run, memcpy, c_string}
use lwt.Calls.Strings.{cut}
use lwt.Calls.PathLaws.{PathJobs, PathCalls, path_calls}
use lwt.Calls.TwoPathsLaws.{TwoPathJobs, TwoPathCalls, two_path_calls}
use lwt.Calls.Descriptor.{entry_of}
use lwt.Calls.DescriptorLaws.{FdJobs, FdCalls, descriptor_calls}
use lwt.Calls.Open.{
  wants_cloexec, OpenFlags, FileKind, fifo, convert_flag_list, open_job, worker_open, result_open,
  open_flag_table,
}
use lwt.Calls.Open.Laws
use Prim.Native.Nat.{bit_or}
use lwt.Calls.Open.Laws.{open_calls, has}
use lwt.Calls.TwoPaths.{rename_job, worker_rename, result_rename}
use lwt.Calls.Stat.{Stat, Stats, Modes, StatSys, copy_stat, kind_of}
use lwt.Calls.Stat.Laws.{StatCalls, StatJobs, stat_calls}

-- `ENOENT` for an empty path.
abbrev counts : Bytes → Sys ℕ
counts path w = (if length path == 0 then (minus_one, 2) else (pos 0, 0), w + length path)

abbrev size_of : ℤ → ℕ
size_of (pos n) = n
size_of (negsuc n) = n

abbrev path_system : PathCalls ℕ
path_system = record {
  chdir = counts;
  chroot = counts;
  rmdir = counts;
  unlink = counts;
  mkdir = λ path mode w. counts path (w + size_of mode);
  mkfifo = λ path mode w. counts path (w + size_of mode);
  chmod = λ path mode w. counts path (w + size_of mode);
  chown = λ path ower group w. counts path (w + size_of ower + size_of group);
  truncate = λ path offset w. counts path (w + size_of offset);
}

-- "a/b", and a string with a zero in it.
abbrev a_b : Bytes
a_b = 97 ∷ 47 ∷ 98 ∷ []

abbrev zero_in : Bytes
zero_in = 99 ∷ 0 ∷ 100 ∷ []

abbrev two_path_system : TwoPathCalls ℕ
two_path_system = record {
  link = λ old new w. counts old (w + length new);
  rename = λ old new w. counts old (w + length new);
  symlink = λ old new w. counts old (w + length new);
}

-- The second path starts behind the first, and is cut at its zero.
rename_run :
    run (rename_job a_b zero_in) (worker_rename two_path_system.rename) result_rename 10
    ≡ record { value = returned tt; freed = true; system = 14 }
unfolding rename_job worker_rename result_rename memcpy c_string
rename_run = refl

empty_run :
    run (rename_job [] zero_in) (worker_rename two_path_system.rename) result_rename 10
    ≡ record { value = raised (unix_error_arg 2 "rename" []); freed = true; system = 11 }
unfolding rename_job worker_rename result_rename memcpy c_string
empty_run = refl

-- A mode above the range of an `int` wraps around.
int_val_wraps : int_val (pos 4294967297) ≡ pos 1
unfolding int_val
int_val_wraps = refl

abbrev fd_system : FdCalls ℕ
fd_system = record {
  fsync = λ fd w. ((pos 0, 0), w + 1);
  fdatasync = λ fd w. ((pos 0, 0), w + 1);
  close = λ fd w. ((minus_one, 9), w);
  tcdrain = λ fd w. ((pos 0, 0), w + 1);
  tcflow = λ fd action w. ((pos 0, 0), w + size_of action);
  tcflush = λ fd queue w. ((pos 0, 0), w + size_of queue);
  tcsendbreak = λ fd duration w. ((pos 0, 0), w + size_of duration);
  fchmod = λ fd mode w. ((pos 0, 0), w + size_of mode);
  fchown = λ fd ower group w. ((pos 0, 0), w + size_of group);
  ftruncate = λ fd offset w. ((pos 0, 0), w + size_of offset);
}

abbrev constants : OpenFlags
constants = record {
  o_rdonly = 0;
  o_wronly = 1;
  o_rdwr = 2;
  o_nonblock = 2048;
  o_append = 1024;
  o_creat = 64;
  o_trunc = 512;
  o_excl = 128;
  o_noctty = 256;
  o_dsync = 4096;
  o_sync = 1052672;
  o_rsync = 1052672;
  o_cloexec = 524288;
}

abbrev opens : Bytes → ℕ → ℤ → Sys ℕ
opens name flags perms w = ((pos 5, 0), w + flags)

abbrev fstats : ℕ → ℕ → Option FileKind
fstats fd w = some fifo

-- `O_WRONLY`, `O_CREAT` and `O_CLOEXEC`.
abbrev three_flags : List ℕ
three_flags = 1 ∷ 5 ∷ 13 ∷ []

three_flags_word : convert_flag_list (open_flag_table constants) three_flags 0 ≡ some 65
unfolding convert_flag_list
three_flags_word = refl

open_run :
    run
      (open_job constants false a_b three_flags (pos 420))
      (worker_open constants false opens fstats)
      (result_open constants false)
      0
    ≡ record { value = returned (pos 5, false); freed = true; system = 524353 }
unfolding open_job worker_open result_open memcpy c_string convert_flag_list int_val wants_cloexec
open_run = refl

path_calls_example : PathJobs path_system zero_in (pos 493) (pos 1000) (pos 100) (pos 7) 10
path_calls_example = path_calls path_system zero_in (pos 493) (pos 1000) (pos 100) (pos 7) 10

two_path_calls_example : TwoPathJobs two_path_system a_b zero_in 10
two_path_calls_example = two_path_calls two_path_system a_b zero_in 10

abbrev three : List ℤ
three = pos 3 ∷ pos 4 ∷ pos 5 ∷ []

first_entry : entry_of three (int_val (pos 0)) ≡ some (pos 3)
unfolding int_val
first_entry = refl

third_entry : entry_of three (int_val (pos 2)) ≡ some (pos 5)
unfolding int_val
third_entry = refl

descriptor_calls_example :
    FdJobs fd_system three three
      (pos 1)
      (pos 0)
      (pos 2)
      (pos 9)
      (pos 420)
      (pos 1000)
      (pos 100)
      (pos 7)
      (pos 3)
      (pos 5)
      10
descriptor_calls_example =
    descriptor_calls fd_system three three (pos 1) (pos 0) (pos 2) (pos 9) (pos 420) (pos 1000)
      (pos 100) (pos 7) (pos 3) (pos 5) 10 first_entry third_entry

open_calls_example :
    run
      (open_job constants false a_b three_flags (pos 420))
      (worker_open constants false opens fstats)
      (result_open constants false)
      0
    ≡ Laws.Spec constants false
        (cut a_b)
        fstats
        (opens
          (cut a_b)
          (if Laws.asks (has 13 three_flags) (has 14 three_flags) false
            then bit_or 65 524288
            else 65)
          (int_val (pos 420)))
        0
open_calls_example =
    open_calls constants false opens fstats a_b three_flags (pos 420) 0 65 three_flags_word

-- A directory of 5 TB on Linux.
abbrev linux_modes : Modes
linux_modes = record {
  s_ifmt = 0o170000;
  s_ifreg = 0o100000;
  s_ifdir = 0o040000;
  s_ifchr = 0o020000;
  s_ifblk = 0o060000;
  s_iflnk = 0o120000;
  s_ififo = 0o010000;
  s_ifsock = 0o140000;
}

abbrev directory : Stat
directory = record {
  st_dev = pos 1;
  st_ino = pos 2;
  st_mode = 0o040755;
  st_nlink = pos 3;
  st_uid = pos 0;
  st_gid = pos 0;
  st_rdev = pos 0;
  st_size = pos 5497558138880;
  st_atime = (pos 1, 2);
  st_mtime = (pos 3, 4);
  st_ctime = (pos 5, 6);
}

-- A time as it is.
abbrev both : ℤ → ℕ → ℤ × ℕ
both s ns = (s, ns)

abbrev finds : Bytes → StatSys ℕ
finds path w = let (a, w') = counts path w in ((a, directory), w')

abbrev stat_system : StatCalls ℕ
stat_system = record { stat = finds; lstat = finds; fstat = λ fd. finds a_b }

stat_calls_example : StatJobs stat_system linux_modes both zero_in (pos 3) 0
stat_calls_example = stat_calls stat_system linux_modes both zero_in (pos 3) 0

directory_kind : Stats.kind (copy_stat linux_modes both true directory) ≡ 1
unfolding copy_stat kind_of
directory_kind = refl
