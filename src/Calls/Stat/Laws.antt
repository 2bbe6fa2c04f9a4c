-- ===== src/Calls/Stat/Laws.antt =====
-- What the jobs for stat, lstat and fstat (src/unix/unix_c/unix_stat_job_utils.c) give, and the kinds of
-- files.
use Prim.Native.String.{String}
use Prim.Native.Nat.{bit_and}
use lwt.Base.{
  ℕ, suc, List, [], ◌∷◌, ◌==◌, val_long, Bool, true, false, none, ℤ, is_negative, int_val,
  if◌then◌else◌, ◌≡◌, refl, arith, unix_error, unix_error_arg, returned, raised,
}
use lwt.Calls.{Bytes, run, Ran, with_string, check_job_arg, memcpy, new_plus, string_val}
use lwt.Calls.Strings.{cut, size, memcpy_one, c_string_one}
use lwt.Calls.Stat.{
  Modes, Stat, Size, int, int64, kind_of, Stats, StatSys, StatArgs, copy_stat, stat_value, fill,
  result_stat, result_stat_64, result_lstat, result_lstat_64, result_fstat, result_fstat_64,
  worker_stat, worker_lstat, worker_fstat, stat_job, stat_64_job, lstat_job, lstat_64_job,
  fstat_job, fstat_64_job,
}

-- The first place of a format in a list of formats, or 0.
abbrev pub place : (n : ℕ) (formats : List ℕ) (i : ℕ) → ℕ
place n [] i = 0
place n (x ∷ formats) i = if n == x then i else place n formats (suc i)

-- The constructors of `Unix.file_kind`, in their order.
abbrev pub formats : Modes → List ℕ
formats m = m.s_ifreg ∷ m.s_ifdir ∷ m.s_ifchr ∷ m.s_ifblk ∷ m.s_iflnk ∷ m.s_ififo ∷ m.s_ifsock ∷ []

abbrev pub size_of : (use_64 : Bool) → ℤ → Size
size_of true n = int64 n
size_of false n = int (val_long n)

-- The record that is meant.
abbrev pub meant : {D : Type 0} → Modes → (ℤ → ℕ → D) → (use_64 : Bool) → Stat → Stats D
meant modes seconds use_64 buf = record {
  dev = val_long buf.st_dev;
  ino = val_long buf.st_ino;
  kind = place (bit_and buf.st_mode modes.s_ifmt) (formats modes) 0;
  perm = bit_and buf.st_mode 0o7777;
  nlink = val_long buf.st_nlink;
  uid = val_long buf.st_uid;
  gid = val_long buf.st_gid;
  rdev = val_long buf.st_rdev;
  size = size_of use_64 buf.st_size;
  atime = seconds buf.st_atime.0 buf.st_atime.1;
  mtime = seconds buf.st_mtime.0 buf.st_mtime.1;
  ctime = seconds buf.st_ctime.0 buf.st_ctime.1;
}

copy_stat-meant :
    {D : Type 0} (modes : Modes) (seconds : ℤ → ℕ → D) (use_64 : Bool) (buf : Stat)
    → copy_stat modes seconds use_64 buf ≡ meant modes seconds use_64 buf
unfolding copy_stat kind_of
copy_stat-meant modes seconds true buf = refl
copy_stat-meant modes seconds false buf = refl

-- What is to be done: the buffer that the call filled as OCaml's record, or the error.
abbrev pub NameSpec :
    {D W : Type 0}
    → String
    → Modes
    → (ℤ → ℕ → D)
    → (use_64 : Bool) → Bytes
    → StatSys W
    → W
    → Ran (Stats D) W
NameSpec func modes seconds use_64 name sys w =
    let (a, w') = sys w in
    record {
      value =
          if is_negative a.0.0
          then raised (unix_error_arg a.0.1 func name)
          else returned (meant modes seconds use_64 a.1);
      freed = true;
      system = w';
    }

abbrev pub FdSpec :
    {D W : Type 0} → Modes → (ℤ → ℕ → D) → (use_64 : Bool) → StatSys W → W → Ran (Stats D) W
FdSpec modes seconds use_64 sys w =
    let (a, w') = sys w in
    record {
      value =
          if is_negative a.0.0
          then raised (unix_error a.0.1 "fstat" "")
          else returned (meant modes seconds use_64 a.1);
      freed = true;
      system = w';
    }

by_name :
    {D W : Type 0} (func : String) (modes : Modes) (seconds : ℤ → ℕ → D) (use_64 : Bool)
    (name : Bytes) (sys : Bytes → StatSys W) (w : W)
    → run
        (memcpy 0 (string_val name) (new_plus (size name) (record { stat = none; name = 0 })))
        (λ job. with_string job.args.name (λ p. fill (sys p)) job)
        (check_job_arg is_negative func (λ a. a.name) (stat_value modes seconds use_64))
        w
      ≡ NameSpec func modes seconds use_64 (cut name) (sys (cut name)) w
by_name func modes seconds use_64 name sys w =
    let args : StatArgs = record { stat = none; name = 0 } in
    rw (memcpy_one args name) (
      ground
        (arith, c_string_one name, copy_stat-meant modes seconds use_64 (sys (cut name) w).0.1))

pub record StatCalls (W : Type 0) : Type 0 where
  pub stat : Bytes → StatSys W
  pub lstat : Bytes → StatSys W
  pub fstat : ℤ → StatSys W

-- What each of the six jobs is to do.
abbrev pub StatJobs :
    {D W : Type 0} → StatCalls W → Modes → (ℤ → ℕ → D) → (name : Bytes) → (fd : ℤ) → W → Type 0
StatJobs s modes seconds name fd w =
    (run (stat_job name) (worker_stat s.stat) (result_stat modes seconds) w
      ≡ NameSpec "stat" modes seconds false (cut name) (s.stat (cut name)) w)
    × (run (stat_64_job name) (worker_stat s.stat) (result_stat_64 modes seconds) w
        ≡ NameSpec "stat" modes seconds true (cut name) (s.stat (cut name)) w)
    × (run (lstat_job name) (worker_lstat s.lstat) (result_lstat modes seconds) w
        ≡ NameSpec "lstat" modes seconds false (cut name) (s.lstat (cut name)) w)
    × (run (lstat_64_job name) (worker_lstat s.lstat) (result_lstat_64 modes seconds) w
        ≡ NameSpec "lstat" modes seconds true (cut name) (s.lstat (cut name)) w)
    × (run (fstat_job fd) (worker_fstat s.fstat) (result_fstat modes seconds) w
        ≡ FdSpec modes seconds false (s.fstat (int_val fd)) w)
    × (run (fstat_64_job fd) (worker_fstat s.fstat) (result_fstat_64 modes seconds) w
        ≡ FdSpec modes seconds true (s.fstat (int_val fd)) w)

-- The six jobs for stat, lstat and fstat, from the stub to the result: the call is made once, on
-- the path up to its first zero or on the descriptor as an `int` holds it; a negative answer raises
-- `Unix_error` with the errno behind it and that path, any other gives the buffer that the call
-- filled, field by field: integers as OCaml's hold them, the permissions, the kind as the first place
-- of the format among those of `Unix.file_kind` or a regular file, the times in seconds, and a size
-- of 64 bits in the variants for 64 bits; and
-- the job is freed, without being used afterwards.
pub stat_calls :
    {D W : Type 0} (s : StatCalls W) (modes : Modes) (seconds : ℤ → ℕ → D) (name : Bytes) (fd : ℤ)
    (w : W)
    → StatJobs s modes seconds name fd w
unfolding result_stat result_stat_64 result_lstat result_lstat_64 result_fstat result_fstat_64
    worker_stat worker_lstat worker_fstat stat_job stat_64_job lstat_job lstat_64_job fstat_job
    fstat_64_job
stat_calls s modes seconds name fd w = (
  by_name "stat" modes seconds false name s.stat w,
  by_name "stat" modes seconds true name s.stat w,
  by_name "lstat" modes seconds false name s.lstat w,
  by_name "lstat" modes seconds true name s.lstat w,
  ground (arith, copy_stat-meant modes seconds false (s.fstat (int_val fd) w).0.1),
  ground (arith, copy_stat-meant modes seconds true (s.fstat (int_val fd) w).0.1),
)
