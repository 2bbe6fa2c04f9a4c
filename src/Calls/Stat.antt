-- ===== src/Calls/Stat.antt =====
-- src/unix/unix_c/unix_stat_job_utils.c, and the stubs of the six jobs that use it: unix_stat_job.c,
-- unix_lstat_job.c, unix_fstat_job.c and their variants for 64 bits. The constants of the modes are
-- the platform's; `seconds` makes a floating point number of seconds and nanoseconds.
pub mod Laws
use Prim.Native.Nat.{bit_and}
use lwt.Base.{
  ℕ, ◌+◌, Bool, true, false, Option, none, some, ℤ, is_negative, int_val, val_long, length, ◌==◌,
  if◌then◌else◌, Outcome, returned,
}
use lwt.Calls.{
  Bytes, CallJob, new, new_plus, string_val, memcpy, Worker, Result, ◌>>=◌, ◌>>◌, returning, field,
  check_job, check_job_arg, free_job, with_string,
}

-- `struct stat`
pub record Stat : Type 0 where
  pub st_dev : ℤ
  pub st_ino : ℤ
  pub st_mode : ℕ
  pub st_nlink : ℤ
  pub st_uid : ℤ
  pub st_gid : ℤ
  pub st_rdev : ℤ
  pub st_size : ℤ
  pub st_atime : ℤ × ℕ
  pub st_mtime : ℤ × ℕ
  pub st_ctime : ℤ × ℕ

pub record Modes : Type 0 where
  pub s_ifmt : ℕ
  pub s_ifreg : ℕ
  pub s_ifdir : ℕ
  pub s_ifchr : ℕ
  pub s_ifblk : ℕ
  pub s_iflnk : ℕ
  pub s_ififo : ℕ
  pub s_ifsock : ℕ

-- An OCaml integer, or a boxed int64.
pub data Size : Type 0 where
  int : ℤ → Size
  int64 : ℤ → Size

-- `Unix.stats` and `Unix.LargeFile.stats`; `D` are OCaml's floats.
pub record Stats (D : Type 0) : Type 0 where
  pub dev : ℤ
  pub ino : ℤ
  pub kind : ℕ
  pub perm : ℕ
  pub nlink : ℤ
  pub uid : ℤ
  pub gid : ℤ
  pub rdev : ℤ
  pub size : Size
  pub atime : D
  pub mtime : D
  pub ctime : D

-- The constructor of `Unix.file_kind`; an unknown kind counts as a regular file.
unfoldable pub kind_of : Modes → (st_mode : ℕ) → ℕ
kind_of m st_mode =
    let fmt = bit_and st_mode m.s_ifmt in
    if fmt == m.s_ifreg
    then 0
    else if fmt == m.s_ifdir
    then 1
    else if fmt == m.s_ifchr
    then 2
    else if fmt == m.s_ifblk
    then 3
    else if fmt == m.s_iflnk
    then 4
    else if fmt == m.s_ififo
    then 5
    else if fmt == m.s_ifsock
    then 6
    else 0

-- A call that fills a `struct stat`.
abbrev pub StatSys : Type 0 → Type 0
StatSys W = W → ((ℤ × ℕ) × Stat) × W

-- The fields of the jobs: `stat` was not filled before the call.
pub record StatArgs : Type 0 where
  pub stat : Option Stat
  pub name : ℕ

pub record FstatArgs : Type 0 where
  pub fstat : Option Stat
  pub fd : ℤ

abbrev pub fill : {W : Type 0} → StatSys W → Worker StatArgs W
fill sys job w =
    let (a, w') = sys w in
    some (
      record job {
        result = some a.0.0;
        errno_copy = some a.0.1;
        args = record job.args { stat = some a.1 };
      },
      w',
    )

module _ {D : Type 0} (modes : Modes) (seconds : ℤ → ℕ → D) where
  unfoldable pub copy_stat : (use_64 : Bool) → Stat → Stats D
  copy_stat use_64 buf = record {
    dev = val_long buf.st_dev;
    ino = val_long buf.st_ino;
    kind = kind_of modes buf.st_mode;
    perm = bit_and buf.st_mode 0o7777;
    nlink = val_long buf.st_nlink;
    uid = val_long buf.st_uid;
    gid = val_long buf.st_gid;
    rdev = val_long buf.st_rdev;
    size = if use_64 then int64 buf.st_size else int (val_long buf.st_size);
    atime = seconds buf.st_atime.0 buf.st_atime.1;
    mtime = seconds buf.st_mtime.0 buf.st_mtime.1;
    ctime = seconds buf.st_ctime.0 buf.st_ctime.1;
  }

  abbrev pub stat_value : (use_64 : Bool) → Result StatArgs (Stats D)
  stat_value use_64 = do
    buf ← field (λ job. job.args.stat)
    free_job
    returning (copy_stat use_64 buf)

  unfoldable pub result_stat : Result StatArgs (Stats D)
  result_stat = check_job_arg is_negative "stat" (λ a. a.name) (stat_value false)

  unfoldable pub result_stat_64 : Result StatArgs (Stats D)
  result_stat_64 = check_job_arg is_negative "stat" (λ a. a.name) (stat_value true)

  unfoldable pub result_lstat : Result StatArgs (Stats D)
  result_lstat = check_job_arg is_negative "lstat" (λ a. a.name) (stat_value false)

  unfoldable pub result_lstat_64 : Result StatArgs (Stats D)
  result_lstat_64 = check_job_arg is_negative "lstat" (λ a. a.name) (stat_value true)

  abbrev pub fstat_value : (use_64 : Bool) → Result FstatArgs (Stats D)
  fstat_value use_64 = do
    buf ← field (λ job. job.args.fstat)
    free_job
    returning (copy_stat use_64 buf)

  unfoldable pub result_fstat : Result FstatArgs (Stats D)
  result_fstat = check_job is_negative "fstat" (fstat_value false)

  unfoldable pub result_fstat_64 : Result FstatArgs (Stats D)
  result_fstat_64 = check_job is_negative "fstat" (fstat_value true)

unfoldable pub worker_stat : {W : Type 0} (stat : Bytes → StatSys W) → Worker StatArgs W
worker_stat stat job = with_string job.args.name (λ name. fill (stat name)) job

unfoldable pub worker_lstat : {W : Type 0} (lstat : Bytes → StatSys W) → Worker StatArgs W
worker_lstat lstat job = with_string job.args.name (λ name. fill (lstat name)) job

unfoldable pub worker_fstat : {W : Type 0} (fstat : ℤ → StatSys W) → Worker FstatArgs W
worker_fstat fstat job w =
    let (a, w') = fstat job.args.fd w in
    some (
      record job {
        result = some a.0.0;
        errno_copy = some a.0.1;
        args = record job.args { fstat = some a.1 };
      },
      w',
    )

unfoldable pub stat_job : (name : Bytes) → Outcome (CallJob StatArgs)
stat_job name =
    memcpy 0 (string_val name) (new_plus (length name + 1) (record { stat = none; name = 0 }))

unfoldable pub stat_64_job : (name : Bytes) → Outcome (CallJob StatArgs)
stat_64_job name =
    memcpy 0 (string_val name) (new_plus (length name + 1) (record { stat = none; name = 0 }))

unfoldable pub lstat_job : (name : Bytes) → Outcome (CallJob StatArgs)
lstat_job name =
    memcpy 0 (string_val name) (new_plus (length name + 1) (record { stat = none; name = 0 }))

unfoldable pub lstat_64_job : (name : Bytes) → Outcome (CallJob StatArgs)
lstat_64_job name =
    memcpy 0 (string_val name) (new_plus (length name + 1) (record { stat = none; name = 0 }))

unfoldable pub fstat_job : (fd : ℤ) → Outcome (CallJob FstatArgs)
fstat_job fd = returned (new (record { fstat = none; fd = int_val fd }))

unfoldable pub fstat_64_job : (fd : ℤ) → Outcome (CallJob FstatArgs)
fstat_64_job fd = returned (new (record { fstat = none; fd = int_val fd }))
