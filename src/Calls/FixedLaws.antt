-- ===== src/Calls/FixedLaws.antt =====
-- What src/unix/unix_c/unix_getcwd_job.c, unix_getlogin_job.c and unix_getnameinfo_job.c give.
use lwt.Base.{
  ℕ, zero, suc, ◌+◌, ◌<◌, true, List, ◌++◌, Option, none, some, length, drop, lt→ltb, ◌≡◌, refl, ap,
  arith, unix_error, not_found, Outcome, returned, raised,
}
use lwt.Calls.{Bytes, CallJob, Result, new, run, Ran, c_string}
use lwt.Calls.Strings.{cut, cells, c_string-cut}
use lwt.Calls.Fixed.{
  buffer, write_string, worker_getcwd, result_getcwd, getcwd_job, worker_getlogin, result_getlogin,
  getlogin_job, worker_getnameinfo, result_getnameinfo, getnameinfo_job,
}
use lwt.Calls.Open.{convert_flag_list}

written :
    (s : Bytes) (size : ℕ)
    → length s < size
    → (buf : List (Option ℕ)) × (write_string s size ≡ some buf) × (c_string buf ≡ some (cut s))
unfolding write_string
written s size h =
    let rest = drop (0 + length (cells s)) (buffer size) in
    (cells s ++ rest, rw (lt→ltb _ _ h, write_string) refl, c_string-cut s rest)

abbrev pub ended : {V W : Type 0} → Outcome V → W → Ran V W
ended value w = record { value = value; freed = true; system = w }

abbrev pub path_value : Option Bytes × ℕ → Outcome Bytes
path_value (none, errno) = raised (unix_error errno "getcwd" "")
path_value (some path, errno) = returned (cut path)

-- A string that is written, if any, fits into a buffer with its zero.
abbrev pub Fits : (size : ℕ) → Option Bytes → Type 0
Fits size none = Unit {0}
Fits size (some s) = length s < size

abbrev pub login_value : ℕ × Bytes → Outcome Bytes
login_value (zero, s) = returned (cut s)
login_value (suc e, s) = raised (unix_error (suc e) "getlogin" "")

-- A string that is only written where the code is 0.
abbrev pub FitsIf : (size code : ℕ) → Bytes → Type 0
FitsIf size zero s = length s < size
FitsIf size (suc e) s = Unit {0}

abbrev pub name_value : ℕ × Bytes × Bytes → Outcome (Bytes × Bytes)
name_value (zero, host, serv) = returned (cut host, cut serv)
name_value (suc e, host, serv) = raised not_found

abbrev pub NameCall : (A W : Type 0) → Type 0
NameCall A W = A → (host serv opts : ℕ) → W → (ℕ × Bytes × Bytes) × W

-- A job's result, with the job freed.
abbrev Gives : {A V : Type 0} → CallJob A → Result A V → V → Type 0
Gives job result v = result job ≡ (returned v, record job { freed = true })

login_result :
    (buf : List (Option ℕ)) (s : Bytes)
    → c_string buf ≡ some s
    → Gives (new (record { buffer = buf; code = some 0 })) result_getlogin s
unfolding result_getlogin
login_result buf s h = ground (arith, h)

name_result :
    {A : Type 0} (addr : A) (flags : ℕ) (host serv : List (Option ℕ)) (s t : Bytes)
    → c_string host ≡ some s
    → c_string serv ≡ some t
    → Gives
        (new (record { addr = addr; opts = flags; host = host; serv = serv; code = some 0 }))
        result_getnameinfo
        (s, t)
unfolding result_getnameinfo
name_result addr flags host serv s t h k = ground (arith, h, k)

abbrev ran_of : {A V W : Type 0} → W → Outcome V × CallJob A → Ran V W
ran_of w (v, job) = record { value = v; freed = job.freed; system = w }

module _ {W : Type 0} where
  pub getcwd_lem :
      (getcwd : (size : ℕ) → W → (Option Bytes × ℕ) × W) (w : W) (path : Option Bytes)
      → (getcwd 4096 w).0.0 ≡ path
      → Fits 4096 path
      → run getcwd_job (worker_getcwd getcwd) result_getcwd w
        ≡ ended (path_value (getcwd 4096 w).0) (getcwd 4096 w).1
  unfolding getcwd_job worker_getcwd result_getcwd
  getcwd_lem getcwd w none e h = rw (e, run, worker_getcwd) refl
  getcwd_lem getcwd w (some path) e h =
      let (buf, wrote, read) = written path 4096 h in
      rw (e, wrote, run, worker_getcwd) (rw (read, result_getcwd) refl)

  pub getlogin_lem :
      (getlogin_r : (size : ℕ) → W → (ℕ × Bytes) × W) (w : W) (code : ℕ)
      → (getlogin_r 1024 w).0.0 ≡ code
      → FitsIf 1024 code (getlogin_r 1024 w).0.1
      → run getlogin_job (worker_getlogin getlogin_r) result_getlogin w
        ≡ ended (login_value (getlogin_r 1024 w).0) (getlogin_r 1024 w).1
  unfolding getlogin_job worker_getlogin result_getlogin
  getlogin_lem getlogin_r w zero e h =
      let (buf, wrote, read) = written (getlogin_r 1024 w).0.1 1024 h in
      rw (e, wrote, run, worker_getlogin)
        (rw e
          (ap (ran_of (getlogin_r 1024 w).1) (login_result buf (cut (getlogin_r 1024 w).0.1) read)))
  getlogin_lem getlogin_r w (suc c) e h = rw (e, run, worker_getlogin) (rw e refl)

  pub getnameinfo_lem :
      {A : Type 0} (getnameinfo : NameCall A W) (table : List ℕ) (addr : A) (opts : List ℕ)
      (flags : ℕ) (w : W) (code : ℕ)
      → convert_flag_list table opts 0 ≡ some flags
      → let (a, w') = getnameinfo addr 4096 1024 flags w in
        a.0 ≡ code
        → FitsIf 4096 code a.1
        → FitsIf 1024 code a.2
        → run
            (getnameinfo_job table addr opts)
            (worker_getnameinfo getnameinfo)
            result_getnameinfo
            w
          ≡ ended (name_value a) w'
  unfolding getnameinfo_job worker_getnameinfo result_getnameinfo
  getnameinfo_lem getnameinfo table addr opts flags w zero f e host_fits serv_fits =
      let a = (getnameinfo addr 4096 1024 flags w).0 in
      let (host, wrote, read) = written a.1 4096 host_fits in
      let (serv, wrote', read') = written a.2 1024 serv_fits in
      rw (f, run, getnameinfo_job)
        (rw (e, wrote, worker_getnameinfo)
          (rw (e, wrote')
            (rw e (
              ap (ran_of (getnameinfo addr 4096 1024 flags w).1)
                (name_result addr flags host serv (cut a.1) (cut a.2) read read')))))
  getnameinfo_lem getnameinfo table addr opts flags w (suc c) f e host_fits serv_fits =
      rw (f, run, getnameinfo_job) (rw (e, worker_getnameinfo) (rw e (rw e refl)))
