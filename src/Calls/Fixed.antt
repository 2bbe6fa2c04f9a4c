-- ===== src/Calls/Fixed.antt =====
-- Jobs that a call gives a string to, in a buffer of fixed size: src/unix/unix_c/unix_getcwd_job.c,
-- unix_getlogin_job.c and unix_getnameinfo_job.c. A call that writes past its buffer is a fault. A flag
-- list is converted as for open (Open).
use lwt.Base.{
  ℕ, zero, suc, List, map, replicate, Option, none, some, length, splice, ltb, if◌then◌else◌,
  unix_error, not_found, Outcome, returned, fault,
}
use lwt.Calls.{
  Bytes, CallJob, new, string_val, c_string, Worker, Result, ◌>>=◌, ◌>>◌, returning, raising, field,
  fail, free_job,
}
use lwt.Calls.Open.{convert_flag_list}

abbrev pub buffer : (size : ℕ) → List (Option ℕ)
buffer size = replicate size none

-- A string and its zero, at the start of a buffer.
unfoldable pub write_string : Bytes → (size : ℕ) → Option (List (Option ℕ))
write_string s size =
    if ltb (length s) size then some (splice 0 (map some (string_val s)) (buffer size)) else none

-- `struct job_getcwd`; `result` tells whether the pointer is not null.
pub record GetcwdArgs : Type 0 where
  pub buf : List (Option ℕ)
  pub result : Option (Option (List (Option ℕ)))

-- `getcwd` gives the path that it wrote, or null.
unfoldable pub worker_getcwd :
    {W : Type 0} (getcwd : (size : ℕ) → W → (Option Bytes × ℕ) × W) → Worker GetcwdArgs W
worker_getcwd getcwd job w =
    let (a, w') = getcwd 4096 w in
    elim a.0 [
      | none ↦
          some (
            record job { errno_copy = some a.1; args = record job.args { result = some none } },
            w',
          )
      | some path ↦ elim (write_string path 4096) [
        | none ↦ none
        | some buf ↦ some (
          record job {
            errno_copy = some a.1;
            args = record { buf = buf; result = some (some buf) };
          },
          w',
        )
      ]
    ]

unfoldable pub result_getcwd : Result GetcwdArgs Bytes
result_getcwd = do
  r ← field (λ job. job.args.result)
  elim r [
    | none ↦ fail "getcwd"
    | some buf ↦ (do s ← field (λ job. c_string buf); free_job; returning s)
  ]

unfoldable pub getcwd_job : Outcome (CallJob GetcwdArgs)
getcwd_job = returned (new (record { buf = buffer 4096; result = none }))

-- `struct job_getlogin`; here the result of the call is the error.
pub record GetloginArgs : Type 0 where
  pub buffer : List (Option ℕ)
  pub code : Option ℕ

-- What a call that returns an error code has written.
abbrev pub answered : Bytes → (size code : ℕ) → Option (List (Option ℕ))
answered s size zero = write_string s size
answered s size (suc code) = some (buffer size)

unfoldable pub worker_getlogin :
    {W : Type 0} (getlogin_r : (size : ℕ) → W → (ℕ × Bytes) × W) → Worker GetloginArgs W
worker_getlogin getlogin_r job w =
    let (a, w') = getlogin_r 1024 w in
    elim (answered a.1 1024 a.0) [
      | none ↦ none
      | some cells ↦ some (record job { args = record { buffer = cells; code = some a.0 } }, w')
    ]

unfoldable pub result_getlogin : Result GetloginArgs Bytes
result_getlogin = do
  result ← field (λ job. job.args.code)
  elim result [
    | suc e ↦ (do free_job; raising (unix_error (suc e) "getlogin" ""))
    | zero ↦ (do v ← field (λ job. c_string job.args.buffer); free_job; returning v)
  ]

unfoldable pub getlogin_job : Outcome (CallJob GetloginArgs)
getlogin_job = returned (new (record { buffer = buffer 1024; code = none }))

-- `struct job_getnameinfo`; `A` are the socket addresses.
pub record GetnameinfoArgs (A : Type 0) : Type 0 where
  pub addr : A
  pub opts : ℕ
  pub host : List (Option ℕ)
  pub serv : List (Option ℕ)
  pub code : Option ℕ

unfoldable pub worker_getnameinfo :
    {A W : Type 0} (getnameinfo : A → (host serv opts : ℕ) → W → (ℕ × Bytes × Bytes) × W)
    → Worker (GetnameinfoArgs A) W
worker_getnameinfo getnameinfo job w =
    let (a, w') = getnameinfo job.args.addr 4096 1024 job.args.opts w in
    elim (answered a.1 4096 a.0) [
      | none ↦ none
      | some host ↦ elim (answered a.2 1024 a.0) [
        | none ↦ none
        | some serv ↦ some (
          record job { args = record job.args { host = host; serv = serv; code = some a.0 } },
          w',
        )
      ]
    ]

unfoldable pub result_getnameinfo : {A : Type 0} → Result (GetnameinfoArgs A) (Bytes × Bytes)
result_getnameinfo = do
  result ← field (λ job. job.args.code)
  elim result [
    | suc e ↦ (do free_job; raising not_found)
    | zero ↦ (do
      host ← field (λ job. c_string job.args.host)
      serv ← field (λ job. c_string job.args.serv)
      free_job
      returning (host, serv))
  ]

unfoldable pub getnameinfo_job :
    {A : Type 0} (getnameinfo_flag_table : List ℕ)
    → A
    → (opts : List ℕ) → Outcome (CallJob (GetnameinfoArgs A))
getnameinfo_job table addr opts = elim (convert_flag_list table opts 0) [
  | none ↦ fault
  | some flags ↦ returned (
      new
        (record { addr = addr; opts = flags; host = buffer 4096; serv = buffer 1024; code = none }))
]
