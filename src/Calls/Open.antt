-- ===== src/Calls/Open.antt =====
-- src/unix/unix_c/unix_open_job.c, as it is compiled where `O_CLOEXEC` is defined.
pub mod Laws
use Prim.Native.Nat.{bit_and, bit_or}
use lwt.Base.{
  ℕ, ◌+◌, Bool, true, false, not, List, [], ◌∷◌, Option, none, some, ℤ, pos, negsuc, is_negative,
  int_val, get_elem?, length, ◌==◌, if◌then◌else◌, Outcome, fault,
}
use lwt.Calls.{
  Bytes, new_plus, string_val, memcpy, Sys, Worker, Result, CallJob, ◌>>=◌, ◌>>◌, with_string,
  check_job_arg, field, free_job, returning,
}

-- `lwt_convert_flag_list` of OCaml's runtime: the `or` of the entries of a table. An index outside it
-- is a fault.
unfoldable pub convert_flag_list : (table : List ℕ) → (flags : List ℕ) → (result : ℕ) → Option ℕ
convert_flag_list table [] result = some result
convert_flag_list table (flag ∷ flags) result = elim (get_elem? table flag) [
  | none ↦ none
  | some x ↦ convert_flag_list table flags (bit_or result x)
]

abbrev pub cloexec : ℕ
cloexec = 1

abbrev pub keepexec : ℕ
keepexec = 2

abbrev pub open_cloexec_table : List ℕ
open_cloexec_table = 0 ∷ 0 ∷ 0 ∷ 0 ∷ 0 ∷ 0 ∷ 0 ∷ 0 ∷ 0 ∷ 0 ∷ 0 ∷ 0 ∷ 0 ∷ cloexec ∷ keepexec ∷ []

-- The constants of `open_flag_table` that are not 0 there, and `O_CLOEXEC`.
pub record OpenFlags : Type 0 where
  pub o_rdonly : ℕ
  pub o_wronly : ℕ
  pub o_rdwr : ℕ
  pub o_nonblock : ℕ
  pub o_append : ℕ
  pub o_creat : ℕ
  pub o_trunc : ℕ
  pub o_excl : ℕ
  pub o_noctty : ℕ
  pub o_dsync : ℕ
  pub o_sync : ℕ
  pub o_rsync : ℕ
  pub o_cloexec : ℕ

abbrev pub open_flag_table : OpenFlags → List ℕ
open_flag_table o =
    o.o_rdonly ∷ o.o_wronly ∷ o.o_rdwr ∷ o.o_nonblock ∷ o.o_append ∷ o.o_creat ∷ o.o_trunc
    ∷ o.o_excl ∷ o.o_noctty ∷ o.o_dsync ∷ o.o_sync ∷ o.o_rsync ∷ 0 ∷ 0 ∷ 0 ∷ []

-- `struct job_open`, less the result and the `errno`; `fd` is that of the flags CLOEXEC and KEEPEXEC
-- which the worker finds there.
pub record OpenArgs : Type 0 where
  pub flags : ℕ
  pub perms : ℤ
  pub fd : ℕ
  pub blocking : Option Bool
  pub name : ℕ

abbrev pub JobOpen : Type 0
JobOpen = CallJob OpenArgs

-- What `fstat` tells of a descriptor.
pub data FileKind : Type 0 where
  fifo socket other : FileKind

abbrev pub is_blocking : Option FileKind → Bool
is_blocking none = true
is_blocking (some fifo) = false
is_blocking (some socket) = false
is_blocking (some other) = true

abbrev pub blocking_of : {W : Type 0} → ((fd : ℕ) → W → Option FileKind) → ℤ → W → Option Bool
blocking_of fstat (pos fd) w = some (is_blocking (fstat fd w))
blocking_of fstat (negsuc _) w = none

-- Whether the descriptor is to be closed by `exec`, from what the flags say and the default.
unfoldable pub wants_cloexec : (fd : ℕ) (unix_cloexec_default : Bool) → Bool
wants_cloexec fd unix_cloexec_default =
    if not (bit_and fd cloexec == 0)
    then true
    else if not (bit_and fd keepexec == 0)
    then false
    else unix_cloexec_default

module _ (o : OpenFlags) (unix_cloexec_default : Bool) where
  -- `fstat` fails, or gives a kind. The field `fd` of the result is `result` here.
  unfoldable pub worker_open :
      {W : Type 0} (open_ : (name : Bytes) (flags : ℕ) (perms : ℤ) → Sys W)
      (fstat : (fd : ℕ) → W → Option FileKind)
      → Worker OpenArgs W
  worker_open open_ fstat job w =
      let args = job.args in
      let flags =
        if wants_cloexec args.fd unix_cloexec_default
        then bit_or args.flags o.o_cloexec
        else args.flags in
      with_string args.name
        (λ name job w.
          let (a, w') = open_ name flags args.perms w in
          let blocking = blocking_of fstat a.0 w' in
          some (
            record job {
              result = some a.0;
              errno_copy = some a.1;
              args = record args { flags = flags; blocking = blocking };
            },
            w',
          ))
        job w

  unfoldable pub result_open : Result OpenArgs (ℤ × Bool)
  result_open = do
    fd ← field (λ job. job.result)
    check_job_arg is_negative "open" (λ a. a.name)
        (do blocking ← field (λ job. job.args.blocking); free_job; returning (fd, blocking))

  unfoldable pub open_job : (name : Bytes) (flags : List ℕ) (perms : ℤ) → Outcome JobOpen
  open_job name flags perms = elim (convert_flag_list open_cloexec_table flags 0) [
    | none ↦ fault
    | some fd ↦ elim (convert_flag_list (open_flag_table o) flags 0) [
      | none ↦ fault
      | some f ↦ memcpy 0 (string_val name) (
          new_plus (length name + 1)
            (record { flags = f; perms = int_val perms; fd = fd; blocking = none; name = 0 }))
    ]
  ]
