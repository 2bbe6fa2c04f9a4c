-- ===== src/Lockf.antt =====
-- src/unix/unix_c/unix_lockf_job.c, where `F_GETLK`, `F_SETLK` and `F_SETLKW` are defined: `lockf` by
-- `fcntl`. `fcntl` and the errno values are parameters; a field that `malloc` left unset is `none`.
pub mod Laws
use lwt.Base.{
  ℕ, Bool, true, false, ◌&&◌, not, Option, none, some, ℤ, pos, negsuc, minus_one, neg, is_minus_one,
  is_negative, ◌==◌, if◌then◌else◌, Exn, unix_error, Outcome, returned, raised, fault,
}

pub data Operation : Type 0 where
  f_setlk f_setlkw f_getlk : Operation

pub data LockType : Type 0 where
  f_rdlck f_wrlck f_unlck : LockType

abbrev pub is_unlck : LockType → Bool
is_unlck f_unlck = true
is_unlck _ = false

-- `l_whence` is `SEEK_CUR` always: `l_start` counts from the file's offset.
pub record Flock : Type 0 where
  pub l_type : LockType
  pub l_start : ℤ
  pub l_len : ℤ

-- What `fcntl` returns, the `errno` behind it, and the type that it leaves in the structure.
pub record Answer : Type 0 where
  pub value : ℤ
  pub errno : ℕ
  pub found : LockType

pub record Job : Type 0 where
  pub fd : ℕ
  pub command : ℕ
  pub length : ℤ
  pub result : Option ℤ
  pub error_code : Option ℕ

-- `lwt_unix_lockf_job`
abbrev pub lockf_job : (fd command : ℕ) (length : ℤ) → Job
lockf_job fd command length = record {
  fd = fd;
  command = command;
  length = length;
  result = none;
  error_code = none;
}

-- `l_start` and `l_len` of the region.
unfoldable pub region : ℤ → ℤ × ℤ
region length = if is_negative length then (length, neg length) else (pos 0, length)

module _ (fcntl : ℕ → Operation → Flock → Answer) (eacces einval : ℕ) where
  abbrev ask : LockType → Operation → Job → Answer
  ask type operation job =
      let (start, len) = region job.length in
      fcntl job.fd operation (record { l_type = type; l_start = start; l_len = len })

  abbrev answered : Job → Answer → Job
  answered job a = record job { result = some a.value; error_code = some a.errno }

  -- `F_TEST`: a failure of `fcntl` leaves `error_code` as it was.
  abbrev tested : Job → Answer → Job
  tested job a =
      if is_minus_one a.value
      then record job { result = some a.value }
      else if is_unlck a.found
      then record job { result = some (pos 0) }
      else record job { result = some minus_one; error_code = some eacces }

  unfoldable pub worker_lockf : Job → Job
  worker_lockf job =
      if job.command == 0
      then answered job (ask f_unlck f_setlk job)
      else if job.command == 1
      then answered job (ask f_wrlck f_setlkw job)
      else if job.command == 2
      then answered job (ask f_wrlck f_setlk job)
      else if job.command == 3
      then tested job (ask f_wrlck f_getlk job)
      else if job.command == 4
      then answered job (ask f_rdlck f_setlkw job)
      else if job.command == 5
      then answered job (ask f_rdlck f_setlk job)
      else record job { result = some minus_one; error_code = some einval }

  -- To read a field that is not set is no defined behaviour.
  unfoldable pub result_lockf : Job → Outcome (Unit {0})
  result_lockf job = elim job.result [
    | none ↦ fault
    | some r ↦
        if is_negative r
        then (elim job.error_code [ none ↦ fault | some e ↦ raised (unix_error e "lockf" "") ])
        else returned tt
  ]
