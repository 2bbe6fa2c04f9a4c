-- ===== src/Lockf/Laws.antt =====
-- What the lockf job of src/unix/unix_c/unix_lockf_job.c locks and returns.
use lwt.Base.{
  ℕ, zero, suc, ◌+◌, ◌-◌, ◌≤◌, ◌<◌, true, ℤ, pos, negsuc, is_minus_one, ◌≡◌, ◌↔◌, arith, Outcome,
  fault,
}
use lwt.Lockf.{
  Operation, f_getlk, f_wrlck, Flock, Answer, lockf_job, region, worker_lockf, result_lockf,
}

-- The bytes that POSIX gives for a lock of `length` at the offset `at`: forwards, backwards, or to
-- the end of every file.
abbrev pub LockfCovers : (at : ℕ) → ℤ → ℕ → Type 0
LockfCovers at (pos zero) x = at ≤ x
LockfCovers at (pos (suc n)) x = (at ≤ x) × (x < at + suc n)
LockfCovers at (negsuc n) x = (at ≤ x + suc n) × (x < at)

abbrev from : ℕ → ℤ → ℕ
from at (pos n) = at + n
from at (negsuc n) = at - suc n

-- The bytes of a `struct flock` with `l_start` and `l_len`; a negative length is not used.
abbrev pub FlockCovers : (at : ℕ) → ℤ × ℤ → ℕ → Type 0
FlockCovers at (start, pos zero) x = from at start ≤ x
FlockCovers at (start, pos (suc n)) x = (from at start ≤ x) × (x < from at start + suc n)
FlockCovers at (start, negsuc n) x = ⊥

abbrev pub StartsInFile : ℕ → ℤ → Type 0
StartsInFile at (pos n) = Unit
StartsInFile at (negsuc n) = suc n ≤ at

-- The region that the worker asks `fcntl` for covers exactly the bytes that `lockf` with this length
-- is to lock, backwards from the offset for a negative length. Condition: a negative length does
-- not reach in front of the file.
pub region-covers :
    (at : ℕ) (length : ℤ) (x : ℕ)
    → StartsInFile at length
    → FlockCovers at (region length) x ↔ LockfCovers at length x
unfolding region
region-covers at (pos zero) x h = ground arith
region-covers at (pos (suc n)) x h = ground arith
region-covers at (negsuc n) x h = ground arith

module _ (fcntl : ℕ → Operation → Flock → Answer) (eacces einval : ℕ) where
  abbrev pub outcome : (fd command : ℕ) → ℤ → Outcome (Unit {0})
  outcome fd command length =
      result_lockf fcntl eacces einval
        (worker_lockf fcntl eacces einval (lockf_job fd command length))

  abbrev pub test_answer : (fd : ℕ) → ℤ → Answer
  test_answer fd length =
      fcntl fd f_getlk
        (record { l_type = f_wrlck; l_start = (region length).0; l_len = (region length).1 })

  -- Whatever `fcntl` does, the job ends in reading an `error_code` that nobody set if and only if
  -- the command is `F_TEST` and `fcntl` returns -1.
  pub lockf-fault :
      (fd command : ℕ) (length : ℤ)
      → (outcome fd command length ≡ fault)
        ↔ ((command ≡ 3) × (is_minus_one (test_answer fd length).value ≡ true))
  unfolding worker_lockf result_lockf
  lockf-fault fd zero length = ground arith
  lockf-fault fd (suc zero) length = ground arith
  lockf-fault fd (suc (suc zero)) length = ground arith
  lockf-fault fd (suc (suc (suc zero))) length = ground arith
  lockf-fault fd (suc (suc (suc (suc zero)))) length = ground arith
  lockf-fault fd (suc (suc (suc (suc (suc zero))))) length = ground arith
  lockf-fault fd (suc (suc (suc (suc (suc (suc n)))))) length = ground arith
