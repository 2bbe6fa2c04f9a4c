-- ===== src/Buffers/Doubling.antt =====
-- The buffer sizes of src/unix/unix_c/unix_readlink_job.c and unix_gethostname_job.c: doublings of the
-- first.
use native.Mathlib.Nat.{pow-suc, mul_comm, mul_assoc}
use lwt.Base.{ℕ, zero, suc, ◌*◌, ◌^◌, ◌≤◌, ◌≡◌, refl, arith}

pub doubled_first : (size k : ℕ) → size * 2 ^ suc k ≡ size * 2 * 2 ^ k
doubled_first size k = rw (pow-suc 2 k, mul_comm (2 ^ k) 2, ← mul_assoc size 2 (2 ^ k)) refl

pub doubled_le : (size k : ℕ) → size ≤ size * 2 ^ k
doubled_le size zero = omega arith
doubled_le size (suc k) =
    let last : size * 2 ^ suc k ≡ size * 2 ^ k * 2 =
      rw (pow-suc 2 k, ← mul_assoc size (2 ^ k) 2) refl in
    omega (arith, last, doubled_le size k)
