-- ===== src/Notify/Syscalls.antt =====
-- The system calls that src/unix/lwt_unix_stubs.c makes on its notification descriptors, as a
-- parameter, with what the code relies on.
use lwt.Base.{ℕ, List, ℤ}

pub record Kernel : Type 1 where
  pub State : Type 0
  pub errno : State → ℕ
  -- Each call returns C's result: -1 on an error.
  pub eventfd : State → State × ℤ
  pub pipe : State → State × ℤ × ℤ × ℤ
  pub close : ℤ → State → State × ℤ
  pub getfd : ℤ → State → State × ℤ
  pub setfd_cloexec : ℤ → ℤ → State → State × ℤ
  pub write : ℤ → List ℕ → State → State × ℤ
  pub read : ℤ → ℕ → State → State × ℤ
