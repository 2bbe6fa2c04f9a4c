-- ===== src/Base/Results.antt =====
-- How a C stub ends: with an OCaml value, with an OCaml exception, or in undefined behaviour.
use Prim.Native.Nat.{ℕ}
use Prim.Native.String.{String}
use mathlib.Core.List.{List}

-- `unix_error(errno, name, arg)` with a literal argument and with one copied from the job,
-- `caml_failwith`, `caml_invalid_argument`,
-- `caml_raise_end_of_file`, `caml_raise_not_found` and `lwt_unix_not_available`.
pub data Exn : Type 0 where
  unix_error : ℕ → String → String → Exn
  unix_error_arg : ℕ → String → List ℕ → Exn
  failure : String → Exn
  invalid_argument : String → Exn
  end_of_file : Exn
  not_found : Exn
  not_available : String → Exn

-- `fault`: an access outside an array, or a call through a null function pointer.
pub data Outcome {ℓ} (A : Type ℓ) : Type ℓ where
  returned : A → Outcome A
  raised : Exn → Outcome A
  fault : Outcome A
