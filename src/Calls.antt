-- ===== src/Calls.antt =====
-- The jobs of src/unix/unix_c that make one system call: what their structures have in common, and
-- the helpers of src/unix/lwt_unix.h by which they are made and end. The strings that a call takes
-- are copied behind the structure, in `data_`, and a field points to each; a cell that was not
-- written since `malloc` is `none`, and so is a field. To read one, or to touch the job after it was
-- freed, is a fault.
pub mod Strings
pub mod Contract
pub mod PathLaws
pub mod TwoPathsLaws
pub mod Path
pub mod PathNumbers
pub mod TwoPaths
pub mod Descriptor
pub mod Directory
pub mod DescriptorLaws
pub mod Fixed
pub mod FixedLaws
pub mod Query
pub mod QueryRuns
pub mod QueryLaws
pub mod Lseek
pub mod Open
pub mod Stat
use Prim.Native.String.{String}
use mathlib.Core.Option
use lwt.Base.{
  ℕ, zero, suc, ◌+◌, Bool, true, false, List, [], ◌∷◌, ◌++◌, map, Option, none, some, ℤ,
  is_negative, length, take, drop, splice, replicate, leb, if◌then◌else◌, Exn, unix_error,
  unix_error_arg, Outcome, returned, raised, fault,
}

abbrev pub Bytes : Type 0
Bytes = List ℕ

-- `A` is what the structure holds of the call's arguments.
pub record CallJob (A : Type 0) : Type 0 where
  pub result : Option ℤ
  pub errno_copy : Option ℕ
  pub args : A
  pub data_ : List (Option ℕ)
  pub freed : Bool

-- `lwt_unix_new` and `lwt_unix_new_plus`, which abort where memory runs out.
abbrev pub new_plus : {A : Type 0} → (size : ℕ) → A → CallJob A
new_plus size args = record {
  result = none;
  errno_copy = none;
  args = args;
  data_ = replicate size none;
  freed = false;
}

abbrev pub new : {A : Type 0} → A → CallJob A
new args = new_plus 0 args

-- The bytes at `String_val(s)`: those of the string, and a zero.
abbrev pub string_val : Bytes → Bytes
string_val s = s ++ 0 ∷ []

-- `memcpy` to an offset in `data_`; past its end is a fault.
unfoldable pub memcpy : {A : Type 0} → (at : ℕ) → Bytes → CallJob A → Outcome (CallJob A)
memcpy at src job =
    if leb (at + length src) (length job.data_)
    then returned (record job { data_ = splice at (map some src) job.data_ })
    else fault

-- The C string that starts with the first cell.
unfoldable pub c_string : List (Option ℕ) → Option Bytes
c_string [] = none
c_string (none ∷ cells) = none
c_string (some zero ∷ cells) = some []
c_string (some (suc c) ∷ cells) = Option.map (λ s. suc c ∷ s) (c_string cells)

-- A system call on a state `W` of the system: what it returns, and the `errno` behind it.
abbrev pub Sys : Type 0 → Type 0
Sys W = W → (ℤ × ℕ) × W

abbrev pub Worker : Type 0 → Type 0 → Type 0
Worker A W = CallJob A → W → Option (CallJob A × W)

-- "Perform the blocking call. Save the value of errno."
abbrev pub perform : {A W : Type 0} → Sys W → Worker A W
perform sys job w =
    let (a, w') = sys w in some (record job { result = some a.0; errno_copy = some a.1 }, w')

-- A call that takes the string at an offset of `data_`.
abbrev pub with_string : {A W : Type 0} → ℕ → (Bytes → Worker A W) → Worker A W
with_string at k job w = elim (c_string (drop at job.data_)) [ none ↦ none | some s ↦ k s job w ]

-- The function that builds the OCaml result: it reads the job, and frees it.
abbrev pub Result : Type 0 → Type 0 → Type 0
Result A V = CallJob A → Outcome V × CallJob A

infixl 5 ◌>>=◌ ◌>>◌
abbrev pub ◌>>=◌ : {A U V : Type 0} → Result A U → (U → Result A V) → Result A V
◌>>=◌ m f job =
    let (r, job') = m job in
    elim r [ returned v ↦ f v job' | raised e ↦ (raised e, job') | fault ↦ (fault, job') ]

abbrev pub ◌>>◌ : {A V : Type 0} → Result A (Unit {0}) → Result A V → Result A V
m >> k = m >>= λ _. k

abbrev pub returning : {A V : Type 0} → V → Result A V
returning v job = (returned v, job)

abbrev pub raising : {A V : Type 0} → Exn → Result A V
raising e job = (raised e, job)

abbrev of_option : {V : Type 0} → Option V → Outcome V
of_option none = fault
of_option (some v) = returned v

-- A field of a job that must not have been freed.
abbrev pub field : {A V : Type 0} → (CallJob A → Option V) → Result A V
field f job = (if job.freed then fault else of_option (f job), job)

-- `caml_copy_string` of a pointer into `data_`.
abbrev pub copy_string : {A : Type 0} → (A → ℕ) → Result A Bytes
copy_string at = field (λ job. c_string (drop (at job.args) job.data_))

abbrev pub free_job : {A : Type 0} → Result A (Unit {0})
free_job job = if job.freed then (fault, job) else (returned tt, record job { freed = true })

-- `LWT_UNIX_CHECK_JOB`, and the same lines where they are written out: the job is freed, and the
-- error raised.
abbrev pub fail : {A V : Type 0} → String → Result A V
fail name = do error ← field (λ job. job.errno_copy); free_job; raising (unix_error error name "")

abbrev pub check_job : {A V : Type 0} → (ℤ → Bool) → String → Result A V → Result A V
check_job test name k = do r ← field (λ job. job.result); if test r then fail name else k

-- `LWT_UNIX_CHECK_JOB_ARG`, and the same lines where they are written out.
abbrev pub fail_arg : {A V : Type 0} → String → (A → ℕ) → Result A V
fail_arg name at = do
  error ← field (λ job. job.errno_copy)
  arg ← copy_string at
  free_job
  raising (unix_error_arg error name arg)

abbrev pub check_job_arg : {A V : Type 0} → (ℤ → Bool) → String → (A → ℕ) → Result A V → Result A V
check_job_arg test name at k = do
  r ← field (λ job. job.result)
  if test r then fail_arg name at else k

-- A job from the stub that makes it to the result that frees it: what OCaml is given, whether the
-- job is freed, and the state of the system.
pub record Ran (V W : Type 0) : Type 0 where
  pub value : Outcome V
  pub freed : Bool
  pub system : W

abbrev broken : {V W : Type 0} → W → Ran V W
broken w = record { value = fault; freed = false; system = w }

abbrev pub run : {A V W : Type 0} → Outcome (CallJob A) → Worker A W → Result A V → W → Ran V W
run created worker result w = elim created [
  | fault ↦ broken w
  | raised e ↦ record { value = raised e; freed = false; system = w }
  | returned job ↦ elim (worker job w) [
    | none ↦ broken w
    | some (job', w') ↦
        let (r, job'') = result job' in record { value = r; freed = job''.freed; system = w' }
  ]
]
