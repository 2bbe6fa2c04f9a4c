-- ===== src/Calls/QueryRuns.antt =====
-- Each of the jobs of src/unix/unix_c in Query, and of those on a directory stream, from its stub to its
-- result.
use Prim.Native.Nat.{bit_or}
use lwt.Base.{
  ℕ, Bool, true, false, ◌&&◌, List, [], ◌∷◌, get_elem?, Option, none, some, ℤ, int_val, is_negative,
  if◌then◌else◌, ◌≡◌, refl, arith, Exn, unix_error, unix_error_arg, Outcome, returned, raised,
}
use lwt.Calls.{Bytes, Sys, run, Ran}
use lwt.Calls.Strings.{cut, memcpy_one, c_string_one}
use lwt.Calls.Open.{FileKind, is_blocking, convert_flag_list}
use lwt.Calls.Query.{
  not_zero, Timeval, AccessArgs, UtimesArgs, worker_isatty, result_isatty, isatty_job,
  worker_guess_blocking, result_guess_blocking, guess_blocking_job, worker_bind, result_bind,
  bind_job, int_of_access_permissions, worker_access, result_access, access_job, times_of,
  worker_utimes, result_utimes, utimes_job,
}
use lwt.Calls.Directory.{
  Dir, OpendirArgs, worker_opendir, result_opendir, opendir_job, worker_closedir, result_closedir,
  closedir_job, worker_rewinddir, result_rewinddir, rewinddir_job,
}
use lwt.Calls.FixedLaws.{ended}

-- The entries of a table at some indices, of which each is in the table, and the `or` of entries.
abbrev pub Entries : (table indices entries : List ℕ) → Type 0
Entries table [] [] = Unit {0}
Entries table (i ∷ is) (x ∷ xs) = (get_elem? table i ≡ some x) × Entries table is xs
Entries table [] (x ∷ xs) = ⊥
Entries table (i ∷ is) [] = ⊥

abbrev pub or_from : (word : ℕ) (entries : List ℕ) → ℕ
or_from word [] = word
or_from word (x ∷ xs) = or_from (bit_or word x) xs

int_of_access_permissions-or :
    (table is xs : List ℕ) (word : ℕ)
    → Entries table is xs
    → int_of_access_permissions table is word ≡ some (or_from word xs)
unfolding int_of_access_permissions
int_of_access_permissions-or table [] [] word h = refl
int_of_access_permissions-or table [] (x ∷ xs) word h = elim h [ ]
int_of_access_permissions-or table (i ∷ is) [] word h = elim h [ ]
int_of_access_permissions-or table (i ∷ is) (x ∷ xs) word h =
    rw (h.0, int_of_access_permissions)
      (int_of_access_permissions-or table is xs (bit_or word x) h.1)

pub convert_flag_list-or :
    (table is xs : List ℕ) (word : ℕ)
    → Entries table is xs
    → convert_flag_list table is word ≡ some (or_from word xs)
unfolding convert_flag_list
convert_flag_list-or table [] [] word h = refl
convert_flag_list-or table [] (x ∷ xs) word h = elim h [ ]
convert_flag_list-or table (i ∷ is) [] word h = elim h [ ]
convert_flag_list-or table (i ∷ is) (x ∷ xs) word h =
    rw (h.0, convert_flag_list) (convert_flag_list-or table is xs (bit_or word x) h.1)

-- The times that `utimes` is to set: none, which means now, where both are 0.
abbrev pub given_times :
    (atime_zero mtime_zero : Bool) → Timeval → Timeval → Option (Timeval × Timeval)
given_times true true a m = none
given_times true false a m = some (a, m)
given_times false true a m = some (a, m)
given_times false false a m = some (a, m)

times_of-given :
    {D : Type 0} (is_zero : D → Bool) (timeval : D → Timeval) (atime mtime : D)
    → times_of is_zero timeval atime mtime
      ≡ given_times (is_zero atime) (is_zero mtime) (timeval atime) (timeval mtime)
times_of-given is_zero timeval atime mtime = by_tests (is_zero atime) (is_zero mtime)
  where
    by_tests :
        (a m : Bool)
        → (if a && m then none else some (timeval atime, timeval mtime))
          ≡ given_times a m (timeval atime) (timeval mtime)
    by_tests true true = refl
    by_tests true false = refl
    by_tests false true = refl
    by_tests false false = refl

-- A call whose failure is told by a test of its result.
abbrev pub unit_value : (ℤ → Bool) → (ℕ → Exn) → ℤ × ℕ → Outcome (Unit {0})
unit_value test exn a = if test a.0 then raised (exn a.1) else returned tt

abbrev pub unit_ran : {W : Type 0} → (ℤ → Bool) → (ℕ → Exn) → Sys W → W → Ran (Unit {0}) W
unit_ran test exn sys w = let (a, w') = sys w in ended (unit_value test exn a) w'

abbrev pub dir_value : Bytes → Dir × ℕ → Outcome Dir
dir_value path (none, errno) = raised (unix_error_arg errno "opendir" path)
dir_value path (some d, errno) = returned (some d)

module _ {W : Type 0} where
  pub isatty_lem :
      (isatty : ℤ → W → ℤ × W) (fd : ℤ) (w : W)
      → run (isatty_job fd) (worker_isatty isatty) result_isatty w
        ≡ (let (r, w') = isatty (int_val fd) w in ended (returned (not_zero r)) w')
  unfolding isatty_job worker_isatty result_isatty
  isatty_lem isatty fd w = refl

  pub guess_blocking_lem :
      (fstat : ℤ → W → Option FileKind × W) (fd : ℤ) (w : W)
      → run (guess_blocking_job fd) (worker_guess_blocking fstat) result_guess_blocking w
        ≡ (let (k, w') = fstat (int_val fd) w in ended (returned (is_blocking k)) w')
  unfolding guess_blocking_job worker_guess_blocking result_guess_blocking
  guess_blocking_lem fstat fd w = ground arith

  pub bind_lem :
      {A S : Type 0} (get_sockaddr : S → A) (bind : ℤ → A → Sys W) (fd : ℤ) (address : S) (w : W)
      → run (bind_job get_sockaddr fd address) (worker_bind bind) result_bind w
        ≡ unit_ran not_zero
            (λ e. unix_error e "bind" "")
            (bind (int_val fd) (get_sockaddr address))
            w
  unfolding bind_job worker_bind result_bind
  bind_lem get_sockaddr bind fd address w = ground arith

  pub access_lem :
      (access : Bytes → ℕ → Sys W) (table : List ℕ) (path : Bytes) (modes words : List ℕ) (w : W)
      → Entries table modes words
      → run (access_job table path modes) (worker_access access) result_access w
        ≡ unit_ran is_negative
            (λ e. unix_error_arg e "access" (cut path))
            (access (cut path) (or_from 0 words))
            w
  unfolding access_job worker_access result_access
  access_lem access table path modes words w h =
      let args : AccessArgs = record { path = 0; mode = or_from 0 words } in
      rw (int_of_access_permissions-or table modes words 0 h, run, access_job)
        (rw (memcpy_one args path) (ground (arith, c_string_one path)))

  pub utimes_lem :
      {D : Type 0} (is_zero : D → Bool) (timeval : D → Timeval)
      (utimes : Bytes → Option (Timeval × Timeval) → Sys W) (path : Bytes) (atime mtime : D) (w : W)
      → run (utimes_job is_zero timeval path atime mtime) (worker_utimes utimes) result_utimes w
        ≡ unit_ran not_zero
            (λ e. unix_error_arg e "utimes" (cut path))
            (utimes
              (cut path)
              (given_times (is_zero atime) (is_zero mtime) (timeval atime) (timeval mtime)))
            w
  unfolding utimes_job worker_utimes result_utimes
  utimes_lem is_zero timeval utimes path atime mtime w =
      let args : UtimesArgs = record { path = 0; times = times_of is_zero timeval atime mtime } in
      rw (memcpy_one args path)
        (rw (← times_of-given is_zero timeval atime mtime) (ground (arith, c_string_one path)))

  pub opendir_lem :
      (opendir : Bytes → W → (Dir × ℕ) × W) (path : Bytes) (w : W)
      → run (opendir_job path) (worker_opendir opendir) result_opendir w
        ≡ (let (a, w') = opendir (cut path) w in ended (dir_value (cut path) a) w')
  unfolding opendir_job worker_opendir result_opendir
  opendir_lem opendir path w =
      let args : OpendirArgs = record { result = none; path = 0 } in
      rw (memcpy_one args path) (ground (arith, c_string_one path))

  pub closedir_lem :
      (closedir : Dir → Sys W) (dir : Dir) (w : W)
      → run (closedir_job dir) (worker_closedir closedir) result_closedir w
        ≡ unit_ran is_negative (λ e. unix_error e "closedir" "") (closedir dir) w
  unfolding closedir_job worker_closedir result_closedir
  closedir_lem closedir dir w = ground arith

  pub rewinddir_lem :
      (rewinddir : Dir → W → W) (dir : Dir) (w : W)
      → run (rewinddir_job dir) (worker_rewinddir rewinddir) result_rewinddir w
        ≡ ended (returned tt) (rewinddir dir w)
  unfolding rewinddir_job worker_rewinddir result_rewinddir
  rewinddir_lem rewinddir dir w = refl
