-- ===== src/Calls/QueryLaws.antt =====
-- What further jobs of src/unix/unix_c give: those of Query, on a directory stream (Directory), with a
-- buffer of fixed size (Fixed), and for lseek.
use lwt.Base.{
  ℕ, Bool, List, Option, some, ℤ, int_val, is_negative, ◌≡◌, refl, unix_error, unix_error_arg,
  returned,
}
use lwt.Calls.{Bytes, Sys, run}
use lwt.Calls.Strings.{cut}
use lwt.Calls.Open.{FileKind, is_blocking}
use lwt.Calls.Query.{
  not_zero, Timeval, worker_isatty, result_isatty, isatty_job, worker_guess_blocking,
  result_guess_blocking, guess_blocking_job, worker_bind, result_bind, bind_job, worker_access,
  result_access, access_job, worker_utimes, result_utimes, utimes_job,
}
use lwt.Calls.Directory.{
  Dir, worker_opendir, result_opendir, opendir_job, worker_closedir, result_closedir, closedir_job,
  worker_rewinddir, result_rewinddir, rewinddir_job,
}
use lwt.Calls.Descriptor.{entry_of}
use lwt.Calls.Lseek.{LseekJobs, lseek_calls}
use lwt.Calls.Fixed.{
  worker_getcwd, result_getcwd, getcwd_job, worker_getlogin, result_getlogin, getlogin_job,
  worker_getnameinfo, result_getnameinfo, getnameinfo_job,
}
use lwt.Calls.FixedLaws.{
  ended, path_value, login_value, name_value, NameCall, Fits, FitsIf, getcwd_lem, getlogin_lem,
  getnameinfo_lem,
}
use lwt.Calls.QueryRuns.{
  Entries, or_from, given_times, convert_flag_list-or, unit_ran, dir_value, isatty_lem,
  guess_blocking_lem, bind_lem, access_lem, utimes_lem, opendir_lem, closedir_lem, rewinddir_lem,
}

-- The calls of these jobs.
pub record Queries (A W : Type 0) : Type 0 where
  pub isatty : ℤ → W → ℤ × W
  pub fstat : ℤ → W → Option FileKind × W
  pub bind : ℤ → A → Sys W
  pub access : Bytes → ℕ → Sys W
  pub utimes : Bytes → Option (Timeval × Timeval) → Sys W
  pub opendir : Bytes → W → (Dir × ℕ) × W
  pub closedir : Dir → Sys W
  pub rewinddir : Dir → W → W
  pub getcwd : (size : ℕ) → W → (Option Bytes × ℕ) × W
  pub getlogin_r : (size : ℕ) → W → (ℕ × Bytes) × W
  pub getnameinfo : NameCall A W
  pub lseek : (fd offset whence : ℤ) → Sys W

-- The tables that the stubs read.
pub record Tables : Type 0 where
  pub access_permission_table : List ℕ
  pub getnameinfo_flag_table : List ℕ
  pub seek_command_table : List ℤ

-- What OCaml gives: the lists are indices of tables.
pub record Given (D S : Type 0) : Type 0 where
  pub path : Bytes
  pub fd : ℤ
  pub dir : Dir
  pub address : S
  pub modes : List ℕ
  pub atime : D
  pub mtime : D
  pub opts : List ℕ
  pub offset : ℤ
  pub whence : ℤ

module _ {A D S W : Type 0} (q : Queries A W) (t : Tables) (get_sockaddr : S → A)
    (is_zero : D → Bool) (timeval : D → Timeval) (g : Given D S) (w : W) where
  -- What a call has written fits.
  abbrev pub AllFit : (flags : ℕ) → Type 0
  AllFit flags =
      let (login, w1) = q.getlogin_r 1024 w in
      let (name, w2) = q.getnameinfo (get_sockaddr g.address) 4096 1024 flags w in
      Fits 4096 (q.getcwd 4096 w).0.0
      × FitsIf 1024 login.0 login.1
      × FitsIf 4096 name.0 name.1
      × FitsIf 1024 name.0 name.2

  -- What each of the jobs is to do.
  abbrev pub QueryJobs : (words : List ℕ) (flags : ℕ) (command : ℤ) → Type 0
  QueryJobs words flags command =
      (run (isatty_job g.fd) (worker_isatty q.isatty) result_isatty w
        ≡ (let (r, w') = q.isatty (int_val g.fd) w in ended (returned (not_zero r)) w'))
      × (run (guess_blocking_job g.fd) (worker_guess_blocking q.fstat) result_guess_blocking w
          ≡ (let (k, w') = q.fstat (int_val g.fd) w in ended (returned (is_blocking k)) w'))
      × (run (bind_job get_sockaddr g.fd g.address) (worker_bind q.bind) result_bind w
          ≡ unit_ran not_zero (λ e. unix_error e "bind" "")
              (q.bind (int_val g.fd) (get_sockaddr g.address)) w)
      × (run (access_job t.access_permission_table g.path g.modes) (worker_access q.access)
            result_access w
          ≡ unit_ran is_negative (λ e. unix_error_arg e "access" (cut g.path))
              (q.access (cut g.path) (or_from 0 words)) w)
      × (run (utimes_job is_zero timeval g.path g.atime g.mtime) (worker_utimes q.utimes)
            result_utimes w
          ≡ unit_ran not_zero (λ e. unix_error_arg e "utimes" (cut g.path))
              (q.utimes (cut g.path) (
                given_times (is_zero g.atime) (is_zero g.mtime) (timeval g.atime)
                  (timeval g.mtime)))
              w)
      × (run (opendir_job g.path) (worker_opendir q.opendir) result_opendir w
          ≡ (let (a, w') = q.opendir (cut g.path) w in ended (dir_value (cut g.path) a) w'))
      × (run (closedir_job g.dir) (worker_closedir q.closedir) result_closedir w
          ≡ unit_ran is_negative (λ e. unix_error e "closedir" "") (q.closedir g.dir) w)
      × (run (rewinddir_job g.dir) (worker_rewinddir q.rewinddir) result_rewinddir w
          ≡ ended (returned tt) (q.rewinddir g.dir w))
      × (run getcwd_job (worker_getcwd q.getcwd) result_getcwd w
          ≡ ended (path_value (q.getcwd 4096 w).0) (q.getcwd 4096 w).1)
      × (run getlogin_job (worker_getlogin q.getlogin_r) result_getlogin w
          ≡ ended (login_value (q.getlogin_r 1024 w).0) (q.getlogin_r 1024 w).1)
      × (run (getnameinfo_job t.getnameinfo_flag_table (get_sockaddr g.address) g.opts)
            (worker_getnameinfo q.getnameinfo) result_getnameinfo w
          ≡ (let (a, w') = q.getnameinfo (get_sockaddr g.address) 4096 1024 flags w in
              ended (name_value a) w'))
      × LseekJobs q.lseek t.seek_command_table g.fd g.offset g.whence command w

  -- The jobs for isatty, guess_blocking, bind, access, utimes, opendir, closedir, rewinddir,
  -- getcwd, getlogin, getnameinfo and both of lseek, from the stub to the result: the call is made
  -- once, on a path up to its first zero, on numbers as an `int` holds them, on the `or` of the
  -- entries of a list, and on no times where both are 0; each answer gives its value or error, by
  -- the test of that job (any result but 0 for bind and utimes, a code for getlogin, only -1 for
  -- lseek, whose other results are returned); a string that the call has written is given up to its
  -- first zero; and the job is freed, without being used afterwards. Conditions: the lists and the
  -- command are in their tables, and what is written fits into its buffer.
  pub query_calls :
      (words flags : List ℕ) (command : ℤ)
      → Entries t.access_permission_table g.modes words
      → Entries t.getnameinfo_flag_table g.opts flags
      → entry_of t.seek_command_table (int_val g.whence) ≡ some command
      → AllFit (or_from 0 flags)
      → QueryJobs words (or_from 0 flags) command
  query_calls words flags command modes opts whence fit =
      let addr = get_sockaddr g.address in
      (
        isatty_lem q.isatty g.fd w,
        guess_blocking_lem q.fstat g.fd w,
        bind_lem get_sockaddr q.bind g.fd g.address w,
        access_lem q.access t.access_permission_table g.path g.modes words w modes,
        utimes_lem is_zero timeval q.utimes g.path g.atime g.mtime w,
        opendir_lem q.opendir g.path w,
        closedir_lem q.closedir g.dir w,
        rewinddir_lem q.rewinddir g.dir w,
        getcwd_lem q.getcwd w (q.getcwd 4096 w).0.0 refl fit.0,
        getlogin_lem q.getlogin_r w (q.getlogin_r 1024 w).0.0 refl fit.1,
        getnameinfo_lem q.getnameinfo t.getnameinfo_flag_table addr g.opts (or_from 0 flags) w
            (q.getnameinfo addr 4096 1024 (or_from 0 flags) w).0.0
            (convert_flag_list-or t.getnameinfo_flag_table g.opts flags 0 opts) refl fit.2 fit.3,
        lseek_calls q.lseek t.seek_command_table g.fd g.offset g.whence command w whence,
      )
