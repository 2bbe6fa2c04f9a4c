-- ===== src/Notify/Startup.antt =====
-- src/unix/lwt_unix_stubs.c, `lwt_unix_init_notification` where `HAVE_EVENTFD` is defined: the first
-- start, and the restart that a forked child makes.
use lwt.Base.{
  ◌≡◌, refl, ℤ, is_minus_one, Outcome, returned, raised, fault, unix_error, failure, if◌then◌else◌,
}
use lwt.Notify.{
  Notify, World, Mode, not_initialized, no_mode, eventfd_mode, pipe_mode, windows_mode, by_eventfd,
  by_pipe, init_notifications,
}
use lwt.Notify.Syscalls.{Kernel}

module _ (K : Kernel) where
  open K use {State, errno, eventfd, pipe, close, getfd, setfd_cloexec}

  abbrev pub M : Type 0 → Type 0
  M A = World K → World K × Outcome A

  infixl 5 ◌>>=◌ ◌>>◌
  abbrev pub ◌>>=◌ : {A B : Type 0} → M A → (A → M B) → M B
  ◌>>=◌ m f w =
      let (w', r) = m w in
      elim r [ returned a ↦ f a w' | raised e ↦ (w', raised e) | fault ↦ (w', fault) ]

  abbrev pub ◌>>◌ : {B : Type 0} → M (Unit {0}) → M B → M B
  m >> k = m >>= λ _. k

  bound :
      {A B : Type 0} (f : A → M B) (w₁ : World K) (r : Outcome A) {w' : World K} {b : B}
      → elim r as (λ _. World K × Outcome B) [
        | returned a ↦ f a w₁
        | raised e ↦ (w₁, raised e)
        | fault ↦ (w₁, fault)
      ]
        ≡ (w', returned b)
      → (a : A) × (r ≡ returned a) × (f a w₁ ≡ (w', returned b))
  bound f w₁ (returned a) h = (a, refl, h)
  bound f w₁ (raised e) h = absurd (cc h)
  bound f w₁ fault h = absurd (cc h)

  -- A sequence that returns has a first part that returns.
  pub >>=-returned :
      {A B : Type 0} (m : M A) (f : A → M B) (w : World K) {w' : World K} {b : B}
      → ◌>>=◌ m f w ≡ (w', returned b)
      → (a : A) × ((m w).1 ≡ returned a) × (f a (m w).0 ≡ (w', returned b))
  >>=-returned m f w h = bound f (m w).0 (m w).1 h

  abbrev give : {A : Type 0} → A → M A
  give a w = (w, returned a)

  abbrev update : (Notify → Notify) → M (Unit {0})
  update f w = (record w { notify = f w.notify }, returned tt)

  unfoldable pub close_fd : ℤ → M (Unit {0})
  close_fd fd w =
      let (k, ret) = close fd w.kernel in
      (
        record w { kernel = k },
        (if is_minus_one ret then raised (unix_error (errno k) "close" "") else returned tt),
      )

  -- The two `fcntl` calls; the second is made only if the first succeeds.
  unfoldable pub set_close_on_exec : ℤ → M (Unit {0})
  set_close_on_exec fd w =
      let (k, flags) = getfd fd w.kernel in
      let (k', ret) = setfd_cloexec fd flags k in
      if is_minus_one flags
      then (record w { kernel = k }, raised (unix_error (errno k) "set_close_on_exec" ""))
      else (
        record w { kernel = k' },
        (if is_minus_one ret
            then raised (unix_error (errno k') "set_close_on_exec" "")
            else returned tt),
      )

  abbrev enter_mode : Mode → Notify → Notify
  enter_mode m n = record n { mode = m }

  -- The `switch` on the current mode.
  unfoldable pub leave_mode : Mode → M (Unit {0})
  leave_mode eventfd_mode w = (do update (enter_mode no_mode); close_fd w.notify.notification_fd) w
  leave_mode pipe_mode w =
      (do update (enter_mode no_mode); close_fd w.notify.read_end; close_fd w.notify.write_end) w
  leave_mode not_initialized w = update (λ n. init_notifications (enter_mode no_mode n)) w
  leave_mode no_mode w = (w, returned tt)
  leave_mode windows_mode w = (w, raised (failure "notification system in unknown state"))

  unfoldable pub open_eventfd : M ℤ
  open_eventfd w =
      let (k, fd) = eventfd w.kernel in
      (record { notify = record w.notify { notification_fd = fd }; kernel = k }, returned fd)

  unfoldable pub open_pipe : M (Unit {0})
  open_pipe w =
      let (k, r, v, ret) = pipe w.kernel in
      if is_minus_one ret
      then (record w { kernel = k }, raised (unix_error (errno k) "pipe" ""))
      else (
        record { notify = record w.notify { read_end = r; write_end = v }; kernel = k },
        returned tt,
      )

  unfoldable pub start_eventfd : ℤ → M ℤ
  start_eventfd fd = do
    update (λ n. record n { mode = eventfd_mode; method = by_eventfd })
    set_close_on_exec fd
    give fd

  abbrev pub use_pipe : M ℤ
  use_pipe w = (
    record w { notify = record w.notify { mode = pipe_mode; method = by_pipe } },
    returned w.notify.read_end,
  )

  abbrev pub close_read_end_on_exec : M (Unit {0})
  close_read_end_on_exec w = set_close_on_exec w.notify.read_end w

  abbrev pub close_write_end_on_exec : M (Unit {0})
  close_write_end_on_exec w = set_close_on_exec w.notify.write_end w

  unfoldable pub start_pipe : M ℤ
  start_pipe = do open_pipe; close_read_end_on_exec; close_write_end_on_exec; use_pipe

  unfoldable pub choose_channel : M ℤ
  choose_channel = do fd ← open_eventfd; if is_minus_one fd then start_pipe else start_eventfd fd

  unfoldable pub init_notification : M ℤ
  init_notification w = (do leave_mode w.notify.mode; choose_channel) w
