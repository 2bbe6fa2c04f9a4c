-- ===== src/Notify/Fresh.antt =====
-- The channel that `lwt_unix_init_notification` of src/unix/lwt_unix_stubs.c ends on, and the buffer,
-- which it leaves alone.
use lwt.Base.{
  subst, ◌≡◌, ◌≢◌, refl, sym, ap, ◌∙◌, List, some, ℤ, arith, is_minus_one, Bool-cases, inl, inr,
  returned,
}
use lwt.Notify.{pipe_mode, by_pipe, World, Notify, Mode, not_initialized}
use lwt.Notify.Syscalls.{Kernel}
use lwt.Notify.Buffer.{Buffer}
use lwt.Notify.Wake.{Channel, event, ends, channel, WakeLaws}
use lwt.Notify.Startup.{
  leave_mode, choose_channel, ◌>>=◌, use_pipe, close_read_end_on_exec, close_write_end_on_exec,
  >>=-returned, open_eventfd, open_pipe, start_eventfd, start_pipe, close_fd, set_close_on_exec,
}

-- A new channel has nothing unread, and `fcntl` reads nothing and writes nothing.
pub record FreshLaws (K : Kernel) (L : WakeLaws K) : Type 0 where
  pub eventfd_fresh : (k : K.State) → L.unread (event (K.eventfd k).1) (K.eventfd k).0 ≡ 0
  pub pipe_fresh : (k : K.State) → L.unread (ends (K.pipe k).1 (K.pipe k).2) (K.pipe k).0 ≡ 0
  pub getfd_reads_flags :
      (c : Channel) (fd : ℤ) (k : K.State) → L.unread c (K.getfd fd k).0 ≡ L.unread c k
  pub setfd_writes_flags :
      (c : Channel) (fd flags : ℤ) (k : K.State)
      → L.unread c (K.setfd_cloexec fd flags k).0 ≡ L.unread c k

module _ (K : Kernel) where
  -- The buffer of ids is left alone by everything but `init_notifications`.
  unfoldable pub SameBuffer : Notify → Notify → Type 0
  SameBuffer n m =
      (m.notifications ≡ n.notifications)
      × (m.notification_index ≡ n.notification_index)
      × (m.notification_count ≡ n.notification_count)

  pub same-Buffer : (n m : Notify) {ids : List ℤ} → SameBuffer n m → Buffer n ids → Buffer m ids
  unfolding SameBuffer
  same-Buffer n m s b = record {
    stored = rw (s.0, s.1) b.stored;
    filled = s.1 ∙ b.filled;
    sized = rw s.0 (b.sized ∙ sym s.2);
    room = omega (arith, b.room, s.1, s.2);
    positive = omega (arith, b.positive, s.2);
  }

  pub leave_mode-same :
      (m : Mode) (w : World K) (a : Unit {0})
      → m ≢ not_initialized
      → (leave_mode K m w).1 ≡ returned a
      → SameBuffer w.notify (leave_mode K m w).0.notify
  unfolding leave_mode close_fd SameBuffer
  leave_mode-same m w a h e = ground arith

module _ (K : Kernel) (L : WakeLaws K) (F : FreshLaws K L) where
  start_eventfd-fresh :
      (fd : ℤ) (w w' : World K) (r : ℤ)
      → start_eventfd K fd w ≡ (w', returned r)
      → SameBuffer K w.notify w'.notify
        × (channel w'.notify ≡ some (event w.notify.notification_fd))
        × (L.unread (event w.notify.notification_fd) w'.kernel
            ≡ L.unread (event w.notify.notification_fd) w.kernel)
  unfolding start_eventfd set_close_on_exec SameBuffer
  start_eventfd-fresh fd w w' r e =
      let c = event w.notify.notification_fd in
      let k = (K.getfd fd w.kernel).0 in
      (
        ground arith,
        ground arith,
        ground (
          arith,
          F.getfd_reads_flags c fd w.kernel,
          F.setfd_writes_flags c fd (K.getfd fd w.kernel).1 k,
        ),
      )

  set_close_on_exec-same :
      (c : Channel) (fd : ℤ) (w : World K) (a : Unit {0})
      → (set_close_on_exec K fd w).1 ≡ returned a
      → ((set_close_on_exec K fd w).0.notify ≡ w.notify)
        × (L.unread c (set_close_on_exec K fd w).0.kernel ≡ L.unread c w.kernel)
  unfolding set_close_on_exec
  set_close_on_exec-same c fd w a e =
      let k = (K.getfd fd w.kernel).0 in
      elim (Bool-cases (is_minus_one (K.getfd fd w.kernel).1)) [
        | inl bad ↦ absurd (cc (rw bad at e))
        | inr good ↦ rw good (
          refl,
          F.setfd_writes_flags c fd (K.getfd fd w.kernel).1 k ∙ F.getfd_reads_flags c fd w.kernel,
        )
      ]

  open_pipe-fresh :
      (w : World K) (a : Unit {0})
      → (open_pipe K w).1 ≡ returned a
      → (open_pipe K w).0 ≡ record {
        notify = record w.notify {
          read_end = (K.pipe w.kernel).1;
          write_end = (K.pipe w.kernel).2;
        };
        kernel = (K.pipe w.kernel).0;
      }
  unfolding open_pipe
  open_pipe-fresh w a e = elim (Bool-cases (is_minus_one (K.pipe w.kernel).3)) [
    | inl bad ↦ absurd (cc (rw bad at e))
    | inr good ↦ rw good refl
  ]

  start_pipe-fresh :
      (w w' : World K) (r : ℤ)
      → start_pipe K w ≡ (w', returned r)
      → let c = ends (K.pipe w.kernel).1 (K.pipe w.kernel).2 in
        SameBuffer K w.notify w'.notify × (channel w'.notify ≡ some c) × (L.unread c w'.kernel ≡ 0)
  unfolding start_pipe SameBuffer
  start_pipe-fresh w w' r e =
      let c = ends (K.pipe w.kernel).1 (K.pipe w.kernel).2 in
      let (a, opened, e₁) =
        >>=-returned K (open_pipe K)
          (λ _.
            ◌>>=◌ K (close_read_end_on_exec K)
              (λ _. ◌>>=◌ K (close_write_end_on_exec K) (λ _. use_pipe K)))
          w e in
      let w₁ = (open_pipe K w).0 in
      let (a₁, first, e₂) =
        >>=-returned K (close_read_end_on_exec K)
          (λ _. ◌>>=◌ K (close_write_end_on_exec K) (λ _. use_pipe K)) w₁ e₁ in
      let w₂ = (close_read_end_on_exec K w₁).0 in
      let (a₂, second, e₃) = >>=-returned K (close_write_end_on_exec K) (λ _. use_pipe K) w₂ e₂ in
      let p₁ = open_pipe-fresh w a opened in
      let p₂ = set_close_on_exec-same c w₁.notify.read_end w₁ a₁ first in
      let p₃ = set_close_on_exec-same c w₂.notify.write_end w₂ a₂ second in
      let w₃ = (close_write_end_on_exec K w₂).0 in
      let same : w₃.notify
          ≡ record w.notify { read_end = (K.pipe w.kernel).1; write_end = (K.pipe w.kernel).2 } =
        p₃.0 ∙ p₂.0 ∙ ap (λ z. z.notify) p₁ in
      let unread : L.unread c w₃.kernel ≡ 0 =
        p₃.1 ∙ p₂.1 ∙ ap (λ z. L.unread c z.kernel) p₁ ∙ F.pipe_fresh w.kernel in
      let last : record w₃ { notify = record w₃.notify { mode = pipe_mode; method = by_pipe } }
          ≡ w' =
        ap (λ z. z.0) e₃ in
      subst
        (λ z.
          SameBuffer K w.notify z.notify × (channel z.notify ≡ some c) × (L.unread c z.kernel ≡ 0))
        last
        (
          (
            ap (λ n. n.notifications) same,
            ap (λ n. n.notification_index) same,
            ap (λ n. n.notification_count) same,
          ),
          ap (λ n. some (ends n.read_end n.write_end)) same,
          unread,
        )

  -- The channel that the start ends on, with nothing unread on it.
  pub choose_channel-fresh :
      (w w' : World K) (r : ℤ)
      → choose_channel K w ≡ (w', returned r)
      → (c : Channel) × SameBuffer K w.notify w'.notify
        × (channel w'.notify ≡ some c)
        × (L.unread c w'.kernel ≡ 0)
  unfolding choose_channel open_eventfd SameBuffer
  choose_channel-fresh w w' r e = elim (Bool-cases (is_minus_one (K.eventfd w.kernel).1)) [
    | inl failed ↦
        let w₁ : World K = record {
          notify = record w.notify { notification_fd = (K.eventfd w.kernel).1 };
          kernel = (K.eventfd w.kernel).0;
        } in
        let (same, at, empty) = start_pipe-fresh w₁ w' r (rw failed at e) in (_, same, at, empty)
    | inr opened ↦
        let w₁ : World K = record {
          notify = record w.notify { notification_fd = (K.eventfd w.kernel).1 };
          kernel = (K.eventfd w.kernel).0;
        } in
        let (same, at, empty) =
          start_eventfd-fresh (K.eventfd w.kernel).1 w₁ w' r (rw opened at e) in
        (_, same, at, empty ∙ F.eventfd_fresh w.kernel)
  ]
