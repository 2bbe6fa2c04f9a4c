-- ===== src/Notify/Restart.antt =====
-- What `lwt_unix_init_notification` leaves behind: an empty channel at the first start, and after a
-- restart the ids that waited, on a channel that says nothing of them.
use lwt.Base.{
  ◌≡◌, ◌≢◌, refl, sym, ap, ◌∙◌, List, [], ◌∷◌, ◌++◌, Option, some, none, ℤ, arith, length,
  length-replicate, true, returned, raised, unix_error, is_negative,
}
use lwt.Notify.{
  World, not_initialized, no_mode, init_notifications, malloc_cells, send_all, send_notification,
}
use lwt.Notify.Syscalls.{Kernel}
use lwt.Notify.Buffer.{Buffer, pushed, push-Buffer}
use lwt.Notify.Wake.{Channel, channel, WakeLaws, write_channel}
use lwt.Notify.Startup.{init_notification, leave_mode, choose_channel, >>=-returned}
use lwt.Notify.Delivery.{Pending, send_all-Draining, send-eq_first, channel-pushed}
use lwt.Notify.Fresh.{FreshLaws, SameBuffer, same-Buffer, leave_mode-same, choose_channel-fresh}

module _ (K : Kernel) (L : WakeLaws K) (F : FreshLaws K L) where
  -- If `lwt_unix_init_notification` returns, called in the mode NOT_INITIALIZED with the index at
  -- 0, then the buffer is empty and nothing is unread on the channel that it opened.
  pub init-Pending :
      (w w' : World K) (r : ℤ)
      → w.notify.mode ≡ not_initialized
      → w.notify.notification_index ≡ 0
      → init_notification K w ≡ (w', returned r)
      → (c : Channel) × Pending K L c w' []
  unfolding init_notification leave_mode init_notifications malloc_cells SameBuffer
  init-Pending w w' r m z e =
      let w₁ : World K = record w {
        notify = init_notifications (record w.notify { mode = no_mode });
      } in
      let (c, same, at, empty) = choose_channel-fresh K L F w₁ w' r (rw m at e) in
      (
        c,
        record {
          attached = at;
          buffer = record {
            stored = rw (same.1, z);
            filled = same.1 ∙ z;
            sized = ap length same.0 ∙ length-replicate {A = Option ℤ} 4096 none ∙ sym same.2;
            room = omega (arith, same.1, same.2);
            positive = omega (arith, same.2);
          };
          woken = empty;
        },
      )

  -- If `lwt_unix_init_notification` returns, called in another mode than NOT_INITIALIZED while ids
  -- wait in the buffer, then after any further sends the buffer holds the old ids and the new ones,
  -- and nothing is unread on the new channel.
  pub restart-strands :
      (w w' : World K) (r x : ℤ) (rest sends : List ℤ)
      → w.notify.mode ≢ not_initialized
      → Buffer w.notify (x ∷ rest)
      → init_notification K w ≡ (w', returned r)
      → (c : Channel) × (w'' : World K) × (send_all K sends w' ≡ some w'')
        × (channel w''.notify ≡ some c)
        × Buffer w''.notify (x ∷ rest ++ sends)
        × (L.unread c w''.kernel ≡ 0)
  unfolding init_notification SameBuffer
  restart-strands w w' r x rest sends h b e =
      let (u, left, e₁) = >>=-returned K (leave_mode K w.notify.mode) (λ _. choose_channel K) w e in
      let w₁ = (leave_mode K w.notify.mode w).0 in
      let same₁ = leave_mode-same K w.notify.mode w u h left in
      let (c, same, at, empty) = choose_channel-fresh K L F w₁ w' r e₁ in
      let b' : Buffer w'.notify (x ∷ rest) =
        same-Buffer K w₁.notify w'.notify same (same-Buffer K w.notify w₁.notify same₁ b) in
      let (w'', sent, d) =
        send_all-Draining K c w'.kernel sends x rest w'
          (record { attached = at; buffer = b'; untouched = refl }) in
      (c, w'', sent, d.attached, d.buffer, ap (L.unread c) d.untouched ∙ empty)

module _ (K : Kernel) (L : WakeLaws K) where
  -- If the buffer is empty, nothing is unread and the write that wakes the main loop fails, then
  -- the sender gets its error, the id is in the buffer all the same, and after any further sends
  -- nothing is unread on the channel.
  pub failed_send-strands :
      (c : Channel) (id : ℤ) (sends : List ℤ) (w : World K)
      → channel w.notify ≡ some c
      → Buffer w.notify []
      → L.unread c w.kernel ≡ 0
      → is_negative (write_channel K c w.kernel).1 ≡ true
      → ((send_notification K id w).1
          ≡ raised (unix_error (K.errno (write_channel K c w.kernel).0) "send_notification" ""))
        × (w' : World K) × (send_all K sends (send_notification K id w).0 ≡ some w')
        × Buffer w'.notify (id ∷ sends)
        × (L.unread c w'.kernel ≡ 0)
  failed_send-strands c id sends w a b u failed =
      let first = send-eq_first K id c w a b in
      let k = (write_channel K c w.kernel).0 in
      let w₁ : World K = record { notify = pushed id w.notify; kernel = k } in
      let (w', sent, d) = send_all-Draining K c k sends id [] w₁ (record {
        attached = channel-pushed id w.notify ∙ a;
        buffer = (push-Buffer id b (omega (arith, b.filled, b.positive))).1;
        untouched = refl;
      }) in
      (
        rw (first, failed),
        w',
        rw first sent,
        d.buffer,
        ap (L.unread c) d.untouched ∙ (L.write_fails c w.kernel failed ∙ u),
      )
