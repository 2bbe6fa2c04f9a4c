-- ===== src/Notify/Delivery.antt =====
-- A send and a receive of src/unix/lwt_unix_stubs.c, as operations on the list of waiting ids.
use lwt.Base.{
  ◌<◌, ◌≡◌, refl, ap, subst, ◌∙◌, List, [], ◌∷◌, ◌++◌, map, append-nil, append_assoc, Option, some,
  none, ℤ, arith, length, min, returned, raised, fault, is_negative, ◌==◌, if◌then◌else◌, lt→ltb,
  le→ltb, le→leb, eq→==, ne→==, length-append, Bool-cases, inl, inr, false, unix_error,
}
use lwt.Notify.{
  Notify, World, resize_notifications, send_notification, send_first, send_next, send_all,
  read_pending, collect, recv_notifications,
}
use lwt.Notify.Syscalls.{Kernel}
use lwt.Notify.Buffer.{Buffer, resize-Buffer, pushed, push-Buffer}
use lwt.Notify.Wake.{
  Channel, channel, write_channel, read_channel, WakeLaws, IsReliable, notification_send_lem,
  notification_recv_lem,
}

grow : Notify → Notify
grow n = if n.notification_index == n.notification_count then resize_notifications n else n

grow-Buffer :
    {n : Notify} {ids : List ℤ}
    → Buffer n ids
    → Buffer (grow n) ids × ((grow n).notification_index < (grow n).notification_count)
unfolding grow
grow-Buffer {n} b = elim (Bool-cases (n.notification_index == n.notification_count)) [
  | inl full ↦ rw full (resize-Buffer b)
  | inr open_ ↦ rw open_ (b, ground (arith, b.room))
]

pub channel-pushed : (id : ℤ) (n : Notify) → channel (pushed id n) ≡ channel n
unfolding pushed
channel-pushed id n = refl

channel-grow : (n : Notify) → channel (grow n) ≡ channel n
unfolding grow resize_notifications
channel-grow n = elim (Bool-cases (n.notification_index == n.notification_count)) [
  | inl full ↦ rw full
  | inr open_ ↦ rw open_
]

module _ (K : Kernel) where
  send-eq_next :
      (id x : ℤ) (rest : List ℤ) (w : World K)
      → Buffer w.notify (x ∷ rest)
      → send_notification K id w
        ≡ (record { notify = pushed id (grow w.notify); kernel = w.kernel }, returned tt)
  unfolding send_notification grow
  send-eq_next id x rest w b =
      rw (lt→ltb 0 w.notify.notification_index (omega (arith, b.filled)))
        (rw ((push-Buffer id (grow-Buffer b).0 (grow-Buffer b).1).0, send_next))

  pub send-eq_first :
      (id : ℤ) (c : Channel) (w : World K)
      → channel w.notify ≡ some c
      → Buffer w.notify []
      → send_notification K id w ≡ (
        record { notify = pushed id w.notify; kernel = (write_channel K c w.kernel).0 },
        (if is_negative (write_channel K c w.kernel).1
            then raised (unix_error (K.errno (write_channel K c w.kernel).0) "send_notification" "")
            else returned tt),
      )
  unfolding send_notification
  send-eq_first id c w a b = rw (le→ltb 0 w.notify.notification_index (omega (arith, b.filled))) (
      rw ((push-Buffer id b (omega (arith, b.filled, b.positive))).0, send_first)
        (rw
          (notification_send_lem K (pushed id w.notify) w.kernel c (channel-pushed id w.notify ∙ a))
          refl))

-- What the windows of one receive add: the loop ends with the first window in which nobody sends.
unfoldable pub heard : List (List ℤ) → List ℤ
heard [] = []
heard ([] ∷ later) = []
heard ((id ∷ ids) ∷ later) = (id ∷ ids) ++ heard later

module _ (K : Kernel) where
  -- A world in which the buffer holds `ids` and the kernel is in state `k`.
  pub record Draining (c : Channel) (k : K.State) (w : World K) (ids : List ℤ) : Type 0 where
    pub attached : channel w.notify ≡ some c
    pub buffer : Buffer w.notify ids
    pub untouched : w.kernel ≡ k

  send_all-cons :
      (id : ℤ) (sends : List ℤ) (w w₁ : World K)
      → send_notification K id w ≡ (w₁, returned tt)
      → send_all K (id ∷ sends) w ≡ send_all K sends w₁
  unfolding send_all
  send_all-cons id sends w w₁ h =
      ap (λ r. elim r.1 as (λ _. Option (World K)) [ fault ↦ none | _ ↦ send_all K sends r.0 ]) h

  -- While the buffer is not empty no send touches the channel.
  pub send_all-Draining :
      (c : Channel) (k : K.State) (sends : List ℤ) (x : ℤ) (rest : List ℤ) (w : World K)
      → Draining c k w (x ∷ rest)
      → (w' : World K) × (send_all K sends w ≡ some w') × Draining c k w' (x ∷ rest ++ sends)
  unfolding send_all
  send_all-Draining c k [] x rest w d = (w, refl, rw append-nil d)
  send_all-Draining c k (id ∷ sends) x rest w d =
      let step = send-eq_next K id x rest w d.buffer in
      let w₁ : World K = record { notify = pushed id (grow w.notify); kernel = w.kernel } in
      let d₁ : Draining c k w₁ (x ∷ rest ++ id ∷ []) = record {
        attached = channel-pushed id _ ∙ channel-grow w.notify ∙ d.attached;
        buffer = (push-Buffer id (grow-Buffer d.buffer).0 (grow-Buffer d.buffer).1).1;
        untouched = d.untouched;
      } in
      let (w', e, q) = send_all-Draining c k sends x (rest ++ id ∷ []) w₁ d₁ in
      (
        w',
        send_all-cons id sends w w₁ step ∙ e,
        subst (Draining c k w') (append_assoc (x ∷ rest) (id ∷ []) sends) q,
      )

module _ (K : Kernel) (L : WakeLaws K) (c : Channel) where
  -- `ids` wait to be received, and the channel holds a wake-up exactly if there are any.
  pub record Pending (w : World K) (ids : List ℤ) : Type 0 where
    pub attached : channel w.notify ≡ some c
    pub buffer : Buffer w.notify ids
    pub woken : L.unread c w.kernel ≡ min 1 (length ids)

  pub send-Pending :
      (id : ℤ) (ids : List ℤ) (w : World K)
      → IsReliable K L c
      → Pending w ids
      → Pending (send_notification K id w).0 (ids ++ id ∷ [])
        × ((send_notification K id w).1 ≡ returned tt)
  send-Pending id [] w r p =
      let ok : is_negative (write_channel K c w.kernel).1 ≡ false =
        r.write_succeeds w.kernel p.woken in
      rw (send-eq_first K id c w p.attached p.buffer, ok)
        (
          record {
            attached = channel-pushed id w.notify ∙ p.attached;
            buffer =
                (push-Buffer id p.buffer (omega (arith, p.buffer.filled, p.buffer.positive))).1;
            woken = omega (arith, L.write_counts c w.kernel ok, p.woken);
          },
          refl,
        )
  send-Pending id (x ∷ rest) w r p = rw (send-eq_next K id x rest w p.buffer) (
    record {
      attached = channel-pushed id _ ∙ channel-grow w.notify ∙ p.attached;
      buffer = (push-Buffer id (grow-Buffer p.buffer).0 (grow-Buffer p.buffer).1).1;
      woken = omega (arith, p.woken, length-append rest (id ∷ []));
    },
    refl,
  )

  pub send_all-Pending :
      (sends ids : List ℤ) (w : World K)
      → IsReliable K L c
      → Pending w ids
      → (w' : World K) × (send_all K sends w ≡ some w') × Pending w' (ids ++ sends)
  unfolding send_all
  send_all-Pending [] ids w r p = (w, refl, rw append-nil p)
  send_all-Pending (id ∷ sends) ids w r p =
      let (p', done) = send-Pending id ids w r p in
      let (w', e, q) = send_all-Pending sends (ids ++ id ∷ []) (send_notification K id w).0 r p' in
      (w', rw (done, send_all) e, subst (Pending w') (append_assoc ids (id ∷ []) sends) q)

  -- The index is reset, and every id that waited is in the result, in the order of the sends.
  read_pending-Pending :
      (ids : List ℤ) (w : World K)
      → channel w.notify ≡ some c
      → Buffer w.notify ids
      → L.unread c w.kernel ≡ 0
      → Pending (read_pending K w).0 [] × ((read_pending K w).1 ≡ returned (map some ids))
  unfolding read_pending
  read_pending-Pending ids w a b u =
      rw
        (le→leb w.notify.notification_index (length w.notify.notifications)
          (omega (arith, b.sized, b.room)))
        (
          record {
            attached = a;
            buffer = record {
              stored = refl;
              filled = refl;
              sized = b.sized;
              room = omega arith;
              positive = b.positive;
            };
            woken = u;
          },
          ap returned b.stored,
        )

  collect-Pending :
      (k : K.State) (windows : List (List ℤ)) (x : ℤ) (rest : List ℤ) (w : World K)
      → L.unread c k ≡ 0
      → Draining K c k w (x ∷ rest)
      → Pending (collect K windows w).0 []
        × ((collect K windows w).1 ≡ returned (map some (x ∷ rest ++ heard windows)))
  unfolding collect heard
  collect-Pending k [] x rest w u d =
      rw append-nil
        (read_pending-Pending (x ∷ rest) w d.attached d.buffer (ap (L.unread c) d.untouched ∙ u))
  collect-Pending k ([] ∷ later) x rest w u d =
      let (w', e, q) = send_all-Draining K c k [] x rest w d in
      rw
        (
          e,
          collect,
          eq→== w.notify.notification_index w'.notify.notification_index
              (omega (arith, d.buffer.filled, q.buffer.filled, length-append rest [])),
        )
        (read_pending-Pending (x ∷ rest ++ []) w' q.attached q.buffer
          (ap (L.unread c) q.untouched ∙ u))
  collect-Pending k ((id ∷ ids) ∷ later) x rest w u d =
      let (w', e, q) = send_all-Draining K c k (id ∷ ids) x rest w d in
      rw
        (
          e,
          collect,
          ne→== w.notify.notification_index w'.notify.notification_index
              (omega (arith, d.buffer.filled, q.buffer.filled, length-append rest (id ∷ ids))),
        )
        (rw (← append_assoc rest (id ∷ ids) (heard later))
          (collect-Pending k later x (rest ++ id ∷ ids) w' u q))

  -- A receive that finds ids waiting returns them all, with those that arrive while the result is
  -- allocated, in the order of the sends, and leaves nothing behind.
  pub recv-Pending :
      (windows : List (List ℤ)) (x : ℤ) (rest : List ℤ) (w : World K)
      → IsReliable K L c
      → Pending w (x ∷ rest)
      → Pending (recv_notifications K windows w).0 []
        × ((recv_notifications K windows w).1 ≡ returned (map some (x ∷ rest ++ heard windows)))
  unfolding recv_notifications
  recv-Pending windows x rest w r p =
      let one : L.unread c w.kernel ≡ 1 = p.woken ∙ omega arith in
      let ok : is_negative (read_channel K c w.kernel).1 ≡ false = r.read_succeeds w.kernel one in
      rw (notification_recv_lem K w.notify w.kernel c p.attached, recv_notifications)
        (rw ok (
          collect-Pending (read_channel K c w.kernel).0 windows x rest _
            (L.read_drains c w.kernel one ok)
            (record { attached = p.attached; buffer = p.buffer; untouched = refl })))
