-- ===== src/Tests/NotifyTests.antt =====
-- The notifications over a kernel that counts messages, and over one whose writes fail.
use lwt.Base.{
  ℕ, suc, ◌≡◌, refl, ◌∙◌, List, [], ◌∷◌, Option, some, none, ℤ, pos, minus_one, arith, true, false,
  sym, returned, raised, unix_error, is_negative,
}
use mathlib.Core.Bool.{false≢true}
use lwt.Notify.{
  Notify, World, not_initialized, eventfd_mode, null_method, send_notification, recv_notifications,
  send_all, push_notification, notification_send, notification_recv, eventfd_notification_send,
  eventfd_notification_recv, by_eventfd, resize_notifications, malloc_cells, collect, read_pending,
}
use lwt.Notify.Syscalls.{Kernel}
use lwt.Notify.Buffer.{Buffer}
use lwt.Notify.Wake.{
  Channel, event, ends, channel, WakeLaws, IsReliable, write_channel, read_channel,
}
use lwt.Notify.Delivery.{Pending, heard}
use lwt.Notify.Schedule.{Event, step, sends, receives, History, Faithful, run, run-Faithful}
use lwt.Notify.Startup.{
  init_notification, leave_mode, choose_channel, open_eventfd, start_eventfd, set_close_on_exec,
  close_fd,
}
use lwt.Notify.Fresh.{FreshLaws}
use lwt.Notify.Restart.{restart-strands, failed_send-strands}

-- The state is the number of unread messages.
abbrev counting : Kernel
counting = record {
  State = ℕ;
  errno = λ _. 0;
  eventfd = λ _. (0, pos 3);
  pipe = λ _. (0, pos 4, pos 5, pos 0);
  close = λ _ k. (k, pos 0);
  getfd = λ _ k. (k, pos 0);
  setfd_cloexec = λ _ _ k. (k, pos 0);
  write = λ _ _ k. (suc k, pos 8);
  read = λ _ _ _. (0, pos 8);
}

write_counts :
    (c : Channel) (k : ℕ)
    → is_negative (write_channel counting c k).1 ≡ false
    → (write_channel counting c k).0 ≡ suc k
write_counts (event fd) k h = refl
write_counts (ends r v) k h = refl

write_never_fails : (c : Channel) (k : ℕ) → is_negative (write_channel counting c k).1 ≡ false
write_never_fails (event fd) k = refl
write_never_fails (ends r v) k = refl

read_drains : (c : Channel) (k : ℕ) → (read_channel counting c k).0 ≡ 0
read_drains (event fd) k = refl
read_drains (ends r v) k = refl

read_never_fails : (c : Channel) (k : ℕ) → is_negative (read_channel counting c k).1 ≡ false
read_never_fails (event fd) k = refl
read_never_fails (ends r v) k = refl

abbrev counting_laws : WakeLaws counting
counting_laws = record {
  unread = λ _ k. k;
  write_counts = write_counts;
  write_fails = λ c k h. absurd (false≢true (sym (write_never_fails c k) ∙ h));
  read_drains = λ c k _ _. read_drains c k;
}

abbrev counting_fresh : FreshLaws counting counting_laws
counting_fresh = record {
  eventfd_fresh = λ _. refl;
  pipe_fresh = λ _. refl;
  getfd_reads_flags = λ _ _ _. refl;
  setfd_writes_flags = λ _ _ _ _. refl;
}

counting-IsReliable : (c : Channel) → IsReliable counting counting_laws c
counting-IsReliable c = record {
  write_succeeds = λ k _. write_never_fails c k;
  read_succeeds = λ k _. read_never_fails c k;
}

abbrev two_cells : List (Option ℤ) → ℕ → Notify
two_cells cells index = record {
  mode = eventfd_mode;
  method = by_eventfd;
  notification_fd = pos 3;
  read_end = pos 0;
  write_end = pos 0;
  notifications = cells;
  notification_count = 2;
  notification_index = index;
}

abbrev idle_world : World counting
idle_world = record { notify = two_cells (none ∷ none ∷ []) 0; kernel = 0 }

idle-Buffer : Buffer idle_world.notify []
idle-Buffer = record {
  stored = refl;
  filled = refl;
  sized = refl;
  room = omega arith;
  positive = omega arith;
}

idle-Pending : Pending counting counting_laws (event (pos 3)) idle_world []
idle-Pending = record { attached = refl; buffer = idle-Buffer; woken = refl }

abbrev idle_history : History counting counting_laws (event (pos 3))
idle_history = record { world = idle_world; delivered = []; sent = [] }

abbrev busy : List Event
busy =
    sends (pos 7)
    ∷ sends (pos 8)
    ∷ sends (pos 9)
    ∷ receives ((pos 5 ∷ []) ∷ [] ∷ [])
    ∷ sends (pos 6)
    ∷ []

-- Three sends outgrow the two cells; a fourth comes while the result is allocated.
busy_run :
    (run counting counting_laws (event (pos 3)) busy idle_history).delivered
    ≡ some (pos 7) ∷ some (pos 8) ∷ some (pos 9) ∷ some (pos 5) ∷ []
unfolding run step send_notification recv_notifications notification_send notification_recv
    eventfd_notification_send eventfd_notification_recv push_notification resize_notifications
    malloc_cells collect send_all read_pending heard
busy_run = refl

run-Faithful_example :
    (waiting : List ℤ) × Faithful counting counting_laws
      (event (pos 3))
      (run counting counting_laws (event (pos 3)) busy idle_history)
      waiting
run-Faithful_example =
    run-Faithful counting counting_laws (event (pos 3)) busy idle_history []
      (counting-IsReliable (event (pos 3))) (record { pending = idle-Pending; accounted = refl })

abbrev blank_world : World counting
blank_world = record {
  notify = record (two_cells [] 0) {
    mode = not_initialized;
    method = null_method;
    notification_count = 0;
  };
  kernel = 0;
}

blank_starts :
    init_notification counting blank_world
    ≡ ((init_notification counting blank_world).0, returned (pos 3))
unfolding init_notification leave_mode choose_channel open_eventfd start_eventfd set_close_on_exec
blank_starts = refl

-- A child of `fork` whose parent had one notification waiting.
abbrev forked_world : World counting
forked_world = record { notify = two_cells (some (pos 7) ∷ none ∷ []) 1; kernel = 1 }

forked_starts :
    init_notification counting forked_world
    ≡ ((init_notification counting forked_world).0, returned (pos 3))
unfolding init_notification leave_mode close_fd choose_channel open_eventfd start_eventfd
    set_close_on_exec
forked_starts = refl

restart-strands_example :
    (c : Channel) × (w : World counting) × (send_all counting
        (pos 8 ∷ [])
        (init_notification counting forked_world).0
      ≡ some w)
    × (channel w.notify ≡ some c)
    × Buffer w.notify (pos 7 ∷ pos 8 ∷ [])
    × (w.kernel ≡ 0)
restart-strands_example =
    restart-strands counting counting_laws counting_fresh forked_world
      (init_notification counting forked_world).0 (pos 3) (pos 7) [] (pos 8 ∷ []) (λ e. cc)
      (record {
        stored = refl;
        filled = refl;
        sized = refl;
        room = omega arith;
        positive = omega arith;
      })
      forked_starts

-- Every write fails, with `errno` 9.
abbrev broken : Kernel
broken = record counting {
  State = ℕ;
  errno = λ _. 9;
  eventfd = λ _. (0, pos 3);
  pipe = λ _. (0, pos 4, pos 5, pos 0);
  close = λ _ k. (k, pos 0);
  getfd = λ _ k. (k, pos 0);
  setfd_cloexec = λ _ _ k. (k, pos 0);
  write = λ _ _ k. (k, minus_one);
  read = λ _ _ _. (0, pos 8);
}

broken_fails : (c : Channel) (k : ℕ) → is_negative (write_channel broken c k).1 ≡ true
broken_fails (event fd) k = refl
broken_fails (ends r v) k = refl

broken_keeps : (c : Channel) (k : ℕ) → (write_channel broken c k).0 ≡ k
broken_keeps (event fd) k = refl
broken_keeps (ends r v) k = refl

broken_drains : (c : Channel) (k : ℕ) → (read_channel broken c k).0 ≡ 0
broken_drains (event fd) k = refl
broken_drains (ends r v) k = refl

abbrev broken_laws : WakeLaws broken
broken_laws = record {
  unread = λ _ k. k;
  write_counts = λ c k h. absurd (false≢true (sym h ∙ broken_fails c k));
  write_fails = λ c k _. broken_keeps c k;
  read_drains = λ c k _ _. broken_drains c k;
}

abbrev broken_world : World broken
broken_world = record { notify = idle_world.notify; kernel = 0 }

failed_send-strands_example :
    ((send_notification broken (pos 7) broken_world).1
      ≡ raised (unix_error 9 "send_notification" ""))
    × (w : World broken) × (send_all broken
          (pos 8 ∷ [])
          (send_notification broken (pos 7) broken_world).0
        ≡ some w)
    × Buffer w.notify (pos 7 ∷ pos 8 ∷ [])
    × (w.kernel ≡ 0)
failed_send-strands_example =
    failed_send-strands broken broken_laws (event (pos 3)) (pos 7) (pos 8 ∷ []) broken_world refl
      idle-Buffer refl refl
