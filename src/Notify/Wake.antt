-- ===== src/Notify/Wake.antt =====
-- What `write` and `read` on the descriptor of src/unix/lwt_unix_stubs.c do to the wake-ups that
-- the main loop has not yet consumed.
use lwt.Base.{ℕ, suc, ◌≡◌, ℤ, Option, none, some, is_negative, true, false, arith}
use lwt.Notify.{
  Notify, null_method, by_eventfd, by_pipe, eventfd_message, pipe_message, notification_send,
  notification_recv, eventfd_notification_send, eventfd_notification_recv, pipe_notification_send,
  pipe_notification_recv,
}
use lwt.Notify.Syscalls.{Kernel}

-- An eventfd, or the two ends of a pipe.
pub data Channel : Type 0 where
  event : (fd : ℤ) → Channel
  ends : (read_end write_end : ℤ) → Channel

-- The channel that the function pointers use.
abbrev pub channel : Notify → Option Channel
channel n = elim n.method [
  | null_method ↦ none
  | by_eventfd ↦ some (event n.notification_fd)
  | by_pipe ↦ some (ends n.read_end n.write_end)
]

module _ (K : Kernel) where
  open K use {State, write, read, eventfd, pipe, getfd, setfd_cloexec}

  abbrev pub write_channel : Channel → State → State × ℤ
  write_channel (event fd) = write fd eventfd_message
  write_channel (ends r w) = write w pipe_message

  abbrev pub read_channel : Channel → State → State × ℤ
  read_channel (event fd) = read fd 8
  read_channel (ends r w) = read r 1

  -- `unread`: the messages written to the channel and not yet read. Nothing is asked of a read that
  -- finds several messages: an eventfd takes them all, a pipe one.
  pub record WakeLaws : Type 0 where
    pub unread : Channel → State → ℕ
    pub write_counts :
        (c : Channel) (k : State)
        → is_negative (write_channel c k).1 ≡ false
        → unread c (write_channel c k).0 ≡ suc (unread c k)
    pub write_fails :
        (c : Channel) (k : State)
        → is_negative (write_channel c k).1 ≡ true
        → unread c (write_channel c k).0 ≡ unread c k
    pub read_drains :
        (c : Channel) (k : State)
        → unread c k ≡ 1
        → is_negative (read_channel c k).1 ≡ false
        → unread c (read_channel c k).0 ≡ 0

  -- A channel on which the two calls of the protocol succeed: a write while nothing is unread, and
  -- a read while one message is.
  pub record IsReliable (L : WakeLaws) (c : Channel) : Type 0 where
    pub write_succeeds : (k : State) → L.unread c k ≡ 0 → is_negative (write_channel c k).1 ≡ false
    pub read_succeeds : (k : State) → L.unread c k ≡ 1 → is_negative (read_channel c k).1 ≡ false

  pub notification_send_lem :
      (n : Notify) (k : State) (c : Channel)
      → channel n ≡ some c
      → notification_send K n k ≡ some (write_channel c k)
  unfolding notification_send eventfd_notification_send pipe_notification_send
  notification_send_lem n k c h = ground arith

  pub notification_recv_lem :
      (n : Notify) (k : State) (c : Channel)
      → channel n ≡ some c
      → notification_recv K n k ≡ some (read_channel c k)
  unfolding notification_recv eventfd_notification_recv pipe_notification_recv
  notification_recv_lem n k c h = ground arith
