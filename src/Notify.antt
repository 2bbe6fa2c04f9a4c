-- ===== src/Notify.antt =====
-- src/unix/lwt_unix_stubs.c, "Notifications": the buffer of pending notification ids, shared by the
-- worker threads, the signal handlers and the main loop, and the descriptor that wakes the main loop.
-- Each function runs under `notification_mutex`; the window in which `lwt_unix_recv_notifications`
-- releases it is a list of the sends that other threads make there.
pub mod Syscalls
pub mod Buffer
pub mod Wake
pub mod Delivery
pub mod Startup
pub mod Fresh
pub mod Restart
pub mod Schedule
use lwt.Base.{
  ℕ, ◌+◌, ◌*◌, List, [], ◌∷◌, ◌++◌, Option, none, some, ℤ, pos, minus_one, is_negative, Bool, true,
  false, Outcome, returned, raised, fault, Exn, unix_error, failure, ltb, leb, ◌==◌, if◌then◌else◌,
  length, set, take, drop, replicate,
}
use Syscalls.{Kernel}

-- `enum notification_mode`
pub data Mode : Type 0 where
  not_initialized no_mode eventfd_mode pipe_mode windows_mode : Mode

-- What the function pointers `notification_send` and `notification_recv` point to.
pub data Method : Type 0 where
  null_method by_eventfd by_pipe : Method

-- The static variables. A cell of the buffer is `none` until it is first written.
pub record Notify : Type 0 where
  pub mode : Mode
  pub method : Method
  pub notification_fd : ℤ
  pub read_end : ℤ
  pub write_end : ℤ
  pub notifications : List (Option ℤ)
  pub notification_count : ℕ
  pub notification_index : ℕ

-- `lwt_unix_malloc` aborts the process on failure, so it returns a block, of unwritten cells.
unfoldable pub malloc_cells : ℕ → List (Option ℤ)
malloc_cells n = replicate n none

unfoldable pub init_notifications : Notify → Notify
init_notifications n = record n { notification_count = 4096; notifications = malloc_cells 4096 }

-- The `memcpy` of the old cells over the front of a block twice as long.
unfoldable pub resize_notifications : Notify → Notify
resize_notifications n =
    let new_count = n.notification_count * 2 in
    record n {
      notifications =
          take n.notification_count n.notifications
          ++ drop n.notification_count (malloc_cells new_count);
      notification_count = new_count;
    }

-- `notifications[notification_index++] = id`; `none` is a write outside the block.
unfoldable pub push_notification : ℤ → Notify → Option Notify
push_notification id n =
    if ltb n.notification_index (length n.notifications)
    then some (record n {
      notifications = set n.notifications n.notification_index (some id);
      notification_index = n.notification_index + 1;
    })
    else none

-- The message of `eventfd_notification_send`: a 64-bit one; of `pipe_notification_send`: a byte.
abbrev pub eventfd_message : List ℕ
eventfd_message = 1 ∷ 0 ∷ 0 ∷ 0 ∷ 0 ∷ 0 ∷ 0 ∷ 0 ∷ []

abbrev pub pipe_message : List ℕ
pipe_message = 0 ∷ []

module _ (K : Kernel) where
  open K use {State, errno, write, read}

  pub record World : Type 0 where
    pub notify : Notify
    pub kernel : State

  unfoldable pub eventfd_notification_send : Notify → State → State × ℤ
  eventfd_notification_send n k = write n.notification_fd eventfd_message k

  unfoldable pub eventfd_notification_recv : Notify → State → State × ℤ
  eventfd_notification_recv n k = read n.notification_fd 8 k

  unfoldable pub pipe_notification_send : Notify → State → State × ℤ
  pipe_notification_send n k = write n.write_end pipe_message k

  unfoldable pub pipe_notification_recv : Notify → State → State × ℤ
  pipe_notification_recv n k = read n.read_end 1 k

  unfoldable pub notification_send : Notify → State → Option (State × ℤ)
  notification_send n k = elim n.method [
    | null_method ↦ none
    | by_eventfd ↦ some (eventfd_notification_send n k)
    | by_pipe ↦ some (pipe_notification_send n k)
  ]

  unfoldable pub notification_recv : Notify → State → Option (State × ℤ)
  notification_recv n k = elim n.method [
    | null_method ↦ none
    | by_eventfd ↦ some (eventfd_notification_recv n k)
    | by_pipe ↦ some (pipe_notification_recv n k)
  ]

  -- `if (ret < 0) unix_error(errno, name, Nothing)`
  abbrev check_ret : State → ℤ → Exn → Outcome (Unit {0})
  check_ret k ret exn = if is_negative ret then raised exn else returned tt

  -- The branch of the send that finds the buffer empty: store the id, then wake the main thread.
  unfoldable pub send_first : Option Notify → World → World × Outcome (Unit {0})
  send_first none w = (w, fault)
  send_first (some n) w = elim (notification_send n w.kernel) [
    | none ↦ (record { notify = n; kernel = w.kernel }, fault)
    | some (k, ret) ↦ (
      record { notify = n; kernel = k },
      check_ret k ret (unix_error (errno k) "send_notification" ""),
    )
  ]

  -- The other branch: a wake-up is under way already.
  unfoldable pub send_next : Option Notify → World → World × Outcome (Unit {0})
  send_next none w = (w, fault)
  send_next (some n) w = (record { notify = n; kernel = w.kernel }, returned tt)

  unfoldable pub send_notification : ℤ → World → World × Outcome (Unit {0})
  unfolding send_first send_next
  send_notification id w =
      let n = w.notify in
      if ltb 0 n.notification_index
      then send_next
          (push_notification id
            (if n.notification_index == n.notification_count then resize_notifications n else n))
          w
      else send_first (push_notification id n) w

  -- Sends by other threads, one critical section each. An exception is the sender's own affair.
  unfoldable pub send_all : List ℤ → World → Option World
  send_all [] w = some w
  send_all (id ∷ ids) w =
      let (w', outcome) = send_notification id w in
      elim outcome [ fault ↦ none | _ ↦ send_all ids w' ]

  -- The final `for` loop and the reset of the index, on a result of `notification_index` fields.
  unfoldable pub read_pending : World → World × Outcome (List (Option ℤ))
  read_pending w =
      let n = w.notify in
      if leb n.notification_index (length n.notifications)
      then (
        record w { notify = record n { notification_index = 0 } },
        returned (take n.notification_index n.notifications),
      )
      else (w, fault)

  -- The `do … while` loop: while the result is allocated the mutex is free, and the sends of the next
  -- window happen; it goes round again if they changed the index. No window left: nobody sends.
  unfoldable pub collect : List (List ℤ) → World → World × Outcome (List (Option ℤ))
  collect [] w = read_pending w
  collect (sends ∷ later) w = elim (send_all sends w) [
    | none ↦ (w, fault)
    | some w' ↦
        let again = collect later w' in
        if w.notify.notification_index == w'.notify.notification_index
        then read_pending w'
        else again
  ]

  unfoldable pub recv_notifications : List (List ℤ) → World → World × Outcome (List (Option ℤ))
  recv_notifications windows w = elim (notification_recv w.notify w.kernel) [
    | none ↦ (w, fault)
    | some (k, ret) ↦
        let w' : World = record w { kernel = k } in
        let go = collect windows w' in
        if is_negative ret then (w', raised (unix_error (errno k) "recv_notifications" "")) else go
  ]
