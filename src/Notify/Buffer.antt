-- ===== src/Notify/Buffer.antt =====
-- The growing array of src/unix/lwt_unix_stubs.c seen as the list of the ids that wait in it.
use lwt.Base.{
  ◌+◌, ◌*◌, ◌≤◌, ◌<◌, ◌≡◌, sym, ◌∙◌, List, [], ◌∷◌, ◌++◌, map, map-append, Option, some, none, ℤ,
  arith, length, set, take, drop, lt→ltb, length-append, length-set, length-take, length-drop,
  length-replicate, take-set, take-append_left, take_all, replicate,
}
use native.Mathlib.Numerals.{add-one}
use lwt.Notify.{Notify, resize_notifications, push_notification, malloc_cells}

-- The buffer holds `ids`, oldest first, in cells that have all been written.
pub record Buffer (n : Notify) (ids : List ℤ) : Type 0 where
  pub stored : take n.notification_index n.notifications ≡ map some ids
  pub filled : n.notification_index ≡ length ids
  pub sized : length n.notifications ≡ n.notification_count
  pub room : n.notification_index ≤ n.notification_count
  pub positive : 0 < n.notification_count

-- Reallocation keeps what is stored, and makes room for one more.
pub resize-Buffer :
    {n : Notify} {ids : List ℤ}
    → Buffer n ids
    → Buffer (resize_notifications n) ids
      × ((resize_notifications n).notification_index < (resize_notifications n).notification_count)
unfolding resize_notifications malloc_cells
resize-Buffer {n} {ids} b = (
  record {
    stored = rw (take_all n.notification_count n.notifications (omega (arith, b.sized))) (
        take-append_left n.notification_index n.notifications _ (omega (arith, b.sized, b.room))
        ∙ b.stored);
    filled = b.filled;
    sized = omega (
      arith,
      length-append (take n.notification_count n.notifications)
          (drop n.notification_count (replicate (n.notification_count * 2) none)),
      length-take n.notification_count n.notifications,
      length-drop n.notification_count (replicate {A = Option ℤ} (n.notification_count * 2) none),
      length-replicate {A = Option ℤ} (n.notification_count * 2) none,
      b.sized,
    );
    room = omega (arith, b.room);
    positive = omega (arith, b.positive);
  },
  omega (arith, b.room, b.positive),
)

unfoldable pub pushed : ℤ → Notify → Notify
pushed id n = record n {
  notifications = set n.notifications n.notification_index (some id);
  notification_index = n.notification_index + 1;
}

pub push-Buffer :
    (id : ℤ) {n : Notify} {ids : List ℤ}
    → Buffer n ids
    → n.notification_index < n.notification_count
    → (push_notification id n ≡ some (pushed id n)) × Buffer (pushed id n) (ids ++ id ∷ [])
unfolding push_notification pushed
push-Buffer id {n} {ids} b h = (
  rw (lt→ltb n.notification_index (length n.notifications) (omega (arith, b.sized))),
  record {
    stored = rw add-one (
        take-set n.notification_index (some id) n.notifications (omega (arith, b.sized))
        ∙ (rw b.stored (sym (map-append some ids (id ∷ [])))));
    filled = omega (arith, b.filled, length-append ids (id ∷ []));
    sized = length-set n.notifications n.notification_index (some id) ∙ b.sized;
    room = omega arith;
    positive = b.positive;
  },
)
