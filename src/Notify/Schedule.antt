-- ===== src/Notify/Schedule.antt =====
-- Histories of src/unix/lwt_unix_stubs.c's notifications: sends by any thread, and receives by the
-- main loop when the descriptor is readable.
use lwt.Base.{
  ◌≡◌, sym, ap, ◌∙◌, List, [], ◌∷◌, ◌++◌, map, map-append, append-nil, append_assoc, Option, some,
  ℤ, arith, Outcome, returned, ◌==◌, if◌then◌else◌, eq→==, ne→==,
}
use lwt.Notify.{World, send_notification, recv_notifications}
use lwt.Notify.Syscalls.{Kernel}
use lwt.Notify.Wake.{Channel, WakeLaws, IsReliable}
use lwt.Notify.Delivery.{Pending, send-Pending, recv-Pending, heard}

pub data Event : Type 0 where
  sends : ℤ → Event
  receives : List (List ℤ) → Event

abbrev pub contents : Outcome (List (Option ℤ)) → List (Option ℤ)
contents (returned ids) = ids
contents _ = []

account :
    (d : List (Option ℤ)) (waiting sent more : List ℤ)
    → d ++ map some waiting ≡ map some sent
    → d ++ map some (waiting ++ more) ≡ map some (sent ++ more)
account d waiting sent more h =
    ap (λ r. d ++ r) (map-append some waiting more)
    ∙ (sym (append_assoc d (map some waiting) (map some more))
        ∙ (ap (λ r. r ++ map some more) h ∙ sym (map-append some sent more)))

module _ (K : Kernel) (L : WakeLaws K) (c : Channel) where
  -- The world, the ids handed to the main loop, and the ids that were sent, so far.
  pub record History : Type 0 where
    pub world : World K
    pub delivered : List (Option ℤ)
    pub sent : List ℤ

  unfoldable pub step : Event → History → History
  step (sends id) h = record h {
    world = (send_notification K id h.world).0;
    sent = h.sent ++ id ∷ [];
  }
  step (receives windows) h =
      let (w', got) = recv_notifications K windows h.world in
      if L.unread c h.world.kernel == 0 then h else record {
        world = w';
        delivered = h.delivered ++ contents got;
        sent = h.sent ++ heard windows;
      }

  unfoldable pub run : List Event → History → History
  run [] h = h
  run (e ∷ es) h = run es (step e h)

  pub record Faithful (h : History) (waiting : List ℤ) : Type 0 where
    pub pending : Pending K L c h.world waiting
    pub accounted : h.delivered ++ map some waiting ≡ map some h.sent

  step-Faithful :
      (e : Event) (h : History) (waiting : List ℤ)
      → IsReliable K L c
      → Faithful h waiting
      → (waiting' : List ℤ) × Faithful (step e h) waiting'
  unfolding step
  step-Faithful (sends id) h waiting r f = (
    waiting ++ id ∷ [],
    record {
      pending = (send-Pending K L c id waiting h.world r f.pending).0;
      accounted = account h.delivered waiting h.sent (id ∷ []) f.accounted;
    },
  )
  step-Faithful (receives windows) h [] r f =
      ([], rw (eq→== (L.unread c h.world.kernel) 0 (f.pending.woken ∙ omega arith)) f)
  step-Faithful (receives windows) h (x ∷ rest) r f =
      let (p, got) = recv-Pending K L c windows x rest h.world r f.pending in
      (
        [],
        rw (ne→== (L.unread c h.world.kernel) 0 (omega (arith, f.pending.woken))) (record {
          pending = p;
          accounted =
              rw (got, append-nil)
                (account h.delivered (x ∷ rest) h.sent (heard windows) f.accounted);
        }),
      )

  -- However sends and receives interleave over a reliable channel, from a history that is faithful:
  -- the ids that the main loop has received, followed by those that still wait, are the ids sent,
  -- each once, in the order of the sends; and while any wait, exactly one wake-up is unread,
  -- otherwise none.
  pub run-Faithful :
      (es : List Event) (h : History) (waiting : List ℤ)
      → IsReliable K L c
      → Faithful h waiting
      → (waiting' : List ℤ) × Faithful (run es h) waiting'
  unfolding run
  run-Faithful [] h waiting r f = (waiting, f)
  run-Faithful (e ∷ es) h waiting r f =
      let (waiting₁, f₁) = step-Faithful e h waiting r f in run-Faithful es (step e h) waiting₁ r f₁
