-- ===== src/Libev/Backend.antt =====
-- The backends of src/unix/lwt_libev_stubs.c, and the start of a loop.
use Prim.Native.Nat.{bit_or}
use lwt.Base.{
  ℕ, [], Option, none, some, ◌==◌, if◌then◌else◌, ◌≡◌, ◌≢◌, refl, arith, failure, Outcome, returned,
  raised,
}
use lwt.Libev.{State}

-- `Lwt_engine.Ev_backend.t`
pub data Backend : Type 0 where
  evbackend_default evbackend_select evbackend_poll evbackend_epoll : Backend
  evbackend_kqueue evbackend_devpoll evbackend_port : Backend

-- libev's constants.
pub record Flags : Type 0 where
  pub forkcheck : ℕ
  pub select : ℕ
  pub poll : ℕ
  pub epoll : ℕ
  pub kqueue : ℕ
  pub devpoll : ℕ
  pub port : ℕ

module _ (c : Flags) where
  unfoldable pub backend_val : Backend → ℕ
  backend_val evbackend_default = 0
  backend_val evbackend_select = c.select
  backend_val evbackend_poll = c.poll
  backend_val evbackend_epoll = c.epoll
  backend_val evbackend_kqueue = c.kqueue
  backend_val evbackend_devpoll = c.devpoll
  backend_val evbackend_port = c.port

  -- From what `ev_backend` gives; another value fails the assertion.
  unfoldable pub lwt_libev_backend : ℕ → Option Backend
  lwt_libev_backend b =
      if b == c.select
      then some evbackend_select
      else if b == c.poll
      then some evbackend_poll
      else if b == c.epoll
      then some evbackend_epoll
      else if b == c.kqueue
      then some evbackend_kqueue
      else if b == c.devpoll
      then some evbackend_devpoll
      else if b == c.port
      then some evbackend_port
      else none

  unfoldable pub lwt_libev_init :
      {C D L : Type 0} (ev_loop_new : (flags : ℕ) → Option L) → Backend → Outcome (State C D L)
  lwt_libev_init ev_loop_new backend =
      elim (ev_loop_new (bit_or c.forkcheck (backend_val backend))) [
        | none ↦ raised (failure "lwt_libev_init")
        | some loop ↦ returned (record { watchers = []; roots = []; loop = loop })
      ]

  -- The bits of libev, one for each backend.
  abbrev pub Bits : Type 0
  Bits =
      (c.select ≡ 1)
      × (c.poll ≡ 2)
      × (c.epoll ≡ 4)
      × (c.kqueue ≡ 8)
      × (c.devpoll ≡ 16)
      × (c.port ≡ 32)

  -- A loop that runs on the backend that was asked for says so.
  pub backend-backend_val :
      (b : Backend) → Bits → b ≢ evbackend_default → lwt_libev_backend (backend_val b) ≡ some b
  unfolding backend_val lwt_libev_backend
  backend-backend_val evbackend_default bits h = absurd (h refl)
  backend-backend_val evbackend_select (s, p, e, k, d, o) h = ground arith
  backend-backend_val evbackend_poll (s, p, e, k, d, o) h = ground arith
  backend-backend_val evbackend_epoll (s, p, e, k, d, o) h = ground arith
  backend-backend_val evbackend_kqueue (s, p, e, k, d, o) h = ground arith
  backend-backend_val evbackend_devpoll (s, p, e, k, d, o) h = ground arith
  backend-backend_val evbackend_port (s, p, e, k, d, o) h = ground arith
