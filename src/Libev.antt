-- ===== src/Libev.antt =====
-- src/unix/lwt_libev_stubs.c: the event loop and its watchers. libev itself is a parameter. A watcher is
-- a block of C, known by its address; its `data` holds an OCaml callback and is registered with the
-- garbage collector as a root. To read or stop a watcher that was freed is a fault.
pub mod Backend
pub mod Engine
pub mod Commands
use lwt.Base.{
  ℕ, zero, suc, Bool, true, false, not, List, [], ◌∷◌, Option, none, some, ℤ, ◌==◌, if◌then◌else◌,
}

-- What a watcher waits for; `D` are C's `double`.
pub data Event (D : Type 0) : Type 0 where
  ev_read ev_write : (fd : ℤ) → Event D
  ev_timer : (after repeat : D) → Event D

-- The functions of libev, on a state `L` of a loop. `pop` is the next watcher that `ev_invoke_pending`
-- invokes, and the loop without it; `adjusted` is a delay plus `ev_time()` minus `ev_now(loop)`.
pub record Libev (D L : Type 0) : Type 0 where
  pub ev_start : (watcher : ℕ) → Event D → L → L
  pub ev_stop : (watcher : ℕ) → L → L
  pub ev_loop : (nonblock : Bool) → L → L
  pub pop : L → Option (ℕ × L)
  pub adjusted : (delay : D) → L → D
  pub no_repeat : D

-- `struct ev_io` and `struct ev_timer` as far as the stubs use them; `C` are the callbacks.
pub record Watcher (C D : Type 0) : Type 0 where
  pub event : Event D
  pub data_ : C

-- The blocks in use, the registered roots, and the loop.
pub record State (C D L : Type 0) : Type 0 where
  pub watchers : List (ℕ × Watcher C D)
  pub roots : List ℕ
  pub loop : L

module _ {C D : Type 0} where
  unfoldable pub lookup : (watcher : ℕ) → List (ℕ × Watcher C D) → Option (Watcher C D)
  lookup watcher [] = none
  lookup watcher ((a, w) ∷ rest) =
      let found = lookup watcher rest in if watcher == a then some w else found

  -- `free(watcher)`
  unfoldable pub free_watcher : (watcher : ℕ) → List (ℕ × Watcher C D) → List (ℕ × Watcher C D)
  free_watcher watcher [] = []
  free_watcher watcher ((a, w) ∷ rest) =
      let others = free_watcher watcher rest in if watcher == a then rest else (a, w) ∷ others

-- `caml_remove_generational_global_root`
unfoldable pub remove_root : ℕ → List ℕ → List ℕ
remove_root root [] = []
remove_root root (a ∷ rest) =
    let others = remove_root root rest in if root == a then rest else a ∷ others

-- A call of one of the stubs on watchers; `at` is the address of the new block.
pub data Op (C D : Type 0) : Type 0 where
  readable_init writable_init : (at : ℕ) (fd : ℤ) (callback : C) → Op C D
  timer_init : (at : ℕ) (delay : D) (repeat : Bool) (callback : C) → Op C D
  io_stop timer_stop : (watcher : ℕ) → Op C D

module _ {C D L : Type 0} (ev : Libev D L) where
  -- The lines that `lwt_libev_io_init` and `lwt_libev_timer_init` share.
  abbrev watch : (at : ℕ) → Event D → C → State C D L → State C D L
  watch at event callback s = record {
    watchers = (at, record { event = event; data_ = callback }) ∷ s.watchers;
    roots = at ∷ s.roots;
    loop = ev.ev_start at event s.loop;
  }

  unfoldable pub lwt_libev_io_init : (at : ℕ) → Event D → C → State C D L → State C D L
  lwt_libev_io_init at event callback s = watch at event callback s

  unfoldable pub lwt_libev_timer_init :
      (at : ℕ) (delay : D) (repeat : Bool) → C → State C D L → State C D L
  lwt_libev_timer_init at delay repeat callback s =
      let adjusted_delay = ev.adjusted delay s.loop in
      watch at (ev_timer adjusted_delay (if repeat then delay else ev.no_repeat)) callback s

  -- `lwt_libev_io_stop` and `lwt_libev_timer_stop`, which differ in the type of the watcher.
  unfoldable pub stop : (watcher : ℕ) → State C D L → Option (State C D L)
  stop watcher s = elim (lookup watcher s.watchers) [
    | none ↦ none
    | some w ↦ some (record {
      watchers = free_watcher watcher s.watchers;
      roots = remove_root watcher s.roots;
      loop = ev.ev_stop watcher s.loop;
    })
  ]

  unfoldable pub do_op : Op C D → State C D L → Option (State C D L)
  do_op (readable_init at fd c) s = some (lwt_libev_io_init at (ev_read fd) c s)
  do_op (writable_init at fd c) s = some (lwt_libev_io_init at (ev_write fd) c s)
  do_op (timer_init at delay repeat c) s = some (lwt_libev_timer_init at delay repeat c s)
  do_op (io_stop watcher) s = stop watcher s
  do_op (timer_stop watcher) s = stop watcher s

  unfoldable pub do_ops : List (Op C D) → State C D L → Option (State C D L)
  do_ops [] s = some s
  do_ops (op ∷ ops) s = elim (do_op op s) [ none ↦ none | some s' ↦ do_ops ops s' ]

  module _ (does : C → State C D L → List (Op C D)) where
    -- `ev_invoke_pending` with `handle_io` and `handle_timer`, which call the watcher's callback; what
    -- that does, in OCaml, is a list of calls of the stubs. Fuel is the number of watchers.
    unfoldable pub invoke_pending : (fuel : ℕ) → State C D L → Option (State C D L)
    invoke_pending zero s = none
    invoke_pending (suc fuel) s = elim (ev.pop s.loop) [
      | none ↦ some s
      | some (watcher, loop) ↦ elim (lookup watcher s.watchers) [
        | none ↦ none
        | some w ↦
            let s1 = record s { loop = loop } in
            elim (do_ops (does w.data_ s1) s1) [ none ↦ none | some s2 ↦ invoke_pending fuel s2 ]
      ]
    ]

    -- Nothing is invoked by `ev_loop` itself, since its callback is `nop`.
    unfoldable pub lwt_libev_loop : (fuel : ℕ) (block : Bool) → State C D L → Option (State C D L)
    lwt_libev_loop fuel block s =
        invoke_pending fuel (record s { loop = ev.ev_loop (not block) s.loop })
