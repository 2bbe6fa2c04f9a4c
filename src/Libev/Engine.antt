-- ===== src/Libev/Engine.antt =====
-- The watchers of src/unix/lwt_libev_stubs.c over any sequence of calls and rounds of the loop.
use lwt.Base.{
  ℕ, zero, suc, ◌≤◌, ◌<◌, Bool, not, List, [], ◌∷◌, map, Option, none, some, ◌==◌, ◌≡◌, ◌≢◌, ◌⊎◌,
  inl, inr, refl, ap, ◌∙◌, arith, Bool-cases, Option-cases, ne→==,
}
use lwt.Libev.{
  Event, Libev, Watcher, State, Op, readable_init, writable_init, timer_init, io_stop, timer_stop,
  lookup, free_watcher, remove_root, lwt_libev_io_init, lwt_libev_timer_init, stop, do_op, do_ops,
  invoke_pending, lwt_libev_loop,
}

-- What ev(3) documents. `Known` are the watchers that the loop may still invoke, and `pending` is how
-- many it has to invoke now.
pub record EvLaws {D L : Type 0} (ev : Libev D L) : Type 1 where
  pub Known : ℕ → L → Type 0
  pub pending : L → ℕ
  pub start_known :
      (a : ℕ) (v : Event D) (l : L) (x : ℕ) → Known x (ev.ev_start a v l) → (x ≡ a) ⊎ Known x l
  pub start_pending : (a : ℕ) (v : Event D) (l : L) → pending (ev.ev_start a v l) ≤ pending l
  pub stop_known : (a : ℕ) (l : L) (x : ℕ) → Known x (ev.ev_stop a l) → (x ≢ a) × Known x l
  pub stop_pending : (a : ℕ) (l : L) → pending (ev.ev_stop a l) ≤ pending l
  pub loop_known : (b : Bool) (l : L) (x : ℕ) → Known x (ev.ev_loop b l) → Known x l
  pub pop_none : (l : L) → ev.pop l ≡ none → pending l ≡ 0
  pub pop_known :
      (l l' : L) (a : ℕ)
      → ev.pop l ≡ some (a, l')
      → Known a l × (pending l' < pending l) × ((x : ℕ) → Known x l' → Known x l)

module _ {C D : Type 0} where
  abbrev pub Live : ℕ → List (ℕ × Watcher C D) → Type 0
  Live x ws = (w : Watcher C D) × (lookup x ws ≡ some w)

  abbrev pub addresses : List (ℕ × Watcher C D) → List ℕ
  addresses ws = map (λ e. e.0) ws

  lookup-same :
      (a : ℕ) (w : Watcher C D) (ws : List (ℕ × Watcher C D)) → lookup a ((a, w) ∷ ws) ≡ some w
  unfolding lookup
  lookup-same a w ws = ground arith

  lookup-other :
      (x a : ℕ) (w : Watcher C D) (ws : List (ℕ × Watcher C D))
      → x ≢ a
      → lookup x ((a, w) ∷ ws) ≡ lookup x ws
  unfolding lookup
  lookup-other x a w ws h = rw (ne→== x a h, lookup) refl

  cons-Live :
      (x a : ℕ) (w : Watcher C D) (ws : List (ℕ × Watcher C D)) → Live x ws → Live x ((a, w) ∷ ws)
  unfolding lookup
  cons-Live x a w ws (u, e) = elim (Bool-cases (x == a)) [
    | inl same ↦ (w, rw (same, lookup) refl)
    | inr other ↦ (u, rw (other, lookup) e)
  ]

  lookup-free :
      (x a : ℕ) (ws : List (ℕ × Watcher C D)) → x ≢ a → lookup x (free_watcher a ws) ≡ lookup x ws
  unfolding lookup free_watcher
  lookup-free x a [] h = refl
  lookup-free x a ((b, u) ∷ ws) h = ground (arith, lookup-free x a ws h, h)

  free-addresses :
      (a : ℕ) (ws : List (ℕ × Watcher C D))
      → remove_root a (addresses ws) ≡ addresses (free_watcher a ws)
  unfolding remove_root free_watcher
  free-addresses a [] = refl
  free-addresses a ((b, u) ∷ ws) = ground (arith, free-addresses a ws)

module _ {C D L : Type 0} (ev : Libev D L) (laws : EvLaws ev) where
  -- The loop only invokes watchers that are in use, and the callbacks of these, and no others, are
  -- registered as roots.
  abbrev pub Good : State C D L → Type 0
  Good s = (s.roots ≡ addresses s.watchers) × ((x : ℕ) → laws.Known x s.loop → Live x s.watchers)

  -- A call of OCaml's engine: it stops a watcher that it has started, once.
  abbrev pub ValidOp : Op C D → State C D L → Type 0
  ValidOp (readable_init at fd c) s = Unit {0}
  ValidOp (writable_init at fd c) s = Unit {0}
  ValidOp (timer_init at delay repeat c) s = Unit {0}
  ValidOp (io_stop a) s = Live a s.watchers
  ValidOp (timer_stop a) s = Live a s.watchers

  abbrev pub Valid : List (Op C D) → State C D L → Type 0
  Valid [] s = Unit {0}
  Valid (op ∷ ops) s = ValidOp op s × ((s' : State C D L) → do_op ev op s ≡ some s' → Valid ops s')

  -- A state that follows on another, with no more watchers to invoke.
  abbrev pub Follows : State C D L → Option (State C D L) → Type 0
  Follows s r =
      (s' : State C D L) × Good s' × (laws.pending s'.loop ≤ laws.pending s.loop) × (r ≡ some s')

  watched :
      (at : ℕ) (event : Event D) (c : C) (s : State C D L)
      → Good s
      → Follows s (some (lwt_libev_io_init ev at event c s))
  unfolding lwt_libev_io_init
  watched at event c s (roots, live) =
      let w : Watcher C D = record { event = event; data_ = c } in
      (
        lwt_libev_io_init ev at event c s,
        (
          ap (λ r. at ∷ r) roots,
          λ x known. elim (laws.start_known at event s.loop x known) [
            | inl same ↦ rw same (w, lookup-same at w s.watchers)
            | inr before ↦ cons-Live x at w s.watchers (live x before)
          ],
        ),
        laws.start_pending at event s.loop,
        refl,
      )

  stopped : (a : ℕ) (s : State C D L) → Good s → Live a s.watchers → Follows s (stop ev a s)
  unfolding stop
  stopped a s (roots, live) (w, e) = (
    record {
      watchers = free_watcher a s.watchers;
      roots = remove_root a s.roots;
      loop = ev.ev_stop a s.loop;
    },
    (
      rw roots (free-addresses a s.watchers),
      λ x known.
          let (other, before) = laws.stop_known a s.loop x known in
          let (u, found) = live x before in (u, lookup-free x a s.watchers other ∙ found),
    ),
    laws.stop_pending a s.loop,
    rw (e, stop) refl,
  )

  pub op-Follows :
      (op : Op C D) (s : State C D L) → Good s → ValidOp op s → Follows s (do_op ev op s)
  unfolding do_op lwt_libev_timer_init lwt_libev_io_init
  op-Follows (readable_init at fd c) s good v = watched at _ c s good
  op-Follows (writable_init at fd c) s good v = watched at _ c s good
  op-Follows (timer_init at delay repeat c) s good v = watched at _ c s good
  op-Follows (io_stop a) s good v = stopped a s good v
  op-Follows (timer_stop a) s good v = stopped a s good v

  ops-Follows :
      (ops : List (Op C D)) (s : State C D L) → Good s → Valid ops s → Follows s (do_ops ev ops s)
  unfolding do_ops
  ops-Follows [] s good v = (s, good, omega arith, refl)
  ops-Follows (op ∷ ops) s good (v, vs) =
      let (s1, good1, fewer1, made1) = op-Follows op s good v in
      let (s2, good2, fewer2, made2) = ops-Follows ops s1 good1 (vs s1 made1) in
      (s2, good2, omega arith, rw (made1, do_ops) made2)

  -- Whenever a callback is called, it makes valid calls.
  abbrev pub Behaves : (C → State C D L → List (Op C D)) → Type 0
  Behaves does = (c : C) (s : State C D L) → Good s → Valid (does c s) s

  -- A round of the loop: nothing is left to invoke.
  abbrev pub Finishes : Option (State C D L) → Type 0
  Finishes r = (s' : State C D L) × Good s' × (laws.pending s'.loop ≡ 0) × (r ≡ some s')

  module _ (does : C → State C D L → List (Op C D)) (behaves : Behaves does) where
    invoke-Finishes :
        (fuel : ℕ) (s : State C D L)
        → Good s
        → laws.pending s.loop < fuel
        → Finishes (invoke_pending ev does fuel s)
    unfolding invoke_pending
    invoke-Finishes zero s good h = absurd (omega arith)
    invoke-Finishes (suc fuel) s (roots, live) h = elim (Option-cases (ev.pop s.loop)) [
      | inl e ↦ (s, (roots, live), laws.pop_none s.loop e, rw (e, invoke_pending) refl)
      | inr ((a, l), e) ↦
          let (known, fewer, before) = laws.pop_known s.loop l a e in
          let (w, found) = live a known in
          let s1 : State C D L = record s { loop = l } in
          let good1 : Good s1 = (roots, λ x k. live x (before x k)) in
          let (s2, good2, fewer2, made) =
            ops-Follows (does w.data_ s1) s1 good1 (behaves w.data_ s1 good1) in
          let (s3, good3, empty, done) = invoke-Finishes fuel s2 good2 (omega arith) in
          (s3, good3, empty, rw (e, found, made, invoke_pending) done)
    ]

    -- The watchers that one round has to invoke.
    abbrev pub to_invoke : (block : Bool) → State C D L → ℕ
    to_invoke block s = laws.pending (ev.ev_loop (not block) s.loop)

    pub loop-Finishes :
        (fuel : ℕ) (block : Bool) (s : State C D L)
        → Good s
        → to_invoke block s < fuel
        → Finishes (lwt_libev_loop ev does fuel block s)
    unfolding lwt_libev_loop
    loop-Finishes fuel block s (roots, live) h =
        invoke-Finishes fuel (record s { loop = ev.ev_loop (not block) s.loop })
          (roots, λ x k. live x (laws.loop_known (not block) s.loop x k)) h
