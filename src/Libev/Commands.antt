-- ===== src/Libev/Commands.antt =====
-- Sequences of calls of the stubs of src/unix/lwt_libev_stubs.c.
use Prim.Native.Nat.{bit_or}
use lwt.Base.{
  ℕ, ◌<◌, Bool, not, List, [], ◌∷◌, Option, none, some, Option-cases, inl, inr, ◌≡◌, refl, subst,
  Outcome, returned, raised, fault,
}
use lwt.Libev.{Libev, State, Op, do_op, lwt_libev_loop}
use lwt.Libev.Backend.{Backend, Flags, backend_val, lwt_libev_init}
use lwt.Libev.Engine.{
  EvLaws, Good, addresses, ValidOp, Behaves, Finishes, op-Follows, loop-Finishes,
}

-- What OCaml's engine calls: a stub on a watcher, or a round of the loop with some fuel.
pub data Command (C D : Type 0) : Type 0 where
  call : Op C D → Command C D
  round : (fuel : ℕ) (block : Bool) → Command C D

module _ {C D L : Type 0} (ev : Libev D L) (laws : EvLaws ev)
    (does : C → State C D L → List (Op C D)) where
  abbrev pub command : Command C D → State C D L → Option (State C D L)
  command (call op) s = do_op ev op s
  command (round fuel block) s = lwt_libev_loop ev does fuel block s

  unfoldable pub commands : List (Command C D) → State C D L → Option (State C D L)
  commands [] s = some s
  commands (c ∷ cs) s = elim (command c s) [ none ↦ none | some s' ↦ commands cs s' ]

  abbrev pub ValidCommand : Command C D → State C D L → Type 0
  ValidCommand (call op) s = ValidOp ev laws op s
  ValidCommand (round fuel block) s = laws.pending (ev.ev_loop (not block) s.loop) < fuel

  abbrev pub ValidCommands : List (Command C D) → State C D L → Type 0
  ValidCommands [] s = Unit {0}
  ValidCommands (c ∷ cs) s =
      ValidCommand c s × ((s' : State C D L) → command c s ≡ some s' → ValidCommands cs s')

  module _ (behaves : Behaves ev laws does) where
    command-Good :
        (c : Command C D) (s : State C D L)
        → Good ev laws s
        → ValidCommand c s
        → (s' : State C D L) × Good ev laws s' × (command c s ≡ some s')
    command-Good (call op) s good v =
        let (s', good', fewer, made) = op-Follows ev laws op s good v in (s', good', made)
    command-Good (round fuel block) s good v =
        let (s', good', empty, made) = loop-Finishes ev laws does behaves fuel block s good v in
        (s', good', made)

    commands-Good :
        (cs : List (Command C D)) (s : State C D L)
        → Good ev laws s
        → ValidCommands cs s
        → (s' : State C D L) × Good ev laws s' × (commands cs s ≡ some s')
    unfolding commands
    commands-Good [] s good v = (s, good, refl)
    commands-Good (c ∷ cs) s good (v, vs) =
        let (s1, good1, made1) = command-Good c s good v in
        let (s2, good2, made2) = commands-Good cs s1 good1 (vs s1 made1) in
        (s2, good2, rw (made1, commands) made2)

-- What an engine does after some commands: the commands end in a good state, from which every round
-- with enough fuel ends in a good state with nothing left to invoke.
abbrev pub Runs :
    {C D L : Type 0} (ev : Libev D L)
    → EvLaws ev
    → (C → State C D L → List (Op C D))
    → List (Command C D)
    → State C D L
    → Type 0
Runs {C} {D} {L} ev laws does cs start =
    (s : State C D L) × Good ev laws s
    × (commands ev laws does cs start ≡ some s)
    × ((fuel : ℕ) (block : Bool)
        → laws.pending (ev.ev_loop (not block) s.loop) < fuel
        → Finishes ev laws (lwt_libev_loop ev does fuel block s))

abbrev Rooted : {C D L : Type 0} → Outcome (State C D L) → Type 0
Rooted (returned s) = s.roots ≡ addresses s.watchers
Rooted (raised e) = Unit
Rooted fault = Unit

init-Rooted :
    (C D : Type 0) {L : Type 0} (flags : Flags) (ev_loop_new : ℕ → Option L) (backend : Backend)
    → Rooted {C = C} {D = D} (lwt_libev_init flags ev_loop_new backend)
unfolding lwt_libev_init
init-Rooted C D flags ev_loop_new backend =
    elim (Option-cases (ev_loop_new (bit_or flags.forkcheck (backend_val flags backend)))) [
      | inl e ↦ rw (e, lwt_libev_init) tt
      | inr (l, e) ↦ rw (e, lwt_libev_init) refl
    ]

-- After any sequence of calls of the stubs on watchers and of rounds of the loop, from
-- `lwt_libev_init` on: no watcher that was freed has been read, the roots registered with the
-- garbage collector are those of the watchers in use, and these include all that the loop may still
-- invoke; and from there every round with more fuel than it has watchers to invoke ends, with
-- nothing left to invoke. Conditions: libev keeps the laws of `EvLaws`, its new loop knows no
-- watcher, a watcher is stopped only while in use, by the callbacks as well, and each round in the
-- sequence has such fuel.
pub engine-Runs :
    {C D L : Type 0} (ev : Libev D L) (laws : EvLaws ev) (does : C → State C D L → List (Op C D))
    (flags : Flags) (ev_loop_new : ℕ → Option L) (backend : Backend) (start : State C D L)
    (cs : List (Command C D))
    → lwt_libev_init flags ev_loop_new backend ≡ returned start
    → ((x : ℕ) → ¬ (laws.Known x start.loop))
    → Behaves ev laws does
    → ValidCommands ev laws does cs start
    → Runs ev laws does cs start
unfolding lwt_libev_init
engine-Runs ev laws does flags ev_loop_new backend start cs made none_known behaves v =
    let (s, good, done) =
      commands-Good ev laws does behaves cs start
        (
          subst Rooted made (init-Rooted _ _ flags ev_loop_new backend),
          λ x k. absurd (none_known x k),
        )
        v in
    (s, good, done, λ fuel block h. loop-Finishes ev laws does behaves fuel block s good h)
