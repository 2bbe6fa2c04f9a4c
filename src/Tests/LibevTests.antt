-- ===== src/Tests/LibevTests.antt =====
-- A loop of src/unix/lwt_libev_stubs.c over a small event library, in which each round makes all its
-- watchers ready.
use lwt.Base.{
  ℕ, ◌≤◌, ◌<◌, true, false, List, [], ◌∷◌, length, Option, none, some, pos, ◌==◌, if◌then◌else◌,
  ◌≡◌, ◌≢◌, ◌⊎◌, inl, inr, refl, arith, Bool-cases, Option-cases, subst, returned,
}
use lwt.Libev.{
  Libev, Watcher, State, Op, readable_init, timer_init, io_stop, lookup, do_op, do_ops,
  invoke_pending, lwt_libev_loop, lwt_libev_io_init, lwt_libev_timer_init, stop, free_watcher,
  remove_root,
}
use lwt.Libev.Backend.{Flags, evbackend_epoll, lwt_libev_init}
use lwt.Libev.Engine.{EvLaws, Behaves}
use lwt.Libev.Commands.{Command, call, round, Runs, commands, engine-Runs}

record Queue : Type 0 where
  active : List ℕ
  ready : List ℕ

abbrev IsIn : ℕ → List ℕ → Type 0
IsIn x [] = ⊥
IsIn x (a ∷ l) = (x ≡ a) ⊎ IsIn x l

without : ℕ → List ℕ → List ℕ
without a [] = []
without a (b ∷ l) = let rest = without a l in if a == b then rest else b ∷ rest

without-IsIn : (a x : ℕ) (l : List ℕ) → IsIn x (without a l) → (x ≢ a) × IsIn x l
unfolding without
without-IsIn a x [] h = absurd h
without-IsIn a x (b ∷ l) h = elim (Bool-cases (a == b)) [
  | inl same ↦
      let (other, found) = without-IsIn a x l (rw (same, without) at h) in (other, inr found)
  | inr different ↦ elim (rw (different, without) at h) [
    | inl here ↦ ((λ e. ground arith), inl here)
    | inr there ↦ let (other, found) = without-IsIn a x l there in (other, inr found)
  ]
]

without-length : (a : ℕ) (l : List ℕ) → length (without a l) ≤ length l
unfolding without
without-length a [] = omega arith
without-length a (b ∷ l) = ground (arith, without-length a l)

abbrev pop_of : (active ready : List ℕ) → Option (ℕ × Queue)
pop_of active [] = none
pop_of active (a ∷ ready) = some (a, record { active = active; ready = ready })

abbrev small : Libev ℕ Queue
small = record {
  ev_start = λ a v q. record q { active = a ∷ q.active };
  ev_stop = λ a q. record { active = without a q.active; ready = without a q.ready };
  ev_loop = λ b q. record q { ready = q.active };
  pop = λ q. pop_of q.active q.ready;
  adjusted = λ delay q. delay;
  no_repeat = 0;
}

abbrev Known : ℕ → Queue → Type 0
Known x q = IsIn x q.active ⊎ IsIn x q.ready

start_known :
    (a x : ℕ) (q : Queue) → ((x ≡ a) ⊎ IsIn x q.active) ⊎ IsIn x q.ready → (x ≡ a) ⊎ Known x q
start_known a x q (inl (inl e)) = inl e
start_known a x q (inl (inr h)) = inr (inl h)
start_known a x q (inr h) = inr (inr h)

stop_known :
    (a x : ℕ) (q : Queue)
    → IsIn x (without a q.active) ⊎ IsIn x (without a q.ready)
    → (x ≢ a) × Known x q
stop_known a x q (inl h) = let (other, found) = without-IsIn a x q.active h in (other, inl found)
stop_known a x q (inr h) = let (other, found) = without-IsIn a x q.ready h in (other, inr found)

both : (x : ℕ) (q : Queue) → IsIn x q.active ⊎ IsIn x q.active → Known x q
both x q (inl h) = inl h
both x q (inr h) = inl h

pop_none : (active ready : List ℕ) → pop_of active ready ≡ none → length ready ≡ 0
pop_none active [] e = refl
pop_none active (a ∷ ready) e = absurd (cc e)

abbrev Popped : Queue → Option (ℕ × Queue) → Type 0
Popped q none = Unit {0}
Popped q (some (a, q')) =
    Known a q × (length q'.ready < length q.ready) × ((x : ℕ) → Known x q' → Known x q)

popped :
    (active ready : List ℕ)
    → Popped (record { active = active; ready = ready }) (pop_of active ready)
popped active [] = tt
popped active (a ∷ ready) = (inr (inl refl), omega arith, λ x h. later x h)
  where
    later : (x : ℕ) → IsIn x active ⊎ IsIn x ready → IsIn x active ⊎ ((x ≡ a) ⊎ IsIn x ready)
    later x (inl h) = inl h
    later x (inr h) = inr (inr h)

abbrev small_laws : EvLaws small
small_laws = record {
  Known = Known;
  pending = λ q. length q.ready;
  start_known = λ a v q x h. start_known a x q h;
  start_pending = λ a v q. omega arith;
  stop_known = λ a q x h. stop_known a x q h;
  stop_pending = λ a q. without-length a q.ready;
  loop_known = λ b q x h. both x q h;
  pop_none = λ q e. pop_none q.active q.ready e;
  pop_known = λ q q' a e. subst (Popped q) e (popped q.active q.ready);
}

-- A callback is named by its watcher, which it stops.
abbrev stops : Option (Watcher ℕ ℕ) → ℕ → List (Op ℕ ℕ)
stops none c = []
stops (some w) c = io_stop c ∷ []

abbrev stops_itself : ℕ → State ℕ ℕ Queue → List (Op ℕ ℕ)
stops_itself c s = stops (lookup c s.watchers) c

behaves : Behaves small small_laws stops_itself
behaves c s good = elim (Option-cases (lookup c s.watchers)) [
  | inl e ↦ rw e tt
  | inr (w, e) ↦ rw e ((w, e), λ s' made. tt)
]

abbrev linux_flags : Flags
linux_flags = record {
  forkcheck = 33554432;
  select = 1;
  poll = 2;
  epoll = 4;
  kqueue = 8;
  devpoll = 16;
  port = 32;
}

abbrev start : State ℕ ℕ Queue
start = record { watchers = []; roots = []; loop = record { active = []; ready = [] } }

abbrev loop_new : ℕ → Option Queue
loop_new flags = some (record { active = []; ready = [] })

none_known : (x : ℕ) → ¬ (Known x start.loop)
none_known x (inl h) = h
none_known x (inr h) = h

-- A round of an empty loop, then a reader and a timer, each of which stops itself.
abbrev two_watchers : List (Command ℕ ℕ)
two_watchers =
    round 1 false ∷ call (readable_init 10 (pos 3) 10) ∷ call (timer_init 20 5 true 20) ∷ []

started : lwt_libev_init linux_flags loop_new evbackend_epoll ≡ returned start
unfolding lwt_libev_init
started = refl

engine-Runs_example : Runs small small_laws stops_itself two_watchers start
engine-Runs_example =
    engine-Runs small small_laws stops_itself linux_flags loop_new evbackend_epoll start
      two_watchers started none_known behaves
      (omega arith, λ s e. (tt, λ s' e'. (tt, λ s'' e''. tt)))

-- Both have stopped themselves in the round, and are freed.
all_stopped :
    commands small small_laws stops_itself
      (call (readable_init 10 (pos 3) 10) ∷ call (timer_init 20 5 true 20) ∷ round 3 true ∷ [])
      start
    ≡ some start
unfolding commands do_op do_ops lwt_libev_io_init lwt_libev_timer_init lwt_libev_loop invoke_pending
    lookup stop free_watcher remove_root without
all_stopped = refl
