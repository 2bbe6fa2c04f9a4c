-- ===== src/Lookup/Laws.antt =====
-- The loops of `JOB_GET_ENTRY` (src/unix/unix_c/unix_get_pw_gr_nam_id_job.c) and `JOB_GET_ENTRY2`
-- (unix_getprotoby_getservby_job.c): at which buffer size they end.
use native.Mathlib.Nat.{pow-succ', mul_assoc, mul-one}
use lwt.Base.{
  ℕ, zero, suc, ◌+◌, ◌*◌, ◌^◌, ◌≤◌, ◌<◌, if◌then◌else◌, Option, none, some, ltb, ltb→lt, le→ltb,
  ◌==◌, ==_iff, ne→==, ==_refl, eq→==, inl, inr, Bool-cases, ◌≡◌, ◌∙◌, ap, arith,
}
use lwt.Calls.{CallJob}
use lwt.Lookup.{EntryArgs, Lookup, answered, without_buffer, doubling, adding}

module _ {K E : Type 0} where
  -- A buffer that was freed again leaves no trace.
  pub answered_again :
      (a b : ℕ × Option E) (job : CallJob (EntryArgs K E))
      → answered b (without_buffer (answered a job)) ≡ answered b job
  answered_again a b job = ground arith

-- The last size that `JOB_GET_ENTRY` tries, and its sizes.
abbrev pub Last : ℕ → Type 0
Last size = 2 ^ 20 < size * 2

abbrev pub doubled : ℕ → ℕ → ℕ
doubled size i = size * 2 ^ i

doubled-suc : (size i : ℕ) → doubled (size * 2) i ≡ doubled size (suc i)
doubled-suc size i = rw (pow-succ' 2 i, ← mul_assoc size 2 (2 ^ i))

module _ {E : Type 0} (erange : ℕ) (func : Lookup E) where
  -- A loop that tries the sizes `at 0`, `at 1` and so on has ended at `at i`, the first whose answer is
  -- not `ERANGE`; or at the last below the limit, if there is one, when none is.
  abbrev pub EndsAt : (limited : ℕ → Type 0) (at : ℕ → ℕ) (i : ℕ) → Type 0
  EndsAt limited at i =
      ((j : ℕ) → j < i → (func (at j)).0 ≡ erange) × ((func (at i)).0 ≡ erange → limited (at i))

  module _ {K : Type 0} where
    stop :
        (k size : ℕ) (job : CallJob (EntryArgs K E))
        → ((func size).0 ≡ erange → Last size)
        → doubling erange func (suc k) size job ≡ some (answered (func size) job)
    unfolding doubling
    stop k size job h = ground (arith, h)

    go_on :
        (k size : ℕ) (job : CallJob (EntryArgs K E))
        → (func size).0 ≡ erange
        → size * 2 ≤ 2 ^ 20
        → doubling erange func (suc k) size job
          ≡ doubling erange func k (size * 2) (without_buffer (answered (func size) job))
    unfolding doubling
    go_on k size job e h = rw (eq→== _ _ e, le→ltb (2 ^ 20) (size * 2) h, doubling)

    -- The loop has ended.
    abbrev pub Stopped :
        (size : ℕ) → CallJob (EntryArgs K E) → Option (CallJob (EntryArgs K E)) → Type 0
    Stopped size job o =
        (i : ℕ) × (o ≡ some (answered (func (doubled size i)) job)) × EndsAt Last (doubled size) i

    stops_first :
        (size : ℕ) (job : CallJob (EntryArgs K E)) (o : Option (CallJob (EntryArgs K E)))
        → ((func size).0 ≡ erange → Last size)
        → o ≡ some (answered (func size) job)
        → Stopped size job o
    stops_first size job o h e =
        (0, rw (mul-one size) e, ((λ j lt. absurd (omega arith)), rw (mul-one size) h))

    stops_later :
        (size : ℕ) (job : CallJob (EntryArgs K E)) (o : Option (CallJob (EntryArgs K E)))
        → (func size).0 ≡ erange
        → Stopped (size * 2) (without_buffer (answered (func size) job)) o
        → Stopped size job o
    stops_later size job o e (i, made, (before, last)) =
        let shift = doubled-suc size in
        (
          suc i,
          rw (← shift i)
              (made ∙ ap some (answered_again (func size) (func (doubled (size * 2) i)) job)),
          (earlier, rw (← shift i) last),
        )
      where
        earlier : (j : ℕ) → j < suc i → (func (doubled size j)).0 ≡ erange
        earlier zero lt = rw (mul-one size) e
        earlier (suc j) lt = rw (← doubled-suc size j) (before j (omega arith))

    pub doubling_ends :
        (k size : ℕ) (job : CallJob (EntryArgs K E))
        → 2 ^ 20 < doubled size k
        → Stopped size job (doubling erange func (suc k) size job)
    doubling_ends zero size job h =
        let b = (rw (mul-one size) at h) in
        stops_first size job _ (λ e. omega arith) (stop zero size job (λ e. omega arith))
    doubling_ends (suc k) size job h = elim (Bool-cases ((func size).0 == erange)) [
      | inr e ↦
          (let no : (func size).0 ≡ erange → Last size = λ eq. absurd (ground arith) in
            stops_first size job _ no (stop (suc k) size job no))
      | inl e ↦ elim (Bool-cases (ltb (2 ^ 20) (size * 2))) [
        | inl big ↦
            (let yes : (func size).0 ≡ erange → Last size = λ _. ltb→lt (2 ^ 20) _ big in
              stops_first size job _ yes (stop (suc k) size job yes))
        | inr small ↦
            (let eq = (==_iff _ _).0 e in
              stops_later size job _ eq (
                rw (go_on (suc k) size job eq (ground arith))
                  (doubling_ends k (size * 2) _ (rw (doubled-suc size k) h))))
      ]
    ]

-- What `JOB_GET_ENTRY2` keeps of an answer.
abbrev pub kept : {K E : Type 0} → ℕ × Option E → CallJob (EntryArgs K E) → CallJob (EntryArgs K E)
kept a job =
    if a.0 == 0
    then answered a job
    else record (answered a job) { args = record (answered a job).args { ptr = none } }

abbrev pub added : ℕ → ℕ → ℕ
added size i = size + 1024 * i

-- No size is the last: `JOB_GET_ENTRY2` has no limit.
abbrev pub Never : ℕ → Type 0
Never size = ⊥

module _ {K E : Type 0} (erange need : ℕ) (func : Lookup E) where
  abbrev pub Settled :
      (size : ℕ) → CallJob (EntryArgs K E) → Option (CallJob (EntryArgs K E)) → Type 0
  Settled size job o =
      (i : ℕ) × (o ≡ some (kept (func (added size i)) job))
      × EndsAt erange func Never (added size) i

  settles_first :
      (k size : ℕ) (job : CallJob (EntryArgs K E))
      → ¬ ((func size).0 ≡ erange)
      → Settled size job (adding erange func (suc k) size job)
  unfolding adding
  settles_first k size job done =
      let e : added size 0 ≡ size = omega arith in
      (
        0,
        rw e (ground (arith, done)),
        ((λ j lt. absurd (omega arith)), rw e (λ eq. absurd (done eq))),
      )

  go_again :
      (k size : ℕ) (job : CallJob (EntryArgs K E))
      → ¬ (erange ≡ 0)
      → (func size).0 ≡ erange
      → adding erange func (suc k) size job
        ≡ adding erange func k (size + 1024) (without_buffer (answered (func size) job))
  unfolding adding
  go_again k size job e h = rw (h, ne→== erange 0 e, ==_refl erange, adding)

  kept_again :
      (a b : ℕ × Option E) (job : CallJob (EntryArgs K E))
      → kept b (without_buffer (answered a job)) ≡ kept b job
  kept_again a b job = ground arith

  settles_later :
      (size : ℕ) (job : CallJob (EntryArgs K E)) (o : Option (CallJob (EntryArgs K E)))
      → (func size).0 ≡ erange
      → Settled (size + 1024) (without_buffer (answered (func size) job)) o
      → Settled size job o
  settles_later size job o e (i, made, (before, last)) = (
    suc i,
    rw (← shift i) (made ∙ ap some (kept_again (func size) (func (added (size + 1024) i)) job)),
    (earlier, rw (← shift i) last),
  )
    where
      shift : (j : ℕ) → added (size + 1024) j ≡ added size (suc j)
      shift j = omega arith

      earlier : (j : ℕ) → j < suc i → (func (added size j)).0 ≡ erange
      earlier zero lt = (let z : added size 0 ≡ size = omega arith in rw z e)
      earlier (suc j) lt = rw (← shift j) (before j (omega arith))

  pub adding_ends :
      (k size : ℕ) (job : CallJob (EntryArgs K E))
      → ¬ (erange ≡ 0)
      → ((s : ℕ) → (func s).0 ≡ erange → s < need)
      → need ≤ added size k
      → Settled size job (adding erange func (suc k) size job)
  adding_ends zero size job e enough h =
      settles_first zero size job (λ eq. (let lt = enough size eq in absurd (omega arith)))
  adding_ends (suc k) size job e enough h = elim (Bool-cases ((func size).0 == erange)) [
    | inr done ↦ settles_first (suc k) size job (ground arith)
    | inl again ↦
        let eq = (==_iff _ _).0 again in
        settles_later size job _ eq (
          rw (go_again (suc k) size job e eq)
            (adding_ends k (size + 1024) _ e enough (omega arith)))
  ]
