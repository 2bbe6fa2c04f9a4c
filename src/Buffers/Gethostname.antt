-- ===== src/Buffers/Gethostname.antt =====
-- What the job of src/unix/unix_c/unix_gethostname_job.c returns, and that its loop ends.
use lwt.Base.{
  ℕ, zero, suc, List, true, false, lt→ltb, ◌*◌, ◌-◌, ◌^◌, ◌≤◌, ◌<◌, [], ◌∷◌, replicate, Option,
  none, some, pos, length, ltb, Bool-cases, ltb→lt, inl, inr, ◌⊎◌, ◌++◌, ==_refl, ne→==, ◌≡◌, refl,
  arith, unix_error, Outcome, returned, raised, minus_one,
}
use lwt.Heap.{Heap, Holds, lwt_malloc, free}
use lwt.Calls.{Bytes, new, string_val}
use lwt.Calls.Strings.{cut, c_string-cut}
use lwt.Buffers.Doubling.{doubled_first, doubled_le}
use lwt.Buffers.{
  kept, failed, ended, Answer, Job, State, int_limit, started, worker_gethostname,
  result_gethostname, gethostname_job,
}

-- What the system answers to a buffer of some size: always this error; or its name with a zero, if that
-- fits, and else the error that asks for more room.
abbrev pub Names : (enametoolong size : ℕ) → Answer → ℕ ⊎ Bytes → Type 0
Names enametoolong size a (inl e) = (a.value ≡ minus_one) × (a.errno ≡ e) × ¬ (e ≡ enametoolong)
Names enametoolong size a (inr host) =
    (length host < size → (a.value ≡ pos 0) × (a.written ≡ string_val host))
    × (size ≤ length host → (a.value ≡ minus_one) × (a.errno ≡ enametoolong))

abbrev pub needs : ℕ ⊎ Bytes → ℕ
needs (inl e) = 0
needs (inr host) = length host

abbrev new_job : Job
new_job = new (record { name = 0; buffer = []; live = false })

module _ (free_errno : ℕ → ℕ) (enametoolong : ℕ) (gethostname : (size : ℕ) → Answer) where
  abbrev pub host_value : ℕ ⊎ Bytes → Outcome Bytes
  host_value (inl e) = raised (unix_error (free_errno e) "gethostname" "")
  host_value (inr host) = returned (cut host)

  -- The job has ended: with this result, freed, and with no block more in use than in `heap`.
  abbrev pub Ended : Heap → Outcome Bytes → Option State → Type 0
  Ended heap v o =
      (s : State) × (o ≡ some s)
      × ((result_gethostname s.job s.heap).0.0 ≡ v)
      × ((result_gethostname s.job s.heap).0.1.freed ≡ true)
      × Holds 0 heap (result_gethostname s.job s.heap).1

  module _ (job : Job) (fresh : job.freed ≡ false) (start : Heap) (host : Bytes)
      (names : (size : ℕ) → Names enametoolong size (gethostname size) (inr host)) where
    abbrev run : (fuel size : ℕ) → Heap → Option State
    run fuel size heap = worker_gethostname free_errno enametoolong gethostname fuel size job heap

    -- What is in the buffer behind the name.
    abbrev rest : (size : ℕ) → List (Option ℕ)
    rest size = replicate (size - length (string_val host)) none ++ some 0 ∷ []

    fits :
        (k size : ℕ) (heap : Heap)
        → Holds 0 start heap
        → length host < size
        → Ended start (returned (cut host)) (run (suc k) size heap)
    unfolding worker_gethostname result_gethostname
    fits k size heap held h =
        let a = (names size).0 h in
        (
          kept job (ended free_errno (string_val host) size) (pos 0) (lwt_malloc heap),
          rw (a.0, a.1, worker_gethostname),
          ground (arith, fresh, c_string-cut host (rest size)),
          ground (arith, fresh, c_string-cut host (rest size)),
          omega arith,
        )

    again :
        (k size : ℕ) (heap : Heap)
        → size ≤ length host
        → size * 2 < int_limit
        → run (suc k) size heap ≡ run k (size * 2) (free (lwt_malloc heap))
    unfolding worker_gethostname
    again k size heap h room =
        let a = (names size).1 h in
        rw (a.0, a.1, ==_refl enametoolong, lt→ltb _ _ room, worker_gethostname)

    from :
        (k size : ℕ) (heap : Heap)
        → Holds 0 start heap
        → length host < size * 2 ^ k
        → size * 2 ^ k < int_limit
        → Ended start (returned (cut host)) (run (suc k) size heap)
    from zero size heap held h room = fits zero size heap held (omega arith)
    from (suc k) size heap held h room = elim (Bool-cases (ltb (length host) size)) [
      | inl e ↦ fits (suc k) size heap held (ltb→lt _ _ e)
      | inr e ↦
          let step = doubled_first size k in
          let below = doubled_le (size * 2) k in
          rw (again (suc k) size heap (ground arith) (omega (arith, step, below, room))) (
            from k (size * 2) (free (lwt_malloc heap)) (omega arith) (omega (arith, step, h))
              (omega (arith, step, room)))
    ]

  -- The job for gethostname, by what the system answers.
  pub gethostname_ends :
      (host : ℕ ⊎ Bytes) (k : ℕ) (heap : Heap)
      → ((size : ℕ) → Names enametoolong size (gethostname size) host)
      → needs host < 64 * 2 ^ k
      → 64 * 2 ^ k < int_limit
      → Ended heap (host_value host) (
          started gethostname_job
            (worker_gethostname free_errno enametoolong gethostname (suc k) 64)
            heap)
  unfolding gethostname_job worker_gethostname result_gethostname
  gethostname_ends (inr host) k heap names h room =
      from new_job refl heap host names k 64 heap (omega arith) h room
  gethostname_ends (inl errno) k heap names h room =
      let a = names 64 in
      (
        failed free_errno new_job errno (lwt_malloc heap),
        rw (a.0, a.1, ne→== errno enametoolong a.2, worker_gethostname),
        refl,
        refl,
        omega arith,
      )
