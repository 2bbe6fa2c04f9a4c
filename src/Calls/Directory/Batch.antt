-- ===== src/Calls/Directory/Batch.antt =====
-- One directory read name by name (src/unix/unix_c/unix_readdir_job.c) and in batches
-- (src/unix/unix_c/unix_readdir_n_job.c).
use lwt.Base.{
  ℕ, zero, suc, ◌<◌, List, [], ◌∷◌, map, length, take_all, ◌≡◌, ◌⊎◌, inl, inr, refl, ap, arith, Exn,
  le→ltb, ne→==, end_of_file, unix_error, Outcome, returned, raised,
}
use lwt.Heap.{Heap, malloc, malloc_enough}
use lwt.Calls.{run, Ran}
use lwt.Readdir.{
  Name, Reading, entry, end_of_directory, error, State, worker_readdir_n, result_readdir_n,
}
use lwt.Readdir.Laws.{worker-Written}
use lwt.Calls.Directory.{Dir, worker_readdir, result_readdir, readdir_job}

-- `readdir` on the only stream of a system, which is what its calls find.
abbrev pub next : Dir → List Reading → Reading × List Reading
next dir [] = (end_of_directory, [])
next dir (r ∷ rest) = (r, rest)

-- One job, and one after the other.
abbrev pub single : Dir → List Reading → Ran Name (List Reading)
single dir readings = run (readdir_job dir) (worker_readdir next) result_readdir readings

unfoldable pub singles : Dir → ℕ → List Reading → List (Outcome Name) × List Reading
singles dir zero readings = ([], readings)
singles dir (suc n) readings =
    let r = single dir readings in let rest = singles dir n r.system in (r.value ∷ rest.0, rest.1)

abbrev stopped : (error_code : ℕ) → Outcome Name
stopped zero = raised end_of_file
stopped (suc e) = raised (unix_error (suc e) "readdir" "")

single-error :
    (dir : Dir) (c : ℕ) (readings : List Reading)
    → (single dir (error c ∷ readings)).value ≡ stopped (suc c)
unfolding worker_readdir result_readdir readdir_job
single-error dir c readings = rw (ne→== (suc c) 0 (λ z. omega arith), result_readdir) refl

-- What the worker of a batch has found, against the jobs of one name each.
abbrev Same : Dir → (count : ℕ) → List Reading → State → Type 0
Same dir count readings s =
    let one = singles dir (length s.job.entries) readings in
    (one.0 ≡ map returned s.job.entries)
    × (((length s.job.entries ≡ count) × (s.job.error_code ≡ 0) × (one.1 ≡ s.dir))
        ⊎ ((length s.job.entries < count)
            × ((single dir one.1).value ≡ stopped s.job.error_code)
            × ((single dir one.1).system ≡ s.dir)))

worker-Same :
    (dir : Dir) (enomem count i : ℕ) (readings : List Reading) (h : Heap)
    → h.script ≡ []
    → Same dir count readings (worker_readdir_n enomem count i readings h)
unfolding worker_readdir_n singles worker_readdir result_readdir readdir_job
worker-Same dir enomem zero i readings h e = (refl, inl (refl, refl, refl))
worker-Same dir enomem (suc count) i [] h e = (refl, inr (omega arith, refl, refl))
worker-Same dir enomem (suc count) i (end_of_directory ∷ readings) h e =
    (refl, inr (omega arith, refl, refl))
worker-Same dir enomem (suc count) i (error c ∷ readings) h e =
    (refl, inr (omega arith, single-error dir c readings, refl))
worker-Same dir enomem (suc count) i (entry name ∷ readings) h e =
    let (ok, more) = malloc_enough h e in
    let (names, after) = worker-Same dir enomem count (suc i) readings (malloc h).1 more in
    rw ok (
      ap (λ r. returned name ∷ r) names,
      elim after [
        | inl (all, good, left) ↦ inl (omega (arith, all), good, left)
        | inr (few, value, left) ↦ inr (omega (arith, few), value, left)
      ],
    )

-- The batch's value is that of a list of names; the stream stands where the single jobs leave it.
abbrev pub Agrees :
    Dir
    → (count : ℕ) → (readings : List Reading) → Outcome (List Name)
    → (left : List Reading) → Type 0
Agrees dir count readings value left =
    (names : List Name) × (let one = singles dir (length names) readings in
      let after = single dir one.1 in
      (one.0 ≡ map returned names)
      × (((length names ≡ count) × (value ≡ returned names) × (one.1 ≡ left))
          ⊎ ((length names < count)
              × (after.value ≡ raised end_of_file)
              × (value ≡ returned names)
              × (after.system ≡ left))
          ⊎ ((length names < count)
              × ((exn : Exn) × (after.value ≡ raised exn) × (value ≡ raised exn))
              × (after.system ≡ left))))

module _ (s : State) (whole : s.job.count ≡ length s.job.entries) where
  good : s.job.error_code ≡ 0 → (result_readdir_n s.job s.heap).0 ≡ returned s.job.entries
  unfolding result_readdir_n
  good e =
      rw (le→ltb (length s.job.entries) s.job.count (omega (arith, whole)), e)
        (ap returned (take_all s.job.count s.job.entries (omega (arith, whole))))

  bad :
      (c : ℕ)
      → s.job.error_code ≡ suc c
      → (result_readdir_n s.job s.heap).0 ≡ raised (unix_error (suc c) "readdir" "")
  unfolding result_readdir_n
  bad c e =
      rw
        (
          le→ltb (length s.job.entries) s.job.count (omega (arith, whole)),
          e,
          ne→== (suc c) 0 (λ z. omega arith),
        )
        refl

  Same-Agrees :
      (dir : Dir) (count : ℕ) (readings : List Reading) (code : ℕ)
      → s.job.error_code ≡ code
      → Same dir count readings s
      → Agrees dir count readings (result_readdir_n s.job s.heap).0 s.dir
  Same-Agrees dir count readings code e (names, inl (all, none_bad, left)) =
      (s.job.entries, (names, inl (all, good none_bad, left)))
  Same-Agrees dir count readings zero e (names, inr (few, value, left)) =
      (s.job.entries, (names, inr (inl (few, (rw e at value), good e, left))))
  Same-Agrees dir count readings (suc c) e (names, inr (few, value, left)) =
      (s.job.entries, (names, inr (inr (few, (_, (rw e at value), bad c e), left))))

-- The job for readdir_n against jobs for readdir on the same stream, whatever the stream holds:
-- there are at most `count` names that single jobs return one after the other; the batch returns
-- these and leaves the stream there if they are `count`; if they are fewer, the next single job
-- raises, and the batch leaves the stream behind that job and returns the names if it raises
-- `End_of_file`, or raises the same error instead of giving the names. Condition: memory does not
-- run out.
pub readdir_n-singles :
    (dir : Dir) (enomem count : ℕ) (readings : List Reading) (h : Heap)
    → h.script ≡ []
    → let s = worker_readdir_n enomem count 0 readings h in
      Agrees dir count readings (result_readdir_n s.job s.heap).0 s.dir
readdir_n-singles dir enomem count readings h e =
    let s = worker_readdir_n enomem count 0 readings h in
    Same-Agrees s (omega (arith, (worker-Written enomem count 0 readings h).0)) dir count readings
      s.job.error_code refl (worker-Same dir enomem count 0 readings h e)
