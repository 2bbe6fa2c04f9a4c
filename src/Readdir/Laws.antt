-- ===== src/Readdir/Laws.antt =====
-- What the readdir_n job of src/unix/unix_c/unix_readdir_n_job.c returns and frees.
use native.Mathlib.Nat.{add-zero}
use lwt.Base.{
  ℕ, zero, suc, ◌+◌, ◌≤◌, ◌<◌, List, [], ◌∷◌, ◌++◌, map, length, take, drop, ◌==◌, ◌≡◌, ◌≢◌, refl,
  sym, ap, ◌∙◌, arith, inl, inr, Bool-cases, le→ltb, ne→==, take_all, unix_error, returned, raised,
  fault,
}
use lwt.Heap.{Heap, malloc, Holds, malloc-cases, malloc_enough}
use lwt.Readdir.{
  Name, Reading, entry, end_of_directory, error, State, worker_readdir_n, result_readdir_n,
}

-- What the worker leaves, started at index `i` with the heap `h`.
abbrev pub Written : (remaining i : ℕ) → Heap → State → Type 0
Written remaining i h s =
    (s.job.count ≡ i + length s.job.entries)
    × (length s.job.entries ≤ remaining)
    × Holds (length s.job.entries) h s.heap

pub worker-Written :
    (enomem remaining i : ℕ) (dir : List Reading) (h : Heap)
    → Written remaining i h (worker_readdir_n enomem remaining i dir h)
unfolding worker_readdir_n
worker-Written enomem zero i dir h = (sym (add-zero i), omega arith, omega arith)
worker-Written enomem (suc remaining) i [] h = (sym (add-zero i), omega arith, omega arith)
worker-Written enomem (suc remaining) i (end_of_directory ∷ dir) h =
    (sym (add-zero i), omega arith, omega arith)
worker-Written enomem (suc remaining) i (error e ∷ dir) h =
    (sym (add-zero i), omega arith, omega arith)
worker-Written enomem (suc remaining) i (entry name ∷ dir) h =
    let w = worker-Written enomem remaining (suc i) dir (malloc h).1 in
    elim (malloc-cases h) [
      | inl (got, held) ↦ rw got (omega (arith, w.0), omega (arith, w.1), omega (arith, w.2))
      | inr (not, held) ↦ rw not (sym (add-zero i), omega arith, held)
    ]

-- The readdir_n job, whatever the directory gives and whichever allocations fail, does not read a
-- cell that the worker has not written, and when it is done the heap holds one block less, the job
-- itself, than when the worker started.
pub readdir_n-frees :
    (enomem count : ℕ) (dir : List Reading) (h : Heap)
    → let s = worker_readdir_n enomem count 0 dir h in
      let r = result_readdir_n s.job s.heap in (r.0 ≢ fault) × Holds 1 r.1 h
unfolding result_readdir_n
readdir_n-frees enomem count dir h =
    let s = worker_readdir_n enomem count 0 dir h in
    let w = worker-Written enomem count 0 dir h in
    rw (le→ltb (length s.job.entries) s.job.count (omega (arith, w.0)))
      (elim (Bool-cases (s.job.error_code == 0)) [
        | inl good ↦ rw good (λ e. cc e, omega (arith, w.0, w.2))
        | inr bad ↦ rw bad (λ e. cc e, omega (arith, w.0, w.2))
      ])

abbrev Batch : (count i : ℕ) → List Name → State → Type 0
Batch count i names s =
    (s.job.entries ≡ take count names)
    × (s.job.error_code ≡ 0)
    × (s.dir ≡ map entry (drop count names))

worker-Batch :
    (enomem count i : ℕ) (names : List Name) (h : Heap)
    → h.script ≡ []
    → Batch count i names (worker_readdir_n enomem count i (map entry names) h)
unfolding worker_readdir_n
worker-Batch enomem zero i names h e = (refl, refl, refl)
worker-Batch enomem (suc count) i [] h e = (refl, refl, refl)
worker-Batch enomem (suc count) i (name ∷ names) h e =
    let (ok, more) = malloc_enough h e in
    let b = worker-Batch enomem count (suc i) names (malloc h).1 more in
    rw ok (ap (λ r. name ∷ r) b.0, b.1, b.2)

-- On a directory that has still to give `names` and then ends, the job returns the first `count` of
-- them, or all if they are fewer, and leaves the directory at the next. Condition: memory does not
-- run out.
pub readdir_n-batch :
    (enomem count : ℕ) (names : List Name) (h : Heap)
    → h.script ≡ []
    → let s = worker_readdir_n enomem count 0 (map entry names) h in
      ((result_readdir_n s.job s.heap).0 ≡ returned (take count names))
      × (s.dir ≡ map entry (drop count names))
unfolding result_readdir_n
readdir_n-batch enomem count names h e =
    let s = worker_readdir_n enomem count 0 (map entry names) h in
    let w = worker-Written enomem count 0 (map entry names) h in
    let b = worker-Batch enomem count 0 names h e in
    (
      rw (le→ltb (length s.job.entries) s.job.count (omega (arith, w.0)))
          (rw b.1 (ap returned (take_all s.job.count s.job.entries (omega (arith, w.0)) ∙ b.0))),
      b.2,
    )

abbrev Failed : ℕ → List Reading → State → Type 0
Failed e rest s = (s.job.error_code ≡ suc e) × (s.dir ≡ rest)

worker-Failed :
    (enomem count i : ℕ) (names : List Name) (e : ℕ) (rest : List Reading) (h : Heap)
    → h.script ≡ []
    → length names < count
    → Failed e rest (worker_readdir_n enomem count i (map entry names ++ (error e ∷ rest)) h)
unfolding worker_readdir_n
worker-Failed enomem zero i names e rest h m l = absurd (omega arith)
worker-Failed enomem (suc count) i [] e rest h m l = (refl, refl)
worker-Failed enomem (suc count) i (name ∷ names) e rest h m l =
    let (ok, more) = malloc_enough h m in
    let b = worker-Failed enomem count (suc i) names e rest (malloc h).1 more (omega arith) in
    rw ok b

-- If `readdir` fails after fewer than `count` names, the job raises `Unix_error` with its errno,
-- and the directory stands behind the failure. Condition: memory does not run out.
pub readdir_n-error :
    (enomem count : ℕ) (names : List Name) (e : ℕ) (rest : List Reading) (h : Heap)
    → h.script ≡ []
    → length names < count
    → let s = worker_readdir_n enomem count 0 (map entry names ++ (error e ∷ rest)) h in
      ((result_readdir_n s.job s.heap).0 ≡ raised (unix_error (suc e) "readdir" ""))
      × (s.dir ≡ rest)
unfolding result_readdir_n
readdir_n-error enomem count names e rest h m l =
    let dir = map entry names ++ (error e ∷ rest) in
    let s = worker_readdir_n enomem count 0 dir h in
    let w = worker-Written enomem count 0 dir h in
    let b = worker-Failed enomem count 0 names e rest h m l in
    (
      rw (le→ltb (length s.job.entries) s.job.count (omega (arith, w.0)))
          (rw b.0 (rw (ne→== (suc e) 0 (λ z. omega arith)) refl)),
      b.1,
    )
