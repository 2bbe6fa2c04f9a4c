-- ===== src/Readdir.antt =====
-- src/unix/unix_c/unix_readdir_n_job.c: a job that reads up to `count` names of a directory.
pub mod Laws
use lwt.Base.{
  ℕ, zero, suc, Bool, true, false, List, [], ◌∷◌, length, take, ltb, ◌==◌, if◌then◌else◌, Exn,
  unix_error, Outcome, returned, raised, fault,
}
use lwt.Heap.{Heap, malloc, free, free_all}

abbrev pub Name : Type 0
Name = List ℕ

-- What one call of `readdir` finds: a name, the end, or `errno`, here less one, as it is not 0. A
-- directory is the list of what its calls find; behind it is the end.
pub data Reading : Type 0 where
  entry : Name → Reading
  end_of_directory : Reading
  error : (errno_less_one : ℕ) → Reading

-- The job behind the `dir` field: `entries` are the cells that the worker has written.
pub record Job : Type 0 where
  pub count : ℕ
  pub error_code : ℕ
  pub entries : List Name

pub record State : Type 0 where
  pub job : Job
  pub dir : List Reading
  pub heap : Heap

abbrev stop : (count error_code : ℕ) → List Reading → Heap → State
stop count error_code dir heap = record {
  job = record { count = count; error_code = error_code; entries = [] };
  dir = dir;
  heap = heap;
}

abbrev stored : Name → State → State
stored name s = record s { job = record s.job { entries = name ∷ s.job.entries } }

-- `worker_readdir_n` from index `i` on, `remaining` before the count: the cells from `i` on.
unfoldable pub worker_readdir_n : (enomem remaining i : ℕ) → List Reading → Heap → State
worker_readdir_n enomem zero i dir h = stop i 0 dir h
worker_readdir_n enomem (suc remaining) i [] h = stop i 0 [] h
worker_readdir_n enomem (suc remaining) i (end_of_directory ∷ dir) h = stop i 0 dir h
worker_readdir_n enomem (suc remaining) i (error e ∷ dir) h = stop i (suc e) dir h
worker_readdir_n enomem (suc remaining) i (entry name ∷ dir) h =
    let (ok, h1) = malloc h in
    let rest = worker_readdir_n enomem remaining (suc i) dir h1 in
    if ok then stored name rest else stop i enomem dir h1

-- `result_readdir_n`: a cell that the worker has not written is not to be read.
unfoldable pub result_readdir_n : Job → Heap → Outcome (List Name) × Heap
result_readdir_n job h =
    if ltb (length job.entries) job.count
    then (fault, h)
    else if job.error_code == 0
    then (returned (take job.count job.entries), free (free_all job.count h))
    else (raised (unix_error job.error_code "readdir" ""), free (free_all job.count h))
