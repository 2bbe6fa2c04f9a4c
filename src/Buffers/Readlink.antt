-- ===== src/Buffers/Readlink.antt =====
-- What the jobs of src/unix/unix_c/unix_readlink_job.c and unix_gethostname_job.c return, and that
-- their loops end.
use lwt.Base.{
  ℕ, zero, suc, true, false, drop, [], ◌*◌, ◌^◌, ◌≤◌, ◌<◌, min, Option, some, pos, length, take,
  take_all, ltb, lt→ltb, le→ltb, ltb→lt, Bool-cases, inl, inr, ◌⊎◌, ◌≡◌, refl, arith,
  unix_error_arg, Outcome, returned, raised, minus_one,
}
use lwt.Heap.{Heap, Holds, lwt_malloc, free}
use lwt.Calls.{Bytes, c_string}
use lwt.Calls.Strings.{cut, cells, c_string_one, holding, memcpy_one}
use lwt.Buffers.Doubling.{doubled_first, doubled_le}
use lwt.Buffers.{
  kept, failed, Answer, BufferArgs, Job, State, ssize_limit, started, worker_readlink,
  result_readlink, readlink_job,
}

-- What a name is for `readlink`: nothing, with an errno, or a link to a target, of which a call gives as
-- much as the buffer takes.
abbrev pub Names : (size : ℕ) → Answer → ℕ ⊎ Bytes → Type 0
Names size a (inl e) = (a.value ≡ minus_one) × (a.errno ≡ e)
Names size a (inr target) =
    (a.value ≡ pos (min size (length target))) × (a.written ≡ take size target)

abbrev pub needs : ℕ ⊎ Bytes → ℕ
needs (inl e) = 0
needs (inr target) = length target

module _ (free_errno : ℕ → ℕ) (readlink : (name : Bytes) (size : ℕ) → Answer) where
  abbrev pub link_value : (name : Bytes) → ℕ ⊎ Bytes → Outcome Bytes
  link_value name (inl e) = raised (unix_error_arg (free_errno e) "readlink" (cut name))
  link_value name (inr target) = returned (cut target)

  -- The job has ended: with this result, freed, and with no block more in use than in `heap`.
  abbrev pub Ended : Heap → Outcome Bytes → Option State → Type 0
  Ended heap v o =
      (s : State) × (o ≡ some s)
      × ((result_readlink s.job s.heap).0.0 ≡ v)
      × ((result_readlink s.job s.heap).0.1.freed ≡ true)
      × Holds 0 heap (result_readlink s.job s.heap).1

  module _ (job : Job) (fresh : job.freed ≡ false) (name : Bytes)
      (at_name : c_string (drop job.args.name job.data_) ≡ some name) (start : Heap)
      (target : Bytes) (names : (size : ℕ) → Names size (readlink name size) (inr target)) where
    fits :
        (k size : ℕ) (heap : Heap)
        → Holds 0 start heap
        → length target < size
        → Ended start
            (returned (cut target))
            (worker_readlink free_errno readlink (suc k) size job heap)
    unfolding worker_readlink result_readlink
    fits k size heap held h =
        let shorter : min size (length target) ≡ length target = omega arith in
        (
          kept job (cells target) (pos (length target)) (lwt_malloc heap),
          rw (
            at_name,
            (names size).0,
            shorter,
            lt→ltb _ _ h,
            (names size).1,
            take_all size target (omega arith),
            worker_readlink,
          ),
          ground (arith, fresh, c_string_one target),
          ground (arith, fresh, c_string_one target),
          omega arith,
        )

    again :
        (k size : ℕ) (heap : Heap)
        → size ≤ length target
        → size * 2 < ssize_limit
        → worker_readlink free_errno readlink (suc k) size job heap
          ≡ worker_readlink free_errno readlink k (size * 2) job (free (lwt_malloc heap))
    unfolding worker_readlink
    again k size heap h room =
        let longer : min size (length target) ≡ size = omega arith in
        rw (
          at_name,
          (names size).0,
          longer,
          le→ltb size size (omega arith),
          lt→ltb _ _ room,
          worker_readlink,
        )

    from :
        (k size : ℕ) (heap : Heap)
        → Holds 0 start heap
        → length target < size * 2 ^ k
        → size * 2 ^ k < ssize_limit
        → Ended start
            (returned (cut target))
            (worker_readlink free_errno readlink (suc k) size job heap)
    from zero size heap held h room = fits zero size heap held (omega arith)
    from (suc k) size heap held h room = elim (Bool-cases (ltb (length target) size)) [
      | inl e ↦ fits (suc k) size heap held (ltb→lt _ _ e)
      | inr e ↦
          let step = doubled_first size k in
          let below = doubled_le (size * 2) k in
          rw (again (suc k) size heap (ground arith) (omega (arith, step, below, room))) (
            from k (size * 2) (free (lwt_malloc heap)) (omega arith) (omega (arith, step, h))
              (omega (arith, step, room)))
    ]

  -- The job for readlink, by what the link holds.
  pub readlink_ends :
      (name : Bytes) (link : ℕ ⊎ Bytes) (k : ℕ) (heap : Heap)
      → ((size : ℕ) → Names size (readlink (cut name) size) link)
      → needs link < 1024 * 2 ^ k
      → 1024 * 2 ^ k < ssize_limit
      → Ended heap
          (link_value name link)
          (started (readlink_job name) (worker_readlink free_errno readlink (suc k) 1024) heap)
  unfolding readlink_job worker_readlink result_readlink
  readlink_ends name (inr target) k heap names h room =
      let args : BufferArgs = record { name = 0; buffer = []; live = false } in
      rw (memcpy_one args name) (
        from (holding args (cells name)) refl (cut name) (c_string_one name) heap target names k
          1024 heap (omega arith) h room)
  readlink_ends name (inl errno) k heap names h room =
      let args : BufferArgs = record { name = 0; buffer = []; live = false } in
      rw (memcpy_one args name) (
        failed free_errno (holding args (cells name)) errno (lwt_malloc heap),
        rw (c_string_one name, (names 1024).0, (names 1024).1, worker_readlink),
        ground (arith, c_string_one name),
        ground (arith, c_string_one name),
        omega arith,
      )
