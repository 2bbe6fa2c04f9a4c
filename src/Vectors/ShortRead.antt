-- ===== src/Vectors/ShortRead.antt =====
-- A short read by the readv job of src/unix/unix_c/unix_readv_job.c.
use lwt.Base.{
  ℤ, ℕ, ◌+◌, ◌≤◌, ◌<◌, List, [], ◌∷◌, ◌++◌, some, pos, get_elem?, set, length, splice, take_all,
  arith, ◌≡◌, refl, sym, ap, ◌∙◌, subst, le→leb, get_elem?-set_self, returned,
}
use lwt.Vectors.{
  Bytes, bytes, on_heap, Iovec, flatten_one, flatten_io_vectors, Memory, ReadvJob, readv_job,
  worker_readv, copy_back, copy_all, result_readv,
}
use lwt.Vectors.Scatter.{placed, result_readv-placed}

module _ (readv : (fd : ℕ) → List Iovec → (count : ℕ) → Memory → (ℤ × ℕ) × Memory)
    (fd i o n errno : ℕ) (garbage : ℤ × ℕ) (given stale old : Bytes) (m : Memory) where
  abbrev pub one_vector : ReadvJob
  one_vector = record {
    fd = fd;
    error_code = garbage.1;
    result = garbage.0;
    count = 1;
    iovecs = record { iov_base = on_heap 0; iov_len = n } ∷ [];
    buffers = record { length_ = n; offset = o; caml_buffer = i } ∷ [];
  }

  abbrev pub after : Memory
  after = record m { blocks = set m.blocks 0 (given ++ stale) }

  abbrev pub Overwritten : ReadvJob → Type 0
  Overwritten job =
      let r = worker_readv readv job m in
      result_readv r.0 r.1 ≡ (
        returned (length given),
        record r.1 { objects = set m.objects i (splice o (given ++ stale) old) },
      )

  copied :
      length (given ++ stale) ≡ n
      → 0 < length m.blocks
      → get_elem? m.objects i ≡ some old
      → o + n ≤ length old
      → copy_all one_vector.buffers 0 after.blocks after.objects
        ≡ some (set m.objects i (splice o (given ++ stale) old))
  unfolding copy_all copy_back
  copied size room there fits =
      rw (get_elem?-set_self m.blocks 0 (given ++ stale) room, copy_all)
        (rw (there, copy_back)
          (rw
            (
              take_all n (given ++ stale) (omega (arith, size)),
              size,
              le→leb n n (omega arith),
              le→leb (o + n) (length old) fits,
            )
            refl))

  -- A readv job of one bytes vector, whose call returns the length of `given` and leaves `given ++
  -- stale`, as many bytes as the vector has, in the temporary buffer, returns that length and writes
  -- all of `given ++ stale` into the bytes object. Conditions: the job has a block, and the slice
  -- lies in its object.
  pub readv_short :
      (job : ReadvJob)
      → readv_job fd (record { buffer = bytes i; offset = o; length_ = n } ∷ []) 1 garbage
        ≡ some job
      → length (given ++ stale) ≡ n
      → 0 < length m.blocks
      → get_elem? m.objects i ≡ some old
      → o + n ≤ length old
      → readv fd job.iovecs 1 m ≡ ((pos (length given), errno), after)
      → Overwritten job
  unfolding readv_job flatten_io_vectors flatten_one worker_readv
  readv_short job made size room there fits gave =
      let is : one_vector ≡ job = cc made in
      subst (λ j. readv fd j.iovecs 1 m ≡ ((pos (length given), errno), after) → Overwritten j) is
        (λ gave.
          subst
            (λ a. result_readv (record one_vector { result = a.0.0; error_code = a.0.1 }) a.1 ≡ (
              returned (length given),
              record a.1 { objects = set m.objects i (splice o (given ++ stale) old) },
            ))
            (sym gave)
            (result_readv-placed (length given) errno one_vector after
              ∙ ap (placed (length given) after) (copied size room there fits)))
        gave
