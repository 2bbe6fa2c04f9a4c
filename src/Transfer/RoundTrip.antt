-- ===== src/Transfer/RoundTrip.antt =====
-- What a pwrite job of src/unix/unix_c/unix_pwrite_job.c wrote, a pread job of unix_pread_job.c reads.
use lwt.Base.{
  ℕ, ◌+◌, ◌≤◌, some, ℤ, pos, get_elem?, length, take, drop, splice, ◌≡◌, refl, sym, ap, subst, ◌∙◌,
  arith, le→leb, length-take, length-drop, take_all, get_elem?-set_self, returned,
}
use lwt.Transfer.{
  Bytes, Objects, Answer, pread_job, worker_pread, result_pread, WriteJob, pwrite_job,
  worker_pwrite, result_pwrite,
}
use lwt.Transfer.Slices.{slice-splice}
use lwt.Transfer.Laws.{get_elem?-inside}

-- A system whose files can be read and written at an offset. `pwrite_pread` is the behaviour of a
-- regular file: what was written in full is what a read of the place gives.
pub record Files : Type 1 where
  pub W : Type 0
  pub pwrite : (fd : ℕ) (buffer : Bytes) (length file_offset : ℕ) → W → (ℤ × ℕ) × W
  pub pread : W → (fd : ℕ) (buffer : Bytes) (length file_offset : ℕ) → Answer
  pub pwrite_pread :
      (fd : ℕ) (buffer room : Bytes) (at : ℕ) (w : W)
      → length room ≡ length buffer
      → (pwrite fd buffer (length buffer) at w).0.0 ≡ pos (length buffer)
      → ((pread (pwrite fd buffer (length buffer) at w).1 fd room (length buffer) at).value
          ≡ pos (length buffer))
        × ((pread (pwrite fd buffer (length buffer) at w).1 fd room (length buffer) at).buffer
            ≡ buffer)

returned-value : (job : WriteJob) (n : ℕ) → result_pwrite job ≡ returned n → job.result ≡ pos n
unfolding result_pwrite
returned-value job n e = ground arith

abbrev slice_job : (fd at n : ℕ) (garbage : ℤ × ℕ) (slice : Bytes) → WriteJob
slice_job fd at n garbage slice = record {
  fd = fd;
  length_ = n;
  file_offset = at;
  result = garbage.0;
  error_code = garbage.1;
  buffer = slice;
}

pwrite_job-inside :
    (fd string at offset n : ℕ) (garbage : ℤ × ℕ) (objects : Objects) (source : Bytes)
    → get_elem? objects string ≡ some source
    → offset + n ≤ length source
    → pwrite_job fd string at offset n garbage objects
      ≡ some (slice_job fd at n garbage (take n (drop offset source)))
unfolding pwrite_job
pwrite_job-inside fd string at offset n garbage objects source e fits =
    rw (e, pwrite_job) (rw (le→leb (offset + n) (length source) fits) refl)

length-slice :
    (offset n : ℕ) (source : Bytes)
    → offset + n ≤ length source
    → length (take n (drop offset source)) ≡ n
length-slice offset n source h =
    omega (arith, length-take n (drop offset source), length-drop offset source)

-- A pread whose system call fills the buffer with `slice`.
pread_filled :
    (pread : (fd : ℕ) (buffer : Bytes) (length file_offset : ℕ) → Answer) (fd to at offset n : ℕ)
    (room : Answer) (later : Objects) (old slice : Bytes)
    → length slice ≡ n
    → (pread fd room.buffer n at).value ≡ pos n
    → (pread fd room.buffer n at).buffer ≡ slice
    → get_elem? later to ≡ some old
    → offset + n ≤ length old
    → let r = result_pread (worker_pread pread (pread_job fd to at offset n room)) later in
      (r.0 ≡ returned n)
      × ((new : Bytes) × (get_elem? r.1 to ≡ some new) × (take n (drop offset new) ≡ slice))
unfolding pread_job worker_pread result_pread
pread_filled pread fd to at offset n room later old slice len value filled e fits =
    let got = pread fd room.buffer n at in
    let same : take n got.buffer ≡ slice =
      ap (take n) filled ∙ take_all n slice (omega (arith, len)) in
    rw (value) (
      rw e (
        rw (le→leb n (length got.buffer) (omega (arith, len, (ap length filled)))) (
          rw (le→leb (offset + n) (length old) fits) (
            refl,
            (
              splice offset slice old,
              get_elem?-set_self later to _ (get_elem?-inside later to e)
                  ∙ ap (λ z. some (splice offset z old)) same,
              subst (λ k. take k (drop offset (splice offset slice old)) ≡ slice) len
                  (slice-splice offset slice old (omega (arith, len))),
            ),
          ))))

module _ (F : Files) (w : F.W) (fd at : ℕ) (objects later : Objects) (source old : Bytes) where
  -- The pread job, after the pwrite job, gives `slice`.
  abbrev pub ReadBack : (to offset n : ℕ) (room : Answer) (slice : Bytes) → WriteJob → Type 0
  ReadBack to offset n room slice job =
      let w' = (worker_pwrite F.pwrite job w).1 in
      let r = result_pread (worker_pread (F.pread w') (pread_job fd to at offset n room)) later in
      (r.0 ≡ returned n)
      × ((new : Bytes) × (get_elem? r.1 to ≡ some new) × (take n (drop offset new) ≡ slice))

  slice-ReadBack :
      (to offset n : ℕ) (garbage : ℤ × ℕ) (room : Answer) (slice : Bytes)
      → length slice ≡ n
      → length room.buffer ≡ n
      → get_elem? later to ≡ some old
      → offset + n ≤ length old
      → result_pwrite (worker_pwrite F.pwrite (slice_job fd at n garbage slice) w).0 ≡ returned n
      → ReadBack to offset n room slice (slice_job fd at n garbage slice)
  unfolding worker_pwrite
  slice-ReadBack to offset n garbage room slice len size e fits full =
      let full' =
        returned-value (worker_pwrite F.pwrite (slice_job fd at n garbage slice) w).0 n full in
      let law =
        F.pwrite_pread fd slice room.buffer at w (size ∙ sym len)
          (subst (λ k. (F.pwrite fd slice k at w).0.0 ≡ pos k) (sym len) full') in
      let law' =
        subst
          (λ k.
            ((F.pread (F.pwrite fd slice k at w).1 fd room.buffer k at).value ≡ pos k)
            × ((F.pread (F.pwrite fd slice k at w).1 fd room.buffer k at).buffer ≡ slice))
          len law in
      pread_filled (F.pread (F.pwrite fd slice n at w).1) fd to at offset n room later old slice len
        law'.0 law'.1 e fits

  -- A pwrite job that is made from a slice of a bytes object and that writes all of it, and then a
  -- pread job for as many bytes at the same place of the file: the second job returns their number,
  -- and the slice of its bytes object holds the bytes that the first slice held when its job was
  -- made. Conditions: both slices lie in their objects, and the file behaves as `Files` says.
  pub pread-pwrite :
      (from to offset offset' n : ℕ) (garbage : ℤ × ℕ) (room : Answer) (job : WriteJob)
      → get_elem? objects from ≡ some source
      → offset + n ≤ length source
      → pwrite_job fd from at offset n garbage objects ≡ some job
      → result_pwrite (worker_pwrite F.pwrite job w).0 ≡ returned n
      → length room.buffer ≡ n
      → get_elem? later to ≡ some old
      → offset' + n ≤ length old
      → ReadBack to offset' n room (take n (drop offset source)) job
  pread-pwrite from to offset offset' n garbage room job e fits made full size e' fits' =
      let slice = take n (drop offset source) in
      let is : slice_job fd at n garbage slice ≡ job =
        cc (sym (pwrite_job-inside fd from at offset n garbage objects source e fits) ∙ made) in
      subst
        (λ j.
          result_pwrite (worker_pwrite F.pwrite j w).0 ≡ returned n
          → ReadBack to offset' n room slice j)
        is
        (slice-ReadBack to offset' n garbage room slice (length-slice offset n source fits) size e'
          fits')
        full
