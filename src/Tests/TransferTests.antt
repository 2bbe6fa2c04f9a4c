-- ===== src/Tests/TransferTests.antt =====
-- The read and write jobs of src/unix/unix_c over one file whose content is a list of bytes.
use lwt.Base.{ℕ, ◌≡◌, refl, [], ◌∷◌, some, pos, arith, returned}
use lwt.Transfer.{Bytes, Objects, Answer, WriteJob, pwrite_job, worker_pwrite, result_pwrite}
use lwt.Transfer.RoundTrip.{Files, ReadBack, pread-pwrite}

-- A file that a write replaces as a whole: the offset is not looked at.
abbrev whole_file : Files
whole_file = record {
  W = Bytes;
  pwrite = λ fd buffer n at w. ((pos n, 0), buffer);
  pread = λ w fd room n at. record { value = pos n; errno = 0; buffer = w };
  pwrite_pread = λ fd buffer room at w size full. (refl, refl);
}

abbrev objects : Objects
objects = (1 ∷ 2 ∷ 3 ∷ 4 ∷ []) ∷ (0 ∷ 0 ∷ 0 ∷ 0 ∷ 0 ∷ []) ∷ []

abbrev garbage : Answer
garbage = record { value = pos 77; errno = 5; buffer = 8 ∷ 8 ∷ [] }

abbrev written : WriteJob
written = record {
  fd = 3;
  length_ = 2;
  file_offset = 0;
  result = pos 77;
  error_code = 5;
  buffer = 2 ∷ 3 ∷ [];
}

written_run : pwrite_job 3 0 0 1 2 (pos 77, 5) objects ≡ some written
unfolding pwrite_job
written_run = refl

written_result : result_pwrite (worker_pwrite whole_file.pwrite written []).0 ≡ returned 2
unfolding worker_pwrite result_pwrite
written_result = refl

pread-pwrite_example :
    ReadBack whole_file [] 3 0 objects objects
      (1 ∷ 2 ∷ 3 ∷ 4 ∷ [])
      (0 ∷ 0 ∷ 0 ∷ 0 ∷ 0 ∷ [])
      1
      2
      2
      garbage
      (2 ∷ 3 ∷ [])
      written
pread-pwrite_example =
    pread-pwrite whole_file [] 3 0 objects objects (1 ∷ 2 ∷ 3 ∷ 4 ∷ []) (0 ∷ 0 ∷ 0 ∷ 0 ∷ 0 ∷ []) 0 1
      1 2 2 (pos 77, 5) garbage written refl (omega arith) written_run written_result refl refl
      (omega arith)

-- A system call that gives one byte of the two that are asked for.
abbrev one_byte : (fd : ℕ) → Bytes → ℕ → Answer
one_byte fd buffer n = record { value = pos 1; errno = 0; buffer = 6 ∷ 8 ∷ [] }
