-- ===== src/Tests/VectorsTests.antt =====
-- Vectored jobs of src/unix/unix_c over two bytes objects and a bigarray.
use lwt.Base.{ℤ, ℕ, ◌≡◌, refl, List, [], ◌∷◌, map, some, pos, arith, set}
use lwt.Vectors.{
  Bytes, bytes, bigarray, IoVector, on_heap, in_bigarray, Iovec, Memory, WritevJob, writev_job,
  ReadvJob, readv_job, worker_readv, result_readv, flatten_one, flatten_io_vectors,
}
use lwt.Vectors.Gather.{seen, writev_job-content}
use lwt.Vectors.Scatter.{fill, place, placed, readv_job-place}
use lwt.Vectors.ShortRead.{Overwritten, one_vector, readv_short}

abbrev vectors : List IoVector
vectors =
    record { buffer = bytes 1; offset = 1; length_ = 2 }
    ∷ record { buffer = bigarray 0; offset = 0; length_ = 2 }
    ∷ record { buffer = bytes 0; offset = 0; length_ = 1 }
    ∷ []

abbrev objects : List Bytes
objects = (10 ∷ 11 ∷ []) ∷ (20 ∷ 21 ∷ 22 ∷ []) ∷ []

-- The bytes objects have been overwritten since.
abbrev memory : Memory
memory = record {
  blocks = (90 ∷ 90 ∷ []) ∷ (91 ∷ []) ∷ [];
  objects = (0 ∷ 0 ∷ []) ∷ (0 ∷ 0 ∷ 0 ∷ []) ∷ [];
  bigarrays = (30 ∷ 31 ∷ 32 ∷ []) ∷ [];
}

abbrev writing : WritevJob
writing = record {
  fd = 3;
  error_code = 9;
  result = pos 8;
  count = 3;
  iovecs =
      record { iov_base = on_heap 0; iov_len = 2 }
      ∷ record { iov_base = in_bigarray 0 0; iov_len = 2 }
      ∷ record { iov_base = on_heap 1; iov_len = 1 }
      ∷ [];
  buffer_copies = (21 ∷ 22 ∷ []) ∷ (10 ∷ []) ∷ [];
}

writing_made : writev_job 3 vectors 3 (pos 8, 9) objects ≡ some writing
unfolding writev_job flatten_io_vectors flatten_one
writing_made = refl

writev_job-content_example :
    map (seen (record memory { blocks = writing.buffer_copies })) writing.iovecs
    ≡ some (21 ∷ 22 ∷ []) ∷ some (30 ∷ 31 ∷ []) ∷ some (10 ∷ []) ∷ []
writev_job-content_example =
    writev_job-content 3 vectors 3 (pos 8, 9) objects writing memory writing_made

abbrev reading : ReadvJob
reading = record {
  fd = 3;
  error_code = 9;
  result = pos 8;
  count = 3;
  iovecs = writing.iovecs;
  buffers =
      record { length_ = 2; offset = 1; caml_buffer = 1 }
      ∷ record { length_ = 1; offset = 0; caml_buffer = 0 }
      ∷ [];
}

reading_made : readv_job 3 vectors 3 (pos 8, 9) ≡ some reading
unfolding readv_job flatten_io_vectors flatten_one
reading_made = refl

abbrev arrived : List Bytes
arrived = (1 ∷ 2 ∷ []) ∷ (3 ∷ 4 ∷ []) ∷ (5 ∷ []) ∷ []

abbrev readv : (fd : ℕ) → List Iovec → (count : ℕ) → Memory → (ℤ × ℕ) × Memory
readv fd iovecs count m = ((pos 5, 0), fill iovecs arrived m)

readv_job-place_example :
    result_readv (worker_readv readv reading memory).0 (worker_readv readv reading memory).1
    ≡ placed 5
        (worker_readv readv reading memory).1
        (place vectors arrived (worker_readv readv reading memory).1.objects)
readv_job-place_example =
    readv_job-place readv 3 vectors 3 5 0 (pos 8, 9) arrived reading memory reading_made refl
      (refl, (refl, (refl, tt))) (omega arith) refl

-- One byte of two: the block's second byte is still 90.
abbrev short : (fd : ℕ) → List Iovec → (count : ℕ) → Memory → (ℤ × ℕ) × Memory
short fd iovecs count m = ((pos 1, 0), record m { blocks = set m.blocks 0 (7 ∷ 90 ∷ []) })

abbrev one_slice : ReadvJob
one_slice = one_vector short 3 1 1 2 0 (pos 8, 9) (7 ∷ []) (90 ∷ []) (0 ∷ 0 ∷ 0 ∷ []) memory

one_slice_made :
    readv_job 3 (record { buffer = bytes 1; offset = 1; length_ = 2 } ∷ []) 1 (pos 8, 9)
    ≡ some one_slice
unfolding readv_job flatten_io_vectors flatten_one
one_slice_made = refl

readv_short_example :
    Overwritten short 3 1 1 2 0 (pos 8, 9) (7 ∷ []) (90 ∷ []) (0 ∷ 0 ∷ 0 ∷ []) memory one_slice
readv_short_example =
    readv_short short 3 1 1 2 0 (pos 8, 9) (7 ∷ []) (90 ∷ []) (0 ∷ 0 ∷ 0 ∷ []) memory one_slice
      one_slice_made refl (omega arith) refl (omega arith) refl
