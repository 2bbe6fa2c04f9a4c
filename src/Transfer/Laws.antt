-- ===== src/Transfer/Laws.antt =====
-- What the read and write jobs of src/unix/unix_c/unix_read_job.c, unix_pread_job.c and
-- unix_pwrite_job.c move between OCaml bytes and the system.
use lwt.Base.{
  ℕ, zero, suc, ◌+◌, ◌≤◌, ◌<◌, [], ◌∷◌, some, pos, get_elem?, set, length, take, splice, ◌≡◌, ◌≢◌,
  refl, arith, le→leb, length-take, get_elem?-set_self, get_elem?-set_ne, Outcome, returned,
}
use lwt.Transfer.{Bytes, Objects, Answer, read_job, worker_read, result_read}
use lwt.Transfer.Slices.{byte_of, get_elem?-splice, length-splice}

pub get_elem?-inside : (xs : Objects) (i : ℕ) {x : Bytes} → get_elem? xs i ≡ some x → i < length xs
get_elem?-inside [] i e = absurd (cc e)
get_elem?-inside (x ∷ xs) zero e = omega arith
get_elem?-inside (x ∷ xs) (suc i) e = omega (arith, get_elem?-inside xs i e)

-- The objects after a read of `moved` into `old` at `offset`.
abbrev pub Received : (string offset : ℕ) → (moved old : Bytes) → Objects → Objects → Type 0
Received string offset moved old before after =
    ((new : Bytes) × (get_elem? after string ≡ some new)
      × (length new ≡ length old)
      × ((i : ℕ) → get_elem? new i ≡ byte_of offset moved old i))
    × ((j : ℕ) → string ≢ j → get_elem? after j ≡ get_elem? before j)

received :
    (string offset : ℕ) (moved old : Bytes) (objects : Objects)
    → get_elem? objects string ≡ some old
    → offset + length moved ≤ length old
    → Received string offset moved old objects (set objects string (splice offset moved old))
received string offset moved old objects e fits = (
  (
    splice offset moved old,
    get_elem?-set_self objects string (splice offset moved old) (get_elem?-inside objects string e),
    length-splice offset moved old fits,
    λ i. get_elem?-splice offset moved old i fits,
  ),
  λ j ne. get_elem?-set_ne objects string j (splice offset moved old) ne,
)

module _ (read : (fd : ℕ) (buffer : Bytes) (length : ℕ) → Answer) (fd string offset n : ℕ)
    (garbage : Answer) (objects : Objects) (old : Bytes) where
  abbrev answer : Answer
  answer = read fd garbage.buffer n

  abbrev read_result : Outcome ℕ × Objects
  read_result = result_read (worker_read read (read_job fd string offset n garbage)) objects

  -- A read job whose system call gives `m` bytes returns `m`, and puts these bytes at the offset
  -- into the bytes object as it is when the job ends; the object's other bytes and all other objects
  -- stay as they are then, also what OCaml code wrote while the call was blocking. Conditions: the
  -- slice lies in the object, and the call gives at most as many bytes as asked for, in the buffer.
  pub read-Received :
      (m : ℕ)
      → answer.value ≡ pos m
      → m ≤ n
      → n ≤ length answer.buffer
      → get_elem? objects string ≡ some old
      → offset + n ≤ length old
      → (read_result.0 ≡ returned m)
        × Received string offset (take m answer.buffer) old objects read_result.1
  unfolding read_job worker_read result_read
  read-Received m gave few room e fits = rw (gave) (
      rw e (
        rw (le→leb m (length answer.buffer) (omega arith)) (
          rw (le→leb (offset + m) (length old) (omega arith)) (
            refl,
            received string offset (take m answer.buffer) old objects e
                (omega (arith, length-take m answer.buffer)),
          ))))
