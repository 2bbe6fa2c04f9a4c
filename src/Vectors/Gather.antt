-- ===== src/Vectors/Gather.antt =====
-- What the writev job of src/unix/unix_c/unix_writev_job.c hands to the system.
use native.Mathlib.Nat.{zero-add}
use lwt.Base.{
  ℤ, ℕ, zero, suc, ◌+◌, List, [], ◌∷◌, ◌++◌, map, append_assoc, Option, none, some, get_elem?,
  length, take, drop, leb, ◌≡◌, refl, sym, ap, ◌∙◌, subst, arith, Bool-cases, Option-cases, inl,
  inr, le→leb, leb→le, length-append, length-take, length-drop, take_all,
}
use lwt.Vectors.{
  Bytes, Buffer, bytes, bigarray, IoVector, on_heap, in_bytes, in_bigarray, Iovec, Mode, for_writev,
  Flat, slice, next_index, flatten_one, flatten_io_vectors, Memory, WritevJob, writev_job,
}

-- The bytes that an `iovec` denotes.
abbrev pub seen : Memory → Iovec → Option Bytes
seen m v = elim v.iov_base [
  | on_heap k ↦ slice m.blocks k 0 v.iov_len
  | in_bytes i o ↦ slice m.objects i o v.iov_len
  | in_bigarray i o ↦ slice m.bigarrays i o v.iov_len
]

-- The bytes that an OCaml I/O vector denotes.
abbrev content_of : (objects bigarrays : List Bytes) → Buffer → (offset length : ℕ) → Option Bytes
content_of objects bigarrays (bytes i) o n = slice objects i o n
content_of objects bigarrays (bigarray i) o n = slice bigarrays i o n

abbrev pub content : (objects bigarrays : List Bytes) → IoVector → Option Bytes
content objects bigarrays v = content_of objects bigarrays v.buffer v.offset v.length_

pub flatten_step :
    (mode : Mode) (objects : List Bytes) (v : IoVector) (vectors : List IoVector) (count k : ℕ)
    (f : Flat)
    → flatten_io_vectors mode objects (v ∷ vectors) (suc count) k ≡ some f
    → (rest : Flat) × (flatten_io_vectors mode objects vectors count (next_index mode v.buffer k)
        ≡ some rest)
      × (flatten_one mode objects v.buffer v.offset v.length_ k rest ≡ some f)
unfolding flatten_io_vectors
flatten_step mode objects v vectors count k f e =
    elim (Option-cases
      (flatten_io_vectors mode objects vectors count (next_index mode v.buffer k))) [
        | inl bad ↦ absurd (cc (rw (bad, flatten_io_vectors) at e))
        | inr (rest, good) ↦ (rest, good, (rw (good, flatten_io_vectors) at e))
      ]

get_elem?-middle :
    (pre post : List Bytes) (b : Bytes) → get_elem? (pre ++ (b ∷ post)) (length pre) ≡ some b
get_elem?-middle [] post b = refl
get_elem?-middle (x ∷ pre) post b = get_elem?-middle pre post b

length-slice_of :
    (objects : List Bytes) (i o n : ℕ) {b : Bytes} → slice objects i o n ≡ some b → length b ≡ n
length-slice_of objects i o n {b} e = elim (Option-cases (get_elem? objects i)) [
  | inl none_there ↦ absurd (cc (rw (none_there, slice) at e))
  | inr (old, there) ↦ elim (Bool-cases (leb (o + n) (length old))) [
    | inl fits ↦
        let is : take n (drop o old) ≡ b = cc (rw fits at (rw (there, slice) at e)) in
        sym (ap length is)
        ∙ omega
            (arith, length-take n (drop o old), length-drop o old, leb→le (o + n) (length old) fits)
    | inr over ↦ absurd (cc (rw over at (rw (there, slice) at e)))
  ]
]

-- A whole block.
slice-block :
    (blocks : List Bytes) (k n : ℕ) (b : Bytes)
    → get_elem? blocks k ≡ some b
    → length b ≡ n
    → slice blocks k 0 n ≡ some b
slice-block blocks k n b e l =
    rw (e, slice)
      (rw (zero-add n)
        (rw (le→leb n (length b) (omega (arith, l))) (ap some (take_all n b (omega (arith, l))))))

abbrev iovecs_of : Option Flat → List Iovec
iovecs_of none = []
iovecs_of (some f) = f.iovecs

abbrev copies_of : Option Flat → List Bytes
copies_of none = []
copies_of (some f) = f.buffer_copies

-- The first vector, before vectors of which `Rest` holds.
gathered_one :
    (objects : List Bytes) (m : Memory) (buffer : Buffer) (o n : ℕ) (pre : List Bytes)
    (rest f : Flat) (later : List (Option Bytes))
    → flatten_one for_writev objects buffer o n (length pre) rest ≡ some f
    → m.blocks ≡ pre ++ f.buffer_copies
    → ((pre' : List Bytes)
        → length pre' ≡ next_index for_writev buffer (length pre)
        → m.blocks ≡ pre' ++ rest.buffer_copies
        → map (seen m) rest.iovecs ≡ later)
    → map (seen m) f.iovecs ≡ content_of objects m.bigarrays buffer o n ∷ later
unfolding flatten_one
gathered_one objects m (bigarray i) o n pre rest f later e b ih =
    ap (map (seen m)) (sym (ap iovecs_of e))
    ∙ ap (λ r. slice m.bigarrays i o n ∷ r)
        (ih pre refl (b ∙ ap (λ c. pre ++ c) (sym (ap copies_of e))))
gathered_one objects m (bytes i) o n pre rest f later e b ih =
    elim (Option-cases (slice objects i o n)) [
      | inl bad ↦ absurd (cc (rw bad at e))
      | inr (s, good) ↦
          let made = rw good at e in
          let blocks : m.blocks ≡ pre ++ (s ∷ rest.buffer_copies) =
            b ∙ ap (λ c. pre ++ c) (sym (ap copies_of made)) in
          let there : get_elem? m.blocks (length pre) ≡ some s =
            ap (λ z. get_elem? z (length pre)) blocks ∙ get_elem?-middle pre rest.buffer_copies s in
          ap (map (seen m)) (sym (ap iovecs_of made))
          ∙ (ap (λ z. z ∷ map (seen m) rest.iovecs)
                (slice-block m.blocks (length pre) n s there (length-slice_of objects i o n good)
                  ∙ sym good)
              ∙ ap (λ r. slice objects i o n ∷ r)
                  (ih (pre ++ (s ∷ [])) (omega (arith, length-append pre (s ∷ [])))
                    (blocks ∙ sym (append_assoc pre (s ∷ []) rest.buffer_copies))))
    ]

gathered :
    (objects : List Bytes) (m : Memory) (vectors : List IoVector) (count k : ℕ) (pre : List Bytes)
    (f : Flat)
    → length pre ≡ k
    → flatten_io_vectors for_writev objects vectors count k ≡ some f
    → m.blocks ≡ pre ++ f.buffer_copies
    → map (seen m) f.iovecs ≡ map (content objects m.bigarrays) (take count vectors)
unfolding flatten_io_vectors
gathered objects m vectors zero k pre f l e b = ap (λ o. map (seen m) (iovecs_of o)) (sym e)
gathered objects m [] (suc count) k pre f l e b = absurd (cc e)
gathered objects m (v ∷ vectors) (suc count) k pre f l e b =
    let (rest, r, one) = flatten_step for_writev objects v vectors count k f e in
    let one' =
      subst (λ z. flatten_one for_writev objects v.buffer v.offset v.length_ z rest ≡ some f)
        (sym l) one in
    gathered_one objects m v.buffer v.offset v.length_ pre rest f _ one' b (λ pre' l' b'.
      gathered objects m vectors count (next_index for_writev v.buffer k) pre' rest
        (l' ∙ ap (next_index for_writev v.buffer) l) r b')

-- The iovecs of a writev job denote, whatever happens to the bytes objects after the job is made, the
-- bytes that its OCaml vectors denoted then, in order: slices of bytes objects as they were, and
-- slices of bigarrays as they are.
pub writev_job-content :
    (fd : ℕ) (vectors : List IoVector) (count : ℕ) (garbage : ℤ × ℕ) (objects : List Bytes)
    (job : WritevJob) (m : Memory)
    → writev_job fd vectors count garbage objects ≡ some job
    → map (seen (record m { blocks = job.buffer_copies })) job.iovecs
      ≡ map (content objects m.bigarrays) (take count vectors)
unfolding writev_job
writev_job-content fd vectors count garbage objects job m e =
    elim (Option-cases (flatten_io_vectors for_writev objects vectors count 0)) [
      | inl bad ↦ absurd (cc (rw (bad, writev_job) at e))
      | inr (f, good) ↦
          let made = rw (good, writev_job) at e in
          let iovecs : f.iovecs ≡ job.iovecs = ap job_iovecs made in
          let copies : f.buffer_copies ≡ job.buffer_copies = ap job_copies made in
          ap (map (seen (record m { blocks = job.buffer_copies }))) (sym iovecs)
          ∙ gathered objects (record m { blocks = job.buffer_copies }) vectors count 0 [] f refl
              good (sym copies)
    ]
  where
    job_iovecs : Option WritevJob → List Iovec
    job_iovecs none = []
    job_iovecs (some j) = j.iovecs

    job_copies : Option WritevJob → List Bytes
    job_copies none = []
    job_copies (some j) = j.buffer_copies
