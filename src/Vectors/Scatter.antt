-- ===== src/Vectors/Scatter.antt =====
-- Where the readv job of src/unix/unix_c/unix_readv_job.c puts what the system gives.
use lwt.Base.{
  ℤ, ℕ, zero, suc, ◌+◌, ◌≤◌, ◌<◌, List, [], ◌∷◌, Option, none, some, pos, get_elem?, set, length,
  take, drop, leb, if◌then◌else◌, ◌++◌, take_all, le→leb, splice, ◌≡◌, refl, sym, ap, ◌∙◌, subst,
  arith, Option-cases, inl, inr, length-set, get_elem?-set_self, get_elem?-set_ne, Outcome,
  returned, fault,
}
use lwt.Vectors.{
  Bytes, Buffer, bytes, bigarray, IoVector, IovBase, on_heap, in_bytes, in_bigarray, Iovec, CopyTo,
  for_readv, Flat, next_index, flatten_one, flatten_io_vectors, Memory, ReadvJob, readv_job,
  worker_readv, copy_back, copy_all, result_readv,
}
use lwt.Vectors.Gather.{flatten_step}

abbrev put_at : (value offset : ℕ) → Bytes → List Bytes → List Bytes
put_at i o b all = elim (get_elem? all i) [ none ↦ all | some old ↦ set all i (splice o b old) ]

-- A write to the place of an `iovec`; a block on the heap is written as a whole.
abbrev pub store : Iovec → Bytes → Memory → Memory
store v b m = elim v.iov_base [
  | on_heap k ↦ record m { blocks = set m.blocks k b }
  | in_bytes i o ↦ record m { objects = put_at i o b m.objects }
  | in_bigarray i o ↦ record m { bigarrays = put_at i o b m.bigarrays }
]

-- The memory after the places of some iovecs got new contents, in order.
abbrev pub fill : List Iovec → List Bytes → Memory → Memory
fill (v ∷ vs) (b ∷ bs) m = fill vs bs (store v b m)
fill _ _ m = m

-- The bytes objects after the contents were put straight into the OCaml vectors of `n` bytes; `none`
-- is a vector that does not lie in its object.
abbrev place_one : Buffer → (offset length : ℕ) → Bytes → List Bytes → Option (List Bytes)
place_one (bytes i) o n b objects = elim (get_elem? objects i) [
  | none ↦ none
  | some old ↦
      if leb (o + n) (length old)
      then some (set objects i (take o old ++ (b ++ drop (o + n) old)))
      else none
]
place_one (bigarray i) o n b objects = some objects

abbrev pub place : List IoVector → List Bytes → List Bytes → Option (List Bytes)
place (v ∷ vs) (b ∷ bs) objects = elim (place_one v.buffer v.offset v.length_ b objects) [
  | none ↦ none
  | some objects' ↦ place vs bs objects'
]
place _ _ objects = some objects

-- Each content has as many bytes as its vector.
abbrev pub Full : List IoVector → List Bytes → Type 0
Full (v ∷ vs) (b ∷ bs) = (length b ≡ v.length_) × Full vs bs
Full _ _ = Unit

copy_back-place :
    (i o n : ℕ) (b : Bytes) (objects : List Bytes)
    → length b ≡ n
    → copy_back (record { length_ = n; offset = o; caml_buffer = i }) (some b) objects
      ≡ place_one (bytes i) o n b objects
unfolding copy_back
copy_back-place i o n b objects e = elim (Option-cases (get_elem? objects i)) [
  | inl none_there ↦ rw (none_there, copy_back, place_one) refl
  | inr (old, there) ↦
      rw (there, copy_back, place_one)
        (rw (take_all n b (omega (arith, e)), e, le→leb n n (omega arith)) refl)
]

-- The iovecs of blocks from index `k` on.
abbrev From : ℕ → List Iovec → Type 0
From k [] = Unit
From k (v ∷ vs) =
    (elim v.iov_base [ on_heap j ↦ k ≤ j | in_bytes i o ↦ Unit {0} | in_bigarray i o ↦ Unit {0} ])
    × From k vs

fill-below :
    (k j : ℕ) (vs : List Iovec) (bs : List Bytes) (m : Memory)
    → From k vs
    → j < k
    → get_elem? (fill vs bs m).blocks j ≡ get_elem? m.blocks j
fill-below k j [] bs m f l = refl
fill-below k j (v ∷ vs) [] m f l = refl
fill-below k j (v ∷ vs) (b ∷ bs) m f l =
    fill-below k j vs bs (store v b m) f.1 l ∙ one v.iov_base f.0
  where
    one :
        (base : IovBase)
        → (elim base as (λ _. Type 0) [
          | on_heap j ↦ k ≤ j
          | in_bytes i o ↦ Unit {0}
          | in_bigarray i o ↦ Unit {0}
        ])
        → get_elem? (store (record { iov_base = base; iov_len = v.iov_len }) b m).blocks j
          ≡ get_elem? m.blocks j
    one (on_heap i) h = get_elem?-set_ne m.blocks i j b (λ e. omega arith)
    one (in_bytes i o) h = refl
    one (in_bigarray i o) h = refl

-- What is known of the iovecs that stand for the rest of the vectors.
From-mono : (k j : ℕ) (vs : List Iovec) → k ≤ j → From j vs → From k vs
From-mono k j [] l f = tt
From-mono k j (v ∷ vs) l f = (one v.iov_base f.0, From-mono k j vs l f.1)
  where
    one :
        (base : IovBase)
        → (elim base as (λ _. Type 0) [
          | on_heap i ↦ j ≤ i
          | in_bytes i o ↦ Unit {0}
          | in_bigarray i o ↦ Unit {0}
        ])
        → (elim base as (λ _. Type 0) [
          | on_heap i ↦ k ≤ i
          | in_bytes i o ↦ Unit {0}
          | in_bigarray i o ↦ Unit {0}
        ])
    one (on_heap i) h = omega arith
    one (in_bytes i o) h = tt
    one (in_bigarray i o) h = tt

abbrev parts_of : Option Flat → List Iovec × List CopyTo
parts_of none = ([], [])
parts_of (some f) = (f.iovecs, f.read_buffers)

-- To fill the iovecs and copy the blocks back is to place the contents.
abbrev Scattered : (k : ℕ) → List Iovec × List CopyTo → List IoVector → List Bytes → Type 0
Scattered k (iovecs, buffers) vectors bs =
    From k iovecs
    × ((m : Memory) (objects : List Bytes)
        → Full vectors bs
        → k + length buffers ≤ length m.blocks
        → copy_all buffers k (fill iovecs bs m).blocks objects ≡ place vectors bs objects)

cons-Scattered :
    (v : IoVector) (k : ℕ) (rest f : Flat) (vectors : List IoVector) (b : Bytes) (bs : List Bytes)
    (buffer : Buffer)
    → v.buffer ≡ buffer
    → flatten_one for_readv [] buffer v.offset v.length_ k rest ≡ some f
    → Scattered (next_index for_readv buffer k) (rest.iovecs, rest.read_buffers) vectors bs
    → Scattered k (f.iovecs, f.read_buffers) (v ∷ vectors) (b ∷ bs)
unfolding flatten_one copy_all
cons-Scattered v k rest f vectors b bs (bytes i) is e (from, ih) =
    subst (λ z. Scattered k z (v ∷ vectors) (b ∷ bs)) (ap parts_of e)
      ((omega arith, From-mono k (suc k) rest.iovecs (omega arith) from), copied)
  where
    c : CopyTo
    c = record { length_ = v.length_; offset = v.offset; caml_buffer = i }

    copied :
        (m : Memory) (objects : List Bytes)
        → Full (v ∷ vectors) (b ∷ bs)
        → k + length (c ∷ rest.read_buffers) ≤ length m.blocks
        → copy_all
            (c ∷ rest.read_buffers)
            k
            (fill
              (record { iov_base = on_heap k; iov_len = v.length_ } ∷ rest.iovecs)
              (b ∷ bs)
              m).blocks
            objects
          ≡ place (v ∷ vectors) (b ∷ bs) objects
    copied m objects full room =
        let m₁ : Memory = record m { blocks = set m.blocks k b } in
        let there : get_elem? (fill rest.iovecs bs m₁).blocks k ≡ some b =
          fill-below (suc k) k rest.iovecs bs m₁ from (omega arith)
          ∙ get_elem?-set_self m.blocks k b (omega arith) in
        rw (there, copy_all)
          (rw (is, copy_back-place i v.offset v.length_ b objects full.0)
            (elim (Option-cases (place_one (bytes i) v.offset v.length_ b objects)) [
              | inl bad ↦ rw (bad, place) refl
              | inr (objects', good) ↦
                  rw (good, place) (ih m₁ objects' full.1 (omega (arith, length-set m.blocks k b)))
            ]))
cons-Scattered v k rest f vectors b bs (bigarray i) is e (from, ih) =
    subst (λ z. Scattered k z (v ∷ vectors) (b ∷ bs)) (ap parts_of e)
      (
        (tt, from),
        λ m objects full room.
            rw is
              (ih (record m { bigarrays = put_at i v.offset b m.bigarrays }) objects full.1 room),
      )

flatten-Scattered :
    (vectors : List IoVector) (count k : ℕ) (bs : List Bytes) (f : Flat)
    → flatten_io_vectors for_readv [] vectors count k ≡ some f
    → length bs ≡ count
    → Scattered k (f.iovecs, f.read_buffers) (take count vectors) bs
unfolding flatten_io_vectors copy_all
flatten-Scattered vectors zero k bs f e l =
    subst (λ z. Scattered k z [] bs) (ap parts_of e) (tt, λ m objects full room. refl)
flatten-Scattered [] (suc count) k bs f e l = absurd (cc e)
flatten-Scattered (v ∷ vectors) (suc count) k [] f e l = absurd (omega arith)
flatten-Scattered (v ∷ vectors) (suc count) k (b ∷ bs) f e l =
    let (rest, r, one) = flatten_step for_readv [] v vectors count k f e in
    cons-Scattered v k rest f (take count vectors) b bs v.buffer refl one
      (flatten-Scattered vectors count (next_index for_readv v.buffer k) bs rest r (omega arith))

-- How a readv job ends whose vectors got contents that are placed, or that do not fit.
abbrev pub placed : ℕ → Memory → Option (List Bytes) → Outcome ℕ × Memory
placed n m none = (fault, m)
placed n m (some objects) = (returned n, record m { objects = objects })

pub result_readv-placed :
    (n errno : ℕ) (job : ReadvJob) (m : Memory)
    → result_readv (record job { result = pos n; error_code = errno }) m
      ≡ placed n m (copy_all job.buffers 0 m.blocks m.objects)
unfolding result_readv
result_readv-placed n errno job m = ended (copy_all job.buffers 0 m.blocks m.objects)
  where
    ended :
        (o : Option (List Bytes))
        → elim o as (λ _. Outcome ℕ × Memory) [
          | none ↦ (fault, m)
          | some objects ↦ (returned n, record m { objects = objects })
        ]
          ≡ placed n m o
    ended none = refl
    ended (some objects) = refl

-- A readv job whose system call does not fail and leaves these contents at the places of its iovecs,
-- whole, returns the call's result, and leaves the bytes objects as if the contents had been put
-- straight into the OCaml vectors, in order. Conditions: for each iovec there is a content of its
-- length, and for each bytes vector a block.
pub readv_job-place :
    (readv : (fd : ℕ) → List Iovec → (count : ℕ) → Memory → (ℤ × ℕ) × Memory) (fd : ℕ)
    (vectors : List IoVector) (count n errno : ℕ) (garbage : ℤ × ℕ) (bs : List Bytes)
    (job : ReadvJob) (m : Memory)
    → readv_job fd vectors count garbage ≡ some job
    → length bs ≡ count
    → Full (take count vectors) bs
    → length job.buffers ≤ length m.blocks
    → readv job.fd job.iovecs job.count m ≡ ((pos n, errno), fill job.iovecs bs m)
    → let r = worker_readv readv job m in
      result_readv r.0 r.1 ≡ placed n r.1 (place (take count vectors) bs r.1.objects)
unfolding readv_job worker_readv
readv_job-place readv fd vectors count n errno garbage bs job m made l full room gave =
    subst
      (λ a.
        result_readv (record job { result = a.0.0; error_code = a.0.1 }) a.1
        ≡ placed n a.1 (place (take count vectors) bs a.1.objects))
      (sym gave)
      (result_readv-placed n errno job (fill job.iovecs bs m)
        ∙ ap (placed n (fill job.iovecs bs m))
            (job-Scattered.1 m (fill job.iovecs bs m).objects full (omega arith)))
  where
    job_parts : Option ReadvJob → List Iovec × List CopyTo
    job_parts none = ([], [])
    job_parts (some j) = (j.iovecs, j.buffers)

    job-Scattered : Scattered 0 (job.iovecs, job.buffers) (take count vectors) bs
    job-Scattered = elim (Option-cases (flatten_io_vectors for_readv [] vectors count 0)) [
      | inl bad ↦ absurd (cc (rw (bad, readv_job) at made))
      | inr (f, good) ↦
          subst (λ z. Scattered 0 z (take count vectors) bs)
            (ap job_parts (rw (good, readv_job) at made))
            (flatten-Scattered vectors count 0 bs f good l)
    ]
