-- ===== src/Vectors.antt =====
-- src/unix/unix_c/unix_readv_writev_utils.c, unix_writev_job.c and unix_readv_job.c: vectored input and
-- output over OCaml I/O vectors, which lie in bytes objects or in bigarrays. Bytes may be moved and
-- changed while the system call blocks, so a job works on copies of their slices; bigarrays stay.
-- Bytes objects and bigarrays are lists of contents, and a value is the index in them.
pub mod Gather
pub mod Scatter
pub mod ShortRead
use lwt.Base.{
  ℕ, zero, suc, ◌+◌, Bool, true, false, ◌&&◌, List, [], ◌∷◌, ◌++◌, Option, none, some, ℤ, pos,
  negsuc, minus_one, is_minus_one, get_elem?, set, length, take, drop, splice, leb, if◌then◌else◌,
  Exn, unix_error, Outcome, returned, raised, fault,
}

abbrev pub Bytes : Type 0
Bytes = List ℕ

-- `IO_vectors_bytes` and `IO_vectors_bigarray`
pub data Buffer : Type 0 where
  bytes bigarray : (value : ℕ) → Buffer

pub record IoVector : Type 0 where
  pub buffer : Buffer
  pub offset : ℕ
  pub length_ : ℕ

-- `iov_base`: a block on the C heap, counted by `copy_index`, or a place in an OCaml buffer.
pub data IovBase : Type 0 where
  on_heap : (copy_index : ℕ) → IovBase
  in_bytes in_bigarray : (value offset : ℕ) → IovBase

pub record Iovec : Type 0 where
  pub iov_base : IovBase
  pub iov_len : ℕ

-- `struct readv_copy_to`; its temporary buffer is the block with the same index.
pub record CopyTo : Type 0 where
  pub length_ : ℕ
  pub offset : ℕ
  pub caml_buffer : ℕ

-- Which of `buffer_copies` and `read_buffers` is not null.
pub data Mode : Type 0 where
  for_writev for_readv in_place : Mode

-- What `flatten_io_vectors` fills: the two arrays that end in a null pointer are lists.
pub record Flat : Type 0 where
  pub iovecs : List Iovec
  pub buffer_copies : List Bytes
  pub read_buffers : List CopyTo

-- `lwt_unix_malloc` and `memcpy` of a slice; `none` reads outside the object.
abbrev pub slice : List Bytes → ℕ → (offset length : ℕ) → Option Bytes
slice objects value offset n = elim (get_elem? objects value) [
  | none ↦ none
  | some b ↦ if leb (offset + n) (length b) then some (take n (drop offset b)) else none
]

abbrev pub next_index : Mode → Buffer → ℕ → ℕ
next_index for_writev (bytes v) k = suc k
next_index for_readv (bytes v) k = suc k
next_index _ _ k = k

abbrev add_iovec : IovBase → ℕ → Flat → Flat
add_iovec base n f = record f { iovecs = record { iov_base = base; iov_len = n } ∷ f.iovecs }

abbrev add_copy : Option Bytes → ℕ → ℕ → Flat → Option Flat
add_copy none k n f = none
add_copy (some b) k n f =
    some (record (add_iovec (on_heap k) n f) { buffer_copies = b ∷ f.buffer_copies })

-- The body of the loop, with what the later turns leave.
unfoldable pub flatten_one : Mode → List Bytes → Buffer → (offset length k : ℕ) → Flat → Option Flat
flatten_one for_writev objects (bytes v) offset n k f = add_copy (slice objects v offset n) k n f
flatten_one for_readv objects (bytes v) offset n k f = some (record (add_iovec (on_heap k) n f) {
  read_buffers = record { length_ = n; offset = offset; caml_buffer = v } ∷ f.read_buffers;
})
flatten_one in_place objects (bytes v) offset n k f = some (add_iovec (in_bytes v offset) n f)
flatten_one mode objects (bigarray v) offset n k f = some (add_iovec (in_bigarray v offset) n f)

-- `none`: the list of vectors ends before `count`, or a slice lies outside its object.
unfoldable pub flatten_io_vectors : Mode → List Bytes → List IoVector → (count k : ℕ) → Option Flat
flatten_io_vectors mode objects vectors zero k =
    some (record { iovecs = []; buffer_copies = []; read_buffers = [] })
flatten_io_vectors mode objects [] (suc count) k = none
flatten_io_vectors mode objects (v ∷ vectors) (suc count) k =
    let rest = flatten_io_vectors mode objects vectors count (next_index mode v.buffer k) in
    elim rest [ none ↦ none | some f ↦ flatten_one mode objects v.buffer v.offset v.length_ k f ]

-- The C heap blocks of one job, the bytes objects and the bigarrays.
pub record Memory : Type 0 where
  pub blocks : List Bytes
  pub objects : List Bytes
  pub bigarrays : List Bytes

pub record WritevJob : Type 0 where
  pub fd : ℕ
  pub error_code : ℕ
  pub result : ℤ
  pub count : ℕ
  pub iovecs : List Iovec
  pub buffer_copies : List Bytes

-- `lwt_unix_writev_job`, with `garbage` what `malloc` left in the result fields.
unfoldable pub writev_job :
    (fd : ℕ) → List IoVector → (count : ℕ) (garbage : ℤ × ℕ) → List Bytes → Option WritevJob
writev_job fd vectors count garbage objects =
    elim (flatten_io_vectors for_writev objects vectors count 0) [
      | none ↦ none
      | some f ↦ some (record {
        fd = fd;
        error_code = garbage.1;
        result = garbage.0;
        count = count;
        iovecs = f.iovecs;
        buffer_copies = f.buffer_copies;
      })
    ]

-- `writev` sees the memory as it is when the worker runs; `W` is the state of the system.
unfoldable pub worker_writev :
    {W : Type 0} (writev : (fd : ℕ) → List Iovec → (count : ℕ) → Memory → W → (ℤ × ℕ) × W)
    → WritevJob
    → Memory
    → W
    → WritevJob × W
worker_writev writev job m w =
    let (a, w') = writev job.fd job.iovecs job.count (record m { blocks = job.buffer_copies }) w in
    (record job { result = a.0; error_code = a.1 }, w')

unfoldable pub result_writev : WritevJob → Outcome ℕ
result_writev job = elim job.result [
  | negsuc _ ↦ raised (unix_error job.error_code "writev" "")
  | pos n ↦ returned n
]

pub record ReadvJob : Type 0 where
  pub fd : ℕ
  pub error_code : ℕ
  pub result : ℤ
  pub count : ℕ
  pub iovecs : List Iovec
  pub buffers : List CopyTo

unfoldable pub readv_job :
    (fd : ℕ) → List IoVector → (count : ℕ) (garbage : ℤ × ℕ) → Option ReadvJob
readv_job fd vectors count garbage = elim (flatten_io_vectors for_readv [] vectors count 0) [
  | none ↦ none
  | some f ↦ some (record {
    fd = fd;
    error_code = garbage.1;
    result = garbage.0;
    count = count;
    iovecs = f.iovecs;
    buffers = f.read_buffers;
  })
]

unfoldable pub worker_readv :
    (readv : (fd : ℕ) → List Iovec → (count : ℕ) → Memory → (ℤ × ℕ) × Memory)
    → ReadvJob
    → Memory
    → ReadvJob × Memory
worker_readv readv job m =
    let (a, m') = readv job.fd job.iovecs job.count m in
    (record job { result = a.0; error_code = a.1 }, m')

-- One `memcpy` of the loop in `result_readv`: as many bytes as the vector has, which the temporary
-- block has too.
unfoldable pub copy_back : CopyTo → Option Bytes → List Bytes → Option (List Bytes)
copy_back c none objects = none
copy_back c (some b) objects = elim (get_elem? objects c.caml_buffer) [
  | none ↦ none
  | some old ↦
      if leb c.length_ (length b) && leb (c.offset + c.length_) (length old)
      then some (set objects c.caml_buffer (splice c.offset (take c.length_ b) old))
      else none
]

-- The loop, from the block with index `k` on.
unfoldable pub copy_all :
    List CopyTo → (k : ℕ) → (blocks objects : List Bytes) → Option (List Bytes)
copy_all [] k blocks objects = some objects
copy_all (c ∷ cs) k blocks objects = elim (copy_back c (get_elem? blocks k) objects) [
  | none ↦ none
  | some objects' ↦ copy_all cs (suc k) blocks objects'
]

unfoldable pub result_readv : ReadvJob → Memory → Outcome ℕ × Memory
result_readv job m =
    elim (if is_minus_one job.result
      then some m.objects
      else copy_all job.buffers 0 m.blocks m.objects) [
        | none ↦ (fault, m)
        | some objects ↦ (
          (elim job.result [
            | negsuc _ ↦ raised (unix_error job.error_code "readv" "")
            | pos n ↦ returned n
          ]),
          record m { objects = objects },
        )
      ]
