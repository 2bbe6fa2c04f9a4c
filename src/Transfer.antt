-- ===== src/Transfer.antt =====
-- src/unix/unix_c/unix_read_job.c, unix_pread_job.c, unix_write_job.c and unix_pwrite_job.c: a worker
-- thread reads into, or writes from, a buffer behind the job's structure, since OCaml code may run,
-- and the collector may move the OCaml bytes, while the system call blocks. The system calls are
-- parameters. The OCaml bytes objects are a list of contents, and a value is the index in it.
pub mod Slices
pub mod Laws
pub mod RoundTrip
use lwt.Base.{
  ℕ, ◌+◌, Bool, true, false, List, [], ◌∷◌, Option, none, some, ℤ, pos, negsuc, is_negative,
  get_elem?, set, length, take, drop, splice, replicate, leb, if◌then◌else◌, ◌&&◌, Exn, unix_error,
  Outcome, returned, raised, fault,
}
use Prim.Native.String.{String}

abbrev pub Bytes : Type 0
Bytes = List ℕ

abbrev pub Objects : Type 0
Objects = List Bytes

-- A system call's result, the `errno` behind it, and the buffer that it leaves.
pub record Answer : Type 0 where
  pub value : ℤ
  pub errno : ℕ
  pub buffer : Bytes

-- `struct job_read` and `struct job_pread`; `file_offset` is of the latter.
pub record ReadJob : Type 0 where
  pub fd : ℕ
  pub length_ : ℕ
  pub file_offset : ℕ
  pub string : ℕ
  pub offset : ℕ
  pub result : ℤ
  pub error_code : ℕ
  pub buffer : Bytes

-- `lwt_unix_read_job`, with `garbage` what `malloc` left in the buffer and in the results.
unfoldable pub read_job : (fd string offset length : ℕ) (garbage : Answer) → ReadJob
read_job fd string offset length garbage = record {
  fd = fd;
  length_ = length;
  file_offset = 0;
  string = string;
  offset = offset;
  result = garbage.value;
  error_code = garbage.errno;
  buffer = garbage.buffer;
}

-- `lwt_unix_pread_job`
unfoldable pub pread_job : (fd string file_offset offset length : ℕ) (garbage : Answer) → ReadJob
unfolding read_job
pread_job fd string file_offset offset length garbage =
    record (read_job fd string offset length garbage) { file_offset = file_offset }

abbrev answered : ReadJob → Answer → ReadJob
answered job a = record job { result = a.value; error_code = a.errno; buffer = a.buffer }

unfoldable pub worker_read :
    (read : (fd : ℕ) (buffer : Bytes) (length : ℕ) → Answer) → ReadJob → ReadJob
worker_read read job = answered job (read job.fd job.buffer job.length_)

unfoldable pub worker_pread :
    (pread : (fd : ℕ) (buffer : Bytes) (length file_offset : ℕ) → Answer) → ReadJob → ReadJob
worker_pread pread job = answered job (pread job.fd job.buffer job.length_ job.file_offset)

-- `memcpy` of `n` bytes of the job's buffer into the OCaml bytes, as they are now.
abbrev copied : ReadJob → (n : ℕ) → Bytes → Objects → Outcome ℕ × Objects
copied job n old objects =
    if leb n (length job.buffer) && leb (job.offset + n) (length old)
    then (returned n, set objects job.string (splice job.offset (take n job.buffer) old))
    else (fault, objects)

abbrev result_by : String → ReadJob → Objects → Outcome ℕ × Objects
result_by name job objects = elim job.result [
  | negsuc _ ↦ (raised (unix_error job.error_code name ""), objects)
  | pos n ↦ elim (get_elem? objects job.string) [
    | none ↦ (fault, objects)
    | some old ↦ copied job n old objects
  ]
]

unfoldable pub result_read : ReadJob → Objects → Outcome ℕ × Objects
result_read = result_by "read"

unfoldable pub result_pread : ReadJob → Objects → Outcome ℕ × Objects
result_pread = result_by "pread"

-- `struct job_write` and `struct job_pwrite`
pub record WriteJob : Type 0 where
  pub fd : ℕ
  pub length_ : ℕ
  pub file_offset : ℕ
  pub result : ℤ
  pub error_code : ℕ
  pub buffer : Bytes

-- `lwt_unix_write_job` and `lwt_unix_pwrite_job`: the slice is copied now; `none` is a slice that is
-- not inside the bytes.
unfoldable pub pwrite_job :
    (fd string file_offset offset length : ℕ) (garbage : ℤ × ℕ) → Objects → Option WriteJob
pwrite_job fd string file_offset offset n garbage objects = elim (get_elem? objects string) [
  | none ↦ none
  | some bytes ↦
      if leb (offset + n) (length bytes)
      then some (record {
        fd = fd;
        length_ = n;
        file_offset = file_offset;
        result = garbage.0;
        error_code = garbage.1;
        buffer = take n (drop offset bytes);
      })
      else none
]

unfoldable pub write_job :
    (fd string offset length : ℕ) (garbage : ℤ × ℕ) → Objects → Option WriteJob
unfolding pwrite_job
write_job fd string offset = pwrite_job fd string 0 offset

-- `write` may change a state `W` of the system, as `pwrite` may.
unfoldable pub worker_write :
    {W : Type 0} (write : (fd : ℕ) (buffer : Bytes) (length : ℕ) → W → (ℤ × ℕ) × W)
    → WriteJob
    → W
    → WriteJob × W
worker_write write job w =
    let (a, w') = write job.fd job.buffer job.length_ w in
    (record job { result = a.0; error_code = a.1 }, w')

unfoldable pub worker_pwrite :
    {W : Type 0} (pwrite : (fd : ℕ) (buffer : Bytes) (length file_offset : ℕ) → W → (ℤ × ℕ) × W)
    → WriteJob
    → W
    → WriteJob × W
worker_pwrite pwrite job w =
    let (a, w') = pwrite job.fd job.buffer job.length_ job.file_offset w in
    (record job { result = a.0; error_code = a.1 }, w')

abbrev written_by : String → WriteJob → Outcome ℕ
written_by name job = elim job.result [
  | negsuc _ ↦ raised (unix_error job.error_code name "")
  | pos n ↦ returned n
]

unfoldable pub result_write : WriteJob → Outcome ℕ
result_write = written_by "write"

unfoldable pub result_pwrite : WriteJob → Outcome ℕ
result_pwrite = written_by "pwrite"
