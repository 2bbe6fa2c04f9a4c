-- ===== src/Buffers/Ends.antt =====
-- The jobs of src/unix/unix_c/unix_readlink_job.c and src/unix/unix_c/unix_gethostname_job.c together.
use lwt.Base.{ℕ, suc, ◌*◌, ◌^◌, ◌<◌, ◌⊎◌}
use lwt.Heap.{Heap}
use lwt.Calls.{Bytes}
use lwt.Calls.Strings.{cut}
use lwt.Buffers.{
  ssize_limit, int_limit, started, Answer, worker_readlink, readlink_job, worker_gethostname,
  gethostname_job,
}
use lwt.Buffers.Readlink
use lwt.Buffers.Gethostname
use lwt.Buffers.Readlink.{readlink_ends}
use lwt.Buffers.Gethostname.{gethostname_ends}

-- The jobs for readlink and gethostname, from the stub to the result, end, with `k + 1` rounds at most
-- if the target has fewer than 1024 * 2 ^ k bytes and the host's name fewer than 64 * 2 ^ k: on the
-- path up to its first zero, they return the target or the name up to its first zero, or raise
-- `Unix_error` with what `free` left of the call's errno, and readlink with that path; the job is
-- freed, without being used afterwards, and no buffer stays in use. Conditions: the link and the
-- name do not change; `readlink` gives as much as fits, and `gethostname` the name with its zero if
-- that fits, or else the error that asks for more room; and these sizes are an `ssize_t` and an
-- `int`.
pub buffers_end :
    (free_errno : ℕ → ℕ) (enametoolong : ℕ) (readlink : (name : Bytes) (size : ℕ) → Answer)
    (gethostname : (size : ℕ) → Answer) (name : Bytes) (link host : ℕ ⊎ Bytes) (k : ℕ) (heap : Heap)
    → ((size : ℕ) → Readlink.Names size (readlink (cut name) size) link)
    → ((size : ℕ) → Gethostname.Names enametoolong size (gethostname size) host)
    → Readlink.needs link < 1024 * 2 ^ k
    → Gethostname.needs host < 64 * 2 ^ k
    → 1024 * 2 ^ k < ssize_limit
    → 64 * 2 ^ k < int_limit
    → Readlink.Ended free_errno readlink heap
        (Readlink.link_value free_errno readlink name link)
        (started (readlink_job name) (worker_readlink free_errno readlink (suc k) 1024) heap)
      × Gethostname.Ended free_errno enametoolong gethostname heap
          (Gethostname.host_value free_errno enametoolong gethostname host)
          (started gethostname_job
            (worker_gethostname free_errno enametoolong gethostname (suc k) 64)
            heap)
buffers_end free_errno enametoolong readlink gethostname name link host k heap links hosts h1 h2
      room1 room2 =
    (
      readlink_ends free_errno readlink name link k heap links h1 room1,
      gethostname_ends free_errno enametoolong gethostname host k heap hosts h2 room2,
    )
