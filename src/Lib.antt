-- ===== src/Lib.antt =====
-- Lwt, cooperative threads for OCaml: the C runtime below `Lwt_unix`, in src/unix.
--
-- A system call that may block becomes a job. `lwt_unix_start_job` hands it to a pool of POSIX
-- threads; the worker runs it, marks it as done and, if the main thread has stopped waiting, sends a
-- notification. Notifications are ids in a buffer, with a descriptor on which the main loop is
-- woken; signal handlers send them too. The stubs of src/unix/unix_c are the jobs: each has a worker,
-- which makes the system call, and a result function, which frees the job and gives an OCaml value
-- or an exception. The files, one component each:
--
--   Notify    src/unix/lwt_unix_stubs.c, "Notifications": `send_notification`, `recv_notifications` and
--             `init_notification` on the static variables (`Notify`) and a `Kernel`. Its children:
--             Buffer and Wake (one call each), Delivery (sending and receiving), Schedule (any
--             sequence of both), Startup and Restart (the first start, and later ones).
--   Job       src/unix/lwt_unix.h, `struct lwt_unix_job`, and the functions of lwt_unix_stubs.c on one
--             job; Handshake interleaves its two threads as a step relation, and Once is about it.
--   Pool      the thread pool of lwt_unix_stubs.c: the circular queue, the counters, the critical
--             sections of `lwt_unix_start_job` and of `worker_loop`; System interleaves them with changes
--             of the pool's size, Bound is about the number of threads, and Start about one call of
--             `lwt_unix_start_job`.
--   Signal    the table of signals of lwt_unix_stubs.c, whose handler sends by `Notify`.
--   Termios   src/unix/unix_c/unix_termios_conversion.c, and in Jobs the two jobs that use it.
--   Hostent   src/unix/unix_c/unix_get_network_information_utils.c, on a heap that may run out (Heap);
--             Jobs is unix_gethostbyname_job.c and unix_gethostbyaddr_job.c.
--   Readdir   src/unix/unix_c/unix_readdir_n_job.c, on the same heap.
--   Libev     src/unix/lwt_libev_stubs.c, over libev as a parameter: the watchers and the rounds of the
--             loop, Backend for the start of a loop; Engine and Commands are about sequences of calls.
--   Lockf     src/unix/unix_c/unix_lockf_job.c.
--   Transfer  the jobs for read, pread, write and pwrite in src/unix/unix_c.
--   Vectors   the jobs for writev and readv and src/unix/unix_c/unix_readv_writev_utils.c; Gather is
--             about the one, Scatter and ShortRead about the other.
--   Calls     the jobs of src/unix/unix_c that make one call: chdir, chroot, rmdir and unlink (Path),
--             mkdir, mkfifo, chmod, chown and truncate (PathNumbers), link, rename and symlink
--             (TwoPaths), close, fsync and others on a descriptor (Descriptor), lseek, open, stat and its
--             kin (Stat), those on a directory stream (Directory, and Batch against readdir_n), those with
--             a buffer of fixed size (Fixed), and isatty, bind, access, utimes and others (Query); with the
--             macros of src/unix/lwt_unix.h. Contract says what such a job is to do.
--   Buffers   the jobs for readlink and gethostname, which enlarge a buffer.
--   Lookup    src/unix/unix_c/unix_get_pw_gr_nam_id_job.c (Passwd), and
--             src/unix/unix_c/unix_getprotoby_getservby_job.c, with the calls ending in `_r` (Network) and
--             without them (Copies).
--   Messages  src/unix/unix_c/unix_recv_send_utils.c: messages that carry descriptors.
--   Getaddrinfo  src/unix/unix_c/unix_getaddrinfo_job.c.
--   Base      lists, numbers and results that these share; Tests has runs at concrete inputs.
--
-- How the code is read. A C function is a function from the static variables that it uses to what it
-- leaves and returns; `Outcome` tells an OCaml value, an OCaml exception and undefined behaviour
-- apart. What runs between a lock and an unlock is one step of a step relation. System calls and
-- libc are parameters (`Kernel`, `LibC`, `Files`, functions), with what is relied on as named laws.
-- Numbers are unbounded, since the counters that grow (notifications, threads) are bounded by memory; a
-- flag word is its list of bits, and a control character is taken modulo 256. What a stub of Calls, the
-- conversion of a terminal or `lwt_unix_set_pool_size` converts with `Int_val` or `Val_int` keeps its
-- wrap-around (`int_val`, `val_long`), and the buffer sizes of readlink and gethostname may not
-- overflow.
-- Strings that a job copies lie in its block, where a cell that was not written is told apart, so a
-- copy past the end, a missing zero and a use after the release are faults.
-- Loops are structural recursion on the list or the count that they run over, so no fuel is needed,
-- but for those that enlarge a buffer, where fuel is the number of rounds, and the calls of libev's
-- callbacks, where it is their number; the theorems say how much is enough. The loop of
-- `lwt_unix_recv_notifications` runs over the list of sends that come while it has given up the mutex,
-- and ends with the first round in which none comes.
--
-- Not modelled: the Windows variants; libev itself, and the stubs that only pass on to it; the pthread
-- wrappers; the stubs that make one call without a job; the job for wait_mincore, which only touches
-- a page; and all of the OCaml code.
pub mod Base
pub mod Notify
pub mod Job
pub mod Pool
pub mod Signal
pub mod Termios
pub mod Heap
pub mod Hostent
pub mod Readdir
pub mod Libev
pub mod Lockf
pub mod Transfer
pub mod Calls
pub mod Buffers
pub mod Lookup
pub mod Getaddrinfo
pub mod Messages
pub mod Vectors
mod Tests
