-- ===== src/Calls/TwoPaths.antt =====
-- src/unix/unix_c/unix_link_job.c, unix_rename_job.c and unix_symlink_job.c: calls of two paths, which
-- lie one behind the other.
use lwt.Base.{ℕ, ◌+◌, is_negative, length, Outcome, returned, raised, fault}
use lwt.Calls.{
  Bytes, CallJob, new_plus, string_val, memcpy, Sys, Worker, Result, perform, with_string,
  check_job_arg, free_job,
}

pub record TwoPaths : Type 0 where
  pub oldpath : ℕ
  pub newpath : ℕ

-- The second `memcpy`, if the first was one.
abbrev pub then_copy : (at : ℕ) → Bytes → Outcome (CallJob TwoPaths) → Outcome (CallJob TwoPaths)
then_copy at src created = elim created [
  | returned job ↦ memcpy at src job
  | raised e ↦ raised e
  | fault ↦ fault
]

-- `struct job_link`
abbrev pub JobLink : Type 0
JobLink = CallJob TwoPaths

unfoldable pub worker_link :
    {W : Type 0} (link : (oldpath newpath : Bytes) → Sys W) → Worker TwoPaths W
worker_link link job =
    with_string job.args.oldpath
      (λ oldpath. with_string job.args.newpath (λ newpath. perform (link oldpath newpath))) job

unfoldable pub result_link : Result TwoPaths (Unit {0})
result_link = check_job_arg is_negative "link" (λ a. a.oldpath) free_job

unfoldable pub link_job : (oldpath newpath : Bytes) → Outcome JobLink
link_job oldpath newpath =
    let len_oldpath = length oldpath + 1 in
    let len_newpath = length newpath + 1 in
    let job =
      new_plus (len_oldpath + len_newpath) (record { oldpath = 0; newpath = len_oldpath }) in
    then_copy len_oldpath (string_val newpath) (memcpy 0 (string_val oldpath) job)

-- `struct job_rename`
abbrev pub JobRename : Type 0
JobRename = CallJob TwoPaths

unfoldable pub worker_rename :
    {W : Type 0} (rename : (oldpath newpath : Bytes) → Sys W) → Worker TwoPaths W
worker_rename rename job =
    with_string job.args.oldpath
      (λ oldpath. with_string job.args.newpath (λ newpath. perform (rename oldpath newpath))) job

unfoldable pub result_rename : Result TwoPaths (Unit {0})
result_rename = check_job_arg is_negative "rename" (λ a. a.oldpath) free_job

unfoldable pub rename_job : (oldpath newpath : Bytes) → Outcome JobRename
rename_job oldpath newpath =
    let len_oldpath = length oldpath + 1 in
    let len_newpath = length newpath + 1 in
    let job =
      new_plus (len_oldpath + len_newpath) (record { oldpath = 0; newpath = len_oldpath }) in
    then_copy len_oldpath (string_val newpath) (memcpy 0 (string_val oldpath) job)

-- `struct job_symlink`
abbrev pub JobSymlink : Type 0
JobSymlink = CallJob TwoPaths

unfoldable pub worker_symlink :
    {W : Type 0} (symlink : (oldpath newpath : Bytes) → Sys W) → Worker TwoPaths W
worker_symlink symlink job =
    with_string job.args.oldpath
      (λ oldpath. with_string job.args.newpath (λ newpath. perform (symlink oldpath newpath))) job

unfoldable pub result_symlink : Result TwoPaths (Unit {0})
result_symlink = check_job_arg is_negative "symlink" (λ a. a.oldpath) free_job

unfoldable pub symlink_job : (oldpath newpath : Bytes) → Outcome JobSymlink
symlink_job oldpath newpath =
    let len_oldpath = length oldpath + 1 in
    let len_newpath = length newpath + 1 in
    let job =
      new_plus (len_oldpath + len_newpath) (record { oldpath = 0; newpath = len_oldpath }) in
    then_copy len_oldpath (string_val newpath) (memcpy 0 (string_val oldpath) job)
