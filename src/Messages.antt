-- ===== src/Messages.antt =====
-- src/unix/unix_c/unix_recv_send_utils.c as compiled with `HAVE_FD_PASSING`: messages that carry file
-- descriptors beside their bytes. An `int` has four bytes. `CMSG_LEN` and `CMSG_SPACE` are parameters,
-- since the header and the alignment of a control message are the system's.
pub mod Passing
use mathlib.Core.Option
use lwt.Base.{
  ℕ, zero, suc, ◌+◌, ◌-◌, ◌*◌, ◌/◌, Bool, true, false, ◌&&◌, List, [], ◌∷◌, Option, none, some, ℤ,
  pos, int_val, is_minus_one, get_elem?, replicate, ltb, if◌then◌else◌, Exn, unix_error, Outcome,
  returned, raised, fault,
}

pub data Level : Type 0 where
  sol_socket : Level
  other_level : ℕ → Level

pub data Kind : Type 0 where
  scm_rights : Kind
  other_kind : ℕ → Kind

-- `struct cmsghdr`, with the integers from `CMSG_DATA` to the end of the buffer.
pub record Cmsg : Type 0 where
  pub cmsg_level : Level
  pub cmsg_type : Kind
  pub cmsg_len : ℕ
  pub cmsg_data : List ℤ

-- `struct msghdr` for `sendmsg`: `V` are the I/O vectors and `A` the addresses.
pub record Msghdr (V A : Type 0) : Type 0 where
  pub msg_iov : V
  pub msg_name : Option A
  pub control : Option Cmsg

-- The loop that writes the descriptors; past the end of the buffer is a fault.
unfoldable pub store_fds : List ℤ → List ℤ → Option (List ℤ)
store_fds [] cells = some cells
store_fds (fd ∷ fds) [] = none
store_fds (fd ∷ fds) (cell ∷ cells) = elim (store_fds fds cells) [
  | none ↦ none
  | some rest ↦ some (int_val fd ∷ rest)
]

-- The loop from the last descriptor down to the first, `i` of which are left.
unfoldable pub collect_fds : (fds : List ℤ) (i : ℕ) → List ℤ → Option (List ℤ)
collect_fds fds zero list = some list
collect_fds fds (suc i) list = elim (get_elem? fds i) [
  | none ↦ none
  | some x ↦ collect_fds fds i (x ∷ list)
]

-- The test of the loop over the control messages.
unfoldable pub carries_fds : Cmsg → Bool
carries_fds cm = elim cm.cmsg_level [
  | other_level n ↦ false
  | sol_socket ↦ elim cm.cmsg_type [ other_kind n ↦ false | scm_rights ↦ true ]
]

module _ (cmsg_len cmsg_space : ℕ → ℕ) where
  -- The buffer after `memset` and the header: as many integers fit behind it.
  abbrev pub empty_fds : (n_fds : ℕ) → List ℤ
  empty_fds n_fds = replicate ((cmsg_space (n_fds * 4) - cmsg_len 0) / 4) (pos 0)

  abbrev pub fds_message : (n_fds : ℕ) → List ℤ → Cmsg
  fds_message n_fds cells = record {
    cmsg_level = sol_socket;
    cmsg_type = scm_rights;
    cmsg_len = cmsg_len (n_fds * 4);
    cmsg_data = cells;
  }

  -- What `wrapper_send_msg` hands to `sendmsg`. `n_fds` comes from OCaml beside the list.
  unfoldable pub message :
      {V A : Type 0} → V → (n_fds : ℕ) (fds : List ℤ) (dest : Option A) → Option (Msghdr V A)
  message iovs n_fds fds dest =
      if ltb 0 n_fds
      then (elim (store_fds fds (empty_fds n_fds)) [
        | none ↦ none
        | some cells ↦
            some
              (record { msg_iov = iovs; msg_name = dest; control = some (fds_message n_fds cells) })
      ])
      else some (record { msg_iov = iovs; msg_name = dest; control = none })

  -- `get_sockaddr` is a parameter, and so is `sendmsg`.
  unfoldable pub wrapper_send_msg :
      {V A S W : Type 0} (get_sockaddr : S → A) (sendmsg : (fd : ℤ) → Msghdr V A → W → (ℤ × ℕ) × W)
      → (fd : ℤ) → V
      → (n_fds : ℕ) (fds : List ℤ) (dest : Option S) → W
      → Outcome ℤ × W
  wrapper_send_msg get_sockaddr sendmsg fd iovs n_fds fds dest w =
      elim (message iovs n_fds fds (Option.map get_sockaddr dest)) [
        | none ↦ (fault, w)
        | some msg ↦
            let (a, w') = sendmsg fd msg w in
            ((if is_minus_one a.0 then raised (unix_error a.1 "send_msg" "") else returned a.0), w')
      ]

  -- The descriptors of the first control message that has any.
  unfoldable pub received_fds : List Cmsg → Option (List ℤ)
  received_fds [] = some []
  received_fds (cm ∷ cms) =
      if carries_fds cm
      then collect_fds cm.cmsg_data ((cm.cmsg_len - cmsg_len 0) / 4) []
      else received_fds cms

  -- `recvmsg` fills the I/O vectors, and gives the control messages that fit into 256 descriptors.
  unfoldable pub wrapper_recv_msg :
      {V W : Type 0} (recvmsg : (fd : ℤ) → V → (controllen : ℕ) → W → (ℤ × ℕ) × List Cmsg × W)
      → (fd : ℤ) → V
      → W
      → Outcome (ℤ × List ℤ) × W
  wrapper_recv_msg recvmsg fd iovs w =
      let (a, cms, w') = recvmsg fd iovs (cmsg_space (256 * 4)) w in
      (
        (if is_minus_one a.0
            then raised (unix_error a.1 "recv_msg" "")
            else elim (received_fds cms) [ none ↦ fault | some fds ↦ returned (a.0, fds) ]),
        w',
      )
