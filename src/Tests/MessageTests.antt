-- ===== src/Tests/MessageTests.antt =====
-- Descriptors passed between processes (src/unix/unix_c/unix_recv_send_utils.c), at concrete inputs.
use lwt.Base.{
  ℕ, zero, suc, ◌+◌, ◌*◌, ◌/◌, ◌≤◌, List, [], ◌∷◌, map, take, Option, none, some, ℤ, pos, negsuc,
  int_val, ◌≡◌, refl, ap, arith, returned, fault,
}
use lwt.Messages.{Cmsg, Msghdr, store_fds, wrapper_send_msg, wrapper_recv_msg, message, carries_fds}
use lwt.Messages.Passing.{Sizes, Arrives, recv_msg-send_msg}
use lwt.Calls.{Bytes}
use lwt.Calls.Strings.{cut}
use lwt.Lookup.PasswdLaws.{worked}
use lwt.Getaddrinfo
use lwt.Getaddrinfo.Laws.{Resolves, meaning, getaddrinfo-Resolves}

-- The sizes of Linux on 64 bits.
abbrev linux_len : ℕ → ℕ
linux_len n = 16 + n

abbrev linux_space : ℕ → ℕ
linux_space n = 16 + (n + 7) / 8 * 8

linux-Sizes : Sizes linux_len linux_space 16
linux-Sizes n = (refl, omega arith)

abbrev renumber : ℤ → ℤ
renumber (pos n) = pos (n + 100)
renumber (negsuc n) = negsuc n

abbrev renumbered : Option Cmsg → List Cmsg
renumbered none = []
renumbered (some cm) = record cm { cmsg_data = map renumber cm.cmsg_data } ∷ []

-- The system is what waits at the receiver.
abbrev sends : ℤ → Msghdr ℕ ℕ → List Cmsg → (ℤ × ℕ) × List Cmsg
sends fd msg w = ((pos 1, 0), renumbered msg.control)

abbrev receives : ℤ → ℕ → ℕ → List Cmsg → (ℤ × ℕ) × List Cmsg × List Cmsg
receives fd iovs controllen w = ((pos 1, 0), w, [])

take-map : (f : ℤ → ℤ) (n : ℕ) (xs : List ℤ) → take n (map f xs) ≡ map f (take n xs)
take-map f zero xs = refl
take-map f (suc n) [] = refl
take-map f (suc n) (x ∷ xs) = ap (λ r. f x ∷ r) (take-map f n xs)

abbrev two_fds : List ℤ
two_fds = pos 3 ∷ pos 7 ∷ []

passes :
    (msg : Msghdr ℕ ℕ) (cm : Cmsg)
    → msg.control ≡ some cm
    → cm.cmsg_len ≤ linux_space 1024
    → Arrives linux_len linux_space 16 linux-Sizes two_fds renumber cm
        (receives (pos 4) 0 (linux_space 1024) (sends (pos 5) msg []).1)
unfolding carries_fds
passes msg cm e le = (
  refl,
  (
    [],
    record cm { cmsg_data = map renumber cm.cmsg_data },
    [],
    ap renumbered e,
    tt,
    (refl, refl, take-map renumber _ cm.cmsg_data),
  ),
)

abbrev after_send : List ℤ → List Cmsg
after_send fds =
    (wrapper_send_msg linux_len linux_space (λ (a : ℕ). a) sends (pos 5) 0 2 fds none []).1

recv_msg-send_msg_example :
    (wrapper_recv_msg linux_len linux_space receives (pos 4) 0 (after_send two_fds)).0
    ≡ returned (pos 1, map renumber (map int_val two_fds))
recv_msg-send_msg_example =
    recv_msg-send_msg linux_len linux_space 16 linux-Sizes two_fds (λ (a : ℕ). a) sends receives
      renumber (pos 5) (pos 4) 0 0 none [] (omega arith) (omega arith) passes

-- A list longer than the number beside it runs over the buffer.
too_many :
    (wrapper_send_msg linux_len linux_space
      (λ (a : ℕ). a)
      sends
      (pos 5)
      0
      1
      (pos 3 ∷ pos 7 ∷ pos 8 ∷ [])
      none
      []).0
    ≡ fault
unfolding wrapper_send_msg message store_fds
too_many = refl

-- `PF_UNIX`, `PF_INET` and `PF_INET6`, and the socket types, of Linux.
abbrev linux : Getaddrinfo.Constants
linux = record {
  pf_unspec = 0;
  numerichost = 4;
  canonname = 2;
  passive = 1;
  socket_domain_table = 1 ∷ 2 ∷ 10 ∷ [];
  socket_type_table = 1 ∷ 2 ∷ 3 ∷ 5 ∷ [];
}

abbrev v4 : Getaddrinfo.Addrinfo
v4 = record {
  ai_family = 2;
  ai_socktype = 1;
  ai_protocol = pos 6;
  ai_addr = 2 ∷ 0 ∷ 0 ∷ 80 ∷ [];
  ai_canonname = some (108 ∷ []);
}

abbrev v6 : Getaddrinfo.Addrinfo
v6 = record v4 { ai_family = 10; ai_canonname = none }

-- -2 is `EAI_NONAME`.
abbrev resolver : Getaddrinfo.Getaddrinfo
resolver none service hints = (negsuc 1, none)
resolver (some node) service hints = (pos 0, some (v6 ∷ v4 ∷ []))

abbrev host : Bytes
host = 108 ∷ 0 ∷ []

abbrev hints : List Getaddrinfo.Hint
hints = Getaddrinfo.ai_passive ∷ Getaddrinfo.ai_socktype 1 ∷ []

abbrev parsed : Getaddrinfo.Hints
parsed = record { ai_flags = 1; ai_family = 0; ai_socktype = 2; ai_protocol = pos 0 }

getaddrinfo-Resolves_example :
    Resolves
      (resolver (some (108 ∷ [])) none parsed)
      (meaning linux 110 (λ (s : Bytes). s))
      (worked
        (Getaddrinfo.getaddrinfo_job linux host [] hints)
        (Getaddrinfo.worker_getaddrinfo resolver))
      (Getaddrinfo.result_getaddrinfo linux 110 (λ (s : Bytes). s))
unfolding cut
getaddrinfo-Resolves_example =
    getaddrinfo-Resolves linux 110 (λ s. s) resolver host [] hints refl refl (omega arith, tt)
