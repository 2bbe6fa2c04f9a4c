-- ===== src/Messages/Passing.antt =====
-- Descriptors that one process sends and another receives (src/unix/unix_c/unix_recv_send_utils.c).
use mathlib.Core.Option
use lwt.Base.{
  ℕ, zero, suc, ◌+◌, ◌-◌, ◌*◌, ◌/◌, ◌≤◌, ◌<◌, true, false, List, [], ◌∷◌, ◌++◌, map, append-nil,
  append_assoc, Option, some, ℤ, pos, int_val, is_minus_one, get_elem?, length, take, drop,
  take_all, take-append_left, length-take, length-map, length-replicate, lt→ltb, returned, ◌≡◌,
  refl, ◌∙◌, ap, sym, subst, arith,
}
use lwt.Messages.{
  Cmsg, Msghdr, store_fds, collect_fds, carries_fds, empty_fds, fds_message, message,
  wrapper_send_msg, received_fds, wrapper_recv_msg,
}

element_at :
    {A : Type 0} (xs : List A) (i : ℕ)
    → i < length xs
    → (x : A) × (get_elem? xs i ≡ some x) × (take (suc i) xs ≡ take i xs ++ x ∷ [])
element_at [] i h = absurd (omega arith)
element_at (y ∷ xs) zero h = (y, refl, refl)
element_at (y ∷ xs) (suc i) h =
    let (x, e, t) = element_at xs i (omega arith) in (x, e, ap (λ r. y ∷ r) t)

-- The loop puts the descriptors into the list in their order.
collect_fds-take :
    (fds : List ℤ) (i : ℕ) (list : List ℤ)
    → i ≤ length fds
    → collect_fds fds i list ≡ some (take i fds ++ list)
unfolding collect_fds
collect_fds-take fds zero list h = refl
collect_fds-take fds (suc i) list h =
    let (x, e, t) = element_at fds i h in
    rw (e, t, append_assoc (take i fds) (x ∷ []) list, collect_fds)
      (collect_fds-take fds i (x ∷ list) (omega arith))

store_fds-append :
    (fds cells : List ℤ)
    → length fds ≤ length cells
    → store_fds fds cells ≡ some (map int_val fds ++ drop (length fds) cells)
unfolding store_fds
store_fds-append [] cells h = refl
store_fds-append (fd ∷ fds) [] h = absurd (omega arith)
store_fds-append (fd ∷ fds) (cell ∷ cells) h = rw (store_fds-append fds cells (omega arith))

-- No control message of the list carries descriptors.
abbrev pub Without : List Cmsg → Type 0
Without [] = Unit {0}
Without (cm ∷ cms) = (carries_fds cm ≡ false) × Without cms

module _ (cmsg_len cmsg_space : ℕ → ℕ) where
  -- How many descriptors a control message has.
  abbrev pub count : Cmsg → ℕ
  count cm = (cm.cmsg_len - cmsg_len 0) / 4

  -- What the kernel makes of a control message: the descriptors become new ones of the receiver.
  abbrev pub Delivers : (dup : ℤ → ℤ) → Cmsg → Cmsg → Type 0
  Delivers dup cm cm' =
      (carries_fds cm' ≡ carries_fds cm)
      × (cm'.cmsg_len ≡ cm.cmsg_len)
      × (take (count cm) cm'.cmsg_data ≡ map dup (take (count cm) cm.cmsg_data))

  received_fds-skip :
      (others : List Cmsg) (cm : Cmsg) (rest : List Cmsg)
      → Without others
      → carries_fds cm ≡ true
      → count cm ≤ length cm.cmsg_data
      → received_fds cmsg_len cmsg_space (others ++ cm ∷ rest) ≡ some (take (count cm) cm.cmsg_data)
  unfolding received_fds
  received_fds-skip [] cm rest w c h =
      rw (
        c,
        collect_fds-take cm.cmsg_data (count cm) [] h,
        append-nil (take (count cm) cm.cmsg_data),
      )
  received_fds-skip (o ∷ others) cm rest w c h = rw w.0 (received_fds-skip others cm rest w.1 c h)

  -- The sizes that CMSG(3) documents: a header, then the bytes; and room for at least that.
  abbrev pub Sizes : (header : ℕ) → Type 0
  Sizes header = (n : ℕ) → (cmsg_len n ≡ header + n) × (header + n ≤ cmsg_space n)

  module _ (header : ℕ) (sizes : Sizes header) (fds : List ℤ) where
    -- The message is made, and has the descriptors.
    message_fds :
        0 < length fds
        → {V A : Type 0} (iovs : V) (dest : Option A)
        → (cells : List ℤ) × (message cmsg_len cmsg_space iovs (length fds) fds dest
            ≡ some (record {
              msg_iov = iovs;
              msg_name = dest;
              control = some (fds_message cmsg_len cmsg_space (length fds) cells);
            }))
          × (take (length fds) cells ≡ map int_val fds)
    unfolding message
    message_fds h iovs dest =
        let room : length fds ≤ length (empty_fds cmsg_len cmsg_space (length fds)) = omega (
          arith,
          length-replicate ((cmsg_space (length fds * 4) - cmsg_len 0) / 4) (pos 0),
          (sizes (length fds * 4)).1,
          (sizes 0).0,
        ) in
        let stored = map int_val fds in
        let rest = drop (length fds) (empty_fds cmsg_len cmsg_space (length fds)) in
        let same : length stored ≡ length fds = length-map fds int_val in
        (
          stored ++ rest,
          rw (lt→ltb _ _ h, store_fds-append fds _ room),
          take-append_left (length fds) stored rest (omega (arith, same))
              ∙ take_all (length fds) stored (omega (arith, same)),
        )

    counted :
        (cells : List ℤ) → count (fds_message cmsg_len cmsg_space (length fds) cells) ≡ length fds
    counted cells = omega (arith, (sizes (length fds * 4)).0, (sizes 0).0)

    -- What arrives with `got`: the control message, after others that carry no descriptors.
    abbrev pub Arrives : {W : Type 0} → (dup : ℤ → ℤ) → Cmsg → (ℤ × ℕ) × List Cmsg × W → Type 0
    Arrives dup cm got =
        (is_minus_one got.0.0 ≡ false)
        × ((others : List Cmsg) × (cm' : Cmsg) × (rest : List Cmsg) × (got.1 ≡ others ++ cm' ∷ rest)
            × Without others
            × Delivers dup cm cm')

    received :
        {W : Type 0} (dup : ℤ → ℤ) (cells : List ℤ) (got : (ℤ × ℕ) × List Cmsg × W)
        → take (length fds) cells ≡ map int_val fds
        → Arrives dup (fds_message cmsg_len cmsg_space (length fds) cells) got
        → received_fds cmsg_len cmsg_space got.1 ≡ some (map dup (map int_val fds))
    unfolding carries_fds
    received dup cells got kept (ok, (others, cm', rest, e, w, (c, l, d))) =
        let n : count cm' ≡ length fds = ap (λ (k : ℕ). (k - cmsg_len 0) / 4) l ∙ counted cells in
        let same : take (length fds) cm'.cmsg_data ≡ map dup (map int_val fds) =
          (rw (counted cells, kept) at d) in
        let room : count cm' ≤ length cm'.cmsg_data = omega (
          arith,
          n,
          ap length same,
          length-take (length fds) cm'.cmsg_data,
          length-map (map int_val fds) dup,
          length-map fds int_val,
        ) in
        rw e (received_fds-skip others cm' rest w c room ∙ rw n (ap some same))

    receives :
        {V W : Type 0} (recvmsg : (fd : ℤ) → V → (controllen : ℕ) → W → (ℤ × ℕ) × List Cmsg × W)
        (dup : ℤ → ℤ) (cells : List ℤ) (r : ℤ) (iovs : V) (w : W)
        → take (length fds) cells ≡ map int_val fds
        → Arrives dup
            (fds_message cmsg_len cmsg_space (length fds) cells)
            (recvmsg r iovs (cmsg_space (256 * 4)) w)
        → (wrapper_recv_msg cmsg_len cmsg_space recvmsg r iovs w).0
          ≡ returned ((recvmsg r iovs (cmsg_space (256 * 4)) w).0.0, map dup (map int_val fds))
    unfolding wrapper_recv_msg
    receives recvmsg dup cells r iovs w kept arrived =
        let got = recvmsg r iovs (cmsg_space (256 * 4)) w in
        rw (arrived.0, received dup cells got kept arrived)

    -- Descriptors that `wrapper_send_msg` sends with a message are those that `wrapper_recv_msg`
    -- gives for that message, in their order and each as the system renumbers it. Conditions: there
    -- are 1 to 256 of them, their number is given right; `CMSG_LEN` adds the size of a header and
    -- `CMSG_SPACE` is no less; and what is sent with a control message that fits arrives with it,
    -- the first with descriptors.
    pub recv_msg-send_msg :
        {V A S W : Type 0} (get_sockaddr : S → A)
        (sendmsg : (fd : ℤ) → Msghdr V A → W → (ℤ × ℕ) × W)
        (recvmsg : (fd : ℤ) → V → (controllen : ℕ) → W → (ℤ × ℕ) × List Cmsg × W) (dup : ℤ → ℤ)
        (s r : ℤ) (iovs iovs' : V) (dest : Option S) (w : W)
        → 0 < length fds
        → length fds ≤ 256
        → ((msg : Msghdr V A) (cm : Cmsg)
            → msg.control ≡ some cm
            → cm.cmsg_len ≤ cmsg_space (256 * 4)
            → Arrives dup cm (recvmsg r iovs' (cmsg_space (256 * 4)) (sendmsg s msg w).1))
        → let w' =
            (wrapper_send_msg cmsg_len cmsg_space get_sockaddr sendmsg s iovs
              (length fds)
              fds
              dest
              w).1 in
          (wrapper_recv_msg cmsg_len cmsg_space recvmsg r iovs' w').0
          ≡ returned ((recvmsg r iovs' (cmsg_space (256 * 4)) w').0.0, map dup (map int_val fds))
    unfolding wrapper_send_msg wrapper_recv_msg
    recv_msg-send_msg get_sockaddr sendmsg recvmsg dup s r iovs iovs' dest w some_fds few passes =
        let (cells, made, kept) = message_fds some_fds iovs (Option.map get_sockaddr dest) in
        let cm = fds_message cmsg_len cmsg_space (length fds) cells in
        let msg : Msghdr _ _ = record {
          msg_iov = iovs;
          msg_name = Option.map get_sockaddr dest;
          control = some cm;
        } in
        let arrived =
          passes msg cm refl (omega (arith, (sizes (length fds * 4)).0, (sizes 1024).1)) in
        let sent : (wrapper_send_msg cmsg_len cmsg_space get_sockaddr sendmsg s iovs (length fds)
              fds dest w).1
            ≡ (sendmsg s msg w).1 =
          rw (made, wrapper_send_msg) in
        receives recvmsg dup cells r iovs' _ kept (
          subst (λ x. Arrives dup cm (recvmsg r iovs' (cmsg_space (256 * 4)) x)) (sym sent) arrived)
