-- ===== src/Hostent/Entry.antt =====
-- The OCaml value of a copied host entry, by `alloc_host_entry` of
-- src/unix/unix_c/unix_get_network_information_utils.c.
use lwt.Base.{
  ℕ, zero, suc, ◌≤◌, List, [], ◌∷◌, map, Option, none, some, length, take, ◌≡◌, ◌≢◌, refl, ap,
  subst, ◌∙◌, arith, Bool-cases, Option-cases, inl, inr, ltb, length-take, ltb→lt, lt→ltb, le→ltb,
}
use lwt.Heap.{Heap}
use lwt.Hostent.{
  Bytes, Hostent, alloc_one_addr, alloc_addrs, addr_size, alloc_host_entry, hostent_dup,
}
use lwt.Hostent.Copy.{copied, name_of, DupResult}
use lwt.Hostent.Dup.{hostent_dup-DupResult}

take-take_le : (n m : ℕ) (a : Bytes) → n ≤ m → take n (take m a) ≡ take n a
take-take_le zero m a h = refl
take-take_le (suc n) zero a h = absurd (omega arith)
take-take_le (suc n) (suc m) [] h = refl
take-take_le (suc n) (suc m) (x ∷ a) h = ap (λ r. x ∷ r) (take-take_le n m a (omega arith))

one-take : (n m : ℕ) (a : Bytes) → n ≤ m → alloc_one_addr n (take m a) ≡ alloc_one_addr n a
one-take n m a h = elim (Bool-cases (ltb (length a) n)) [
  | inl short ↦ rw short (
      rw (lt→ltb (length (take m a)) n (omega (arith, length-take m a, ltb→lt (length a) n short)))
        refl)
  | inr long ↦ rw long (
      rw (le→ltb (length (take m a)) n (ground (arith, length-take m a)))
        (ap some (take-take_le n m a h)))
]

addrs-take : (n m : ℕ) (l : List Bytes) → n ≤ m → alloc_addrs n (map (take m) l) ≡ alloc_addrs n l
unfolding alloc_addrs
addrs-take n m [] h = refl
addrs-take n m (a ∷ l) h =
    ap (λ r. extend r (alloc_addrs n (map (take m) l))) (one-take n m a h)
    ∙ ap (extend (alloc_one_addr n a)) (addrs-take n m l h)
  where
    extend : Option Bytes → Option (List Bytes) → Option (List Bytes)
    extend first rest = elim first [
      | none ↦ none
      | some b ↦ elim rest [ none ↦ none | some bs ↦ some (b ∷ bs) ]
    ]

module _ (pf_unix pf_inet : ℕ) where
  pub copied-alloc :
      (o : Hostent)
      → o.h_name ≢ none
      → addr_size o ≤ o.h_length
      → alloc_host_entry pf_unix pf_inet (copied o) ≡ alloc_host_entry pf_unix pf_inet o
  unfolding alloc_host_entry
  copied-alloc o named fits = elim (Option-cases o.h_name) [
    | inl null ↦ absurd (named null)
    | inr (name, n) ↦ elim (Option-cases o.h_addr_list) [
      | inl null ↦ ground arith
      | inr (l, a) ↦
          rw (n, a, alloc_host_entry)
            (rw (addrs-take (addr_size o) o.h_length l fits)
              (elim (Option-cases (alloc_addrs (addr_size o) l)) [
                | inl short ↦ rw short refl
                | inr (addrs, read) ↦ rw read (rw (ap name_of n) refl)
              ]))
    ]
  ]

  -- A host entry that `hostent_dup` copied gives the same OCaml value as the original. Conditions:
  -- the original has a name, and its `h_length` is the number of bytes that `alloc_host_entry` reads
  -- of an address (16 for a length of 16, else 4) or more.
  pub dup-alloc :
      (o c : Hostent) (h h' : Heap)
      → o.h_name ≢ none
      → addr_size o ≤ o.h_length
      → hostent_dup (some o) h ≡ (some c, h')
      → alloc_host_entry pf_unix pf_inet c ≡ alloc_host_entry pf_unix pf_inet o
  dup-alloc o c h h' named fits e =
      let copy = subst (λ r. DupResult o h r.0 r.1) e (hostent_dup-DupResult o h) in
      ap (alloc_host_entry pf_unix pf_inet) copy.0 ∙ copied-alloc o named fits
