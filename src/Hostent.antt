-- ===== src/Hostent.antt =====
-- src/unix/unix_c/unix_get_network_information_utils.c: the deep copy of a `struct hostent` with its
-- `goto` cleanup, its release, and the OCaml value built from it. A null pointer is `none`; a
-- null-terminated array is a list.
pub mod Copy
pub mod Enough
pub mod Jobs
pub mod JobLaws
pub mod Dup
pub mod Entry
use lwt.Base.{
  ℕ, suc, ◌+◌, Bool, true, false, List, [], ◌∷◌, Option, none, some, length, ltb, ◌==◌,
  if◌then◌else◌, take, Outcome, returned, fault,
}
use lwt.Heap.{Heap, malloc, free, free_all}

-- The bytes of a string without its final zero, or of an address.
abbrev pub Bytes : Type 0
Bytes = List ℕ

pub record Hostent : Type 0 where
  pub h_name : Option Bytes
  pub h_aliases : Option (List Bytes)
  pub h_addrtype : ℕ
  pub h_length : ℕ
  pub h_addr_list : Option (List Bytes)

-- The loop that fills the new array, with `i` blocks done: on a failure it frees these and the array.
unfoldable pub copy_each :
    (Bytes → Bytes) → List Bytes → (i : ℕ) → Heap → Option (List Bytes) × Heap
copy_each copy [] i h = (some [], h)
copy_each copy (s ∷ src) i h =
    let (ok, h1) = malloc h in
    let (rest, h2) = copy_each copy src (suc i) h1 in
    if ok
    then (elim rest [ none ↦ (none, h2) | some p ↦ (some (copy s ∷ p), h2) ])
    else (none, free (free_all i h1))

unfoldable pub copy_array :
    (Bytes → Bytes) → Option (List Bytes) → Heap → Option (List Bytes) × Heap
copy_array copy none h = (none, h)
copy_array copy (some src) h =
    let (ok, h1) = malloc h in if ok then copy_each copy src 0 h1 else (none, h1)

abbrev pub c_copy_addr_array :
    Option (List Bytes) → (addr_len : ℕ) → Heap → Option (List Bytes) × Heap
c_copy_addr_array src addr_len = copy_array (take addr_len) src

abbrev pub c_copy_string_array : Option (List Bytes) → Heap → Option (List Bytes) × Heap
c_copy_string_array src = copy_array (λ s. s) src

unfoldable pub c_free_string_array : Option (List Bytes) → Heap → Heap
c_free_string_array none h = h
c_free_string_array (some p) h = free (free_all (length p) h)

unfoldable pub s_strdup : Option Bytes → Heap → Option Bytes × Heap
s_strdup s h =
    let (ok, h1) = malloc h in
    if ok then (elim s [ none ↦ (some [], h1) | some b ↦ (some b, h1) ]) else (none, h1)

-- A pointer that is null in the original stays null, and that is no failure.
abbrev pub failed : Option (List Bytes) → Option (List Bytes) → Bool
failed (some src) none = true
failed _ _ = false

-- `hostent_dup` from its second array on, with `nomem3`.
unfoldable pub dup_addresses : Hostent → Bytes → Option (List Bytes) → Heap → Option Hostent × Heap
dup_addresses orig name aliases h =
    let (addrs, h1) = c_copy_addr_array orig.h_addr_list orig.h_length h in
    if failed orig.h_addr_list addrs
    then (none, free (free (c_free_string_array aliases h1)))
    else (
      some (record {
        h_name = some name;
        h_aliases = aliases;
        h_addrtype = orig.h_addrtype;
        h_length = orig.h_length;
        h_addr_list = addrs;
      }),
      h1,
    )

-- From its first array on, with `nomem2`.
unfoldable pub dup_aliases : Hostent → Bytes → Heap → Option Hostent × Heap
dup_aliases orig name h =
    let (aliases, h1) = c_copy_string_array orig.h_aliases h in
    if failed orig.h_aliases aliases
    then (none, free (free h1))
    else dup_addresses orig name aliases h1

unfoldable pub hostent_dup : Option Hostent → Heap → Option Hostent × Heap
hostent_dup none h = (none, h)
hostent_dup (some orig) h =
    let (ok, h1) = malloc h in
    if ok
    then (let (name, h2) = s_strdup orig.h_name h1 in
        elim name [ none ↦ (none, free h2) | some name ↦ dup_aliases orig name h2 ])
    else (none, h1)

unfoldable pub hostent_free : Option Hostent → Heap → Heap
hostent_free none h = h
hostent_free (some e) h =
    free (free (c_free_string_array e.h_aliases (c_free_string_array e.h_addr_list h)))

-- `PF_UNIX` and `PF_INET`; any other family counts as `PF_INET6`.
abbrev pub address_family : (pf_unix pf_inet : ℕ) → ℕ → ℕ
address_family pf_unix pf_inet f = if f == pf_unix then 0 else if f == pf_inet then 1 else 2

-- `alloc_one_addr` and `alloc_one_addr6`, of `n` bytes; `none` is a read past the address.
abbrev pub alloc_one_addr : (n : ℕ) → Bytes → Option Bytes
alloc_one_addr n a = if ltb (length a) n then none else some (take n a)

-- `caml_alloc_array` over the addresses.
unfoldable pub alloc_addrs : (n : ℕ) → List Bytes → Option (List Bytes)
alloc_addrs n [] = some []
alloc_addrs n (a ∷ more) =
    let rest = alloc_addrs n more in
    elim (alloc_one_addr n a) [
      | none ↦ none
      | some b ↦ elim rest [ none ↦ none | some bs ↦ some (b ∷ bs) ]
    ]

-- `Unix.host_entry`
pub record HostEntry : Type 0 where
  pub name : Bytes
  pub aliases : List Bytes
  pub addrtype : ℕ
  pub addr_list : List Bytes

abbrev pub addr_size : Hostent → ℕ
addr_size e = if e.h_length == 16 then 16 else 4

abbrev pub aliases_of : Option (List Bytes) → List Bytes
aliases_of none = []
aliases_of (some l) = l

module _ (pf_unix pf_inet : ℕ) where
  -- A null name or address list is followed all the same.
  unfoldable pub alloc_host_entry : Hostent → Outcome HostEntry
  alloc_host_entry e = elim e.h_name [
    | none ↦ fault
    | some n ↦ elim e.h_addr_list [
      | none ↦ fault
      | some l ↦ elim (alloc_addrs (addr_size e) l) [
        | none ↦ fault
        | some addrs ↦ returned (record {
          name = n;
          aliases = aliases_of e.h_aliases;
          addrtype = address_family pf_unix pf_inet e.h_addrtype;
          addr_list = addrs;
        })
      ]
    ]
  ]
