-- ===== src/Getaddrinfo.antt =====
-- src/unix/unix_c/unix_getaddrinfo_job.c. `getaddrinfo` gives a linked list, here a list, and null is
-- the list that is not there; the socket address is copied whole, up to the size of the union that
-- it is copied to. The tables of socket domains and types are those of OCaml's runtime.
pub mod Meaning
pub mod Laws
use Prim.Native.Nat.{bit_or}
use lwt.Base.{
  ℕ, zero, suc, ◌+◌, ◌-◌, ◌==◌, Bool, true, false, List, [], ◌∷◌, Option, none, some, ℤ, pos,
  negsuc, int_val, get_elem?, length, take, drop, min, if◌then◌else◌, Outcome, returned, raised,
  fault,
}
use lwt.Calls.{
  Bytes, CallJob, Result, ◌>>=◌, ◌>>◌, returning, field, free_job, new_plus, string_val, memcpy,
  c_string,
}

-- `struct addrinfo`, less the flags of a result.
pub record Addrinfo : Type 0 where
  pub ai_family : ℕ
  pub ai_socktype : ℕ
  pub ai_protocol : ℤ
  pub ai_addr : Bytes
  pub ai_canonname : Option Bytes

-- The fields of `hints` that the stub sets.
pub record Hints : Type 0 where
  pub ai_flags : ℕ
  pub ai_family : ℕ
  pub ai_socktype : ℕ
  pub ai_protocol : ℤ

-- `Unix.getaddrinfo_option`; domains and types are the indices of their constructors.
pub data Hint : Type 0 where
  ai_family ai_socktype : (index : ℕ) → Hint
  ai_protocol : ℤ → Hint
  ai_numerichost ai_canonname ai_passive : Hint

-- `struct job_getaddrinfo`; `infos` counts the lists that `getaddrinfo` allocated and nobody freed.
pub record GetaddrinfoArgs : Type 0 where
  pub node : ℕ
  pub service : ℕ
  pub hints : Hints
  pub info : Option (List Addrinfo)
  pub infos : ℕ
  pub code : Option ℤ

-- `Unix.addr_info`; `S` are OCaml's socket addresses.
pub record AddrInfo (S : Type 0) : Type 0 where
  pub family : ℕ
  pub socktype : ℕ
  pub protocol : ℤ
  pub addr : S
  pub canonname : Bytes

-- The loop of `cst_to_constr` from an index on, with `size` entries left.
unfoldable pub constr_from : (n : ℕ) (table : List ℕ) (size i default : ℕ) → Option ℕ
constr_from n table zero i default = some default
constr_from n [] (suc size) i default = none
constr_from n (x ∷ table) (suc size) i default =
    let rest = constr_from n table size (suc i) default in if n == x then some i else rest

unfoldable pub cst_to_constr : (n : ℕ) (table : List ℕ) (size default : ℕ) → Option ℕ
unfolding constr_from
cst_to_constr n table size default = constr_from n table size 0 default

pub record Constants : Type 0 where
  pub pf_unspec : ℕ
  pub numerichost : ℕ
  pub canonname : ℕ
  pub passive : ℕ
  pub socket_domain_table : List ℕ
  pub socket_type_table : List ℕ

module _ (c : Constants) where
  -- One option of the loop over the hints; an index outside a table is a fault.
  unfoldable pub add_hint : Hint → Hints → Option Hints
  add_hint (ai_family i) h = elim (get_elem? c.socket_domain_table i) [
    | none ↦ none
    | some x ↦ some (record h { ai_family = x })
  ]
  add_hint (ai_socktype i) h = elim (get_elem? c.socket_type_table i) [
    | none ↦ none
    | some x ↦ some (record h { ai_socktype = x })
  ]
  add_hint (ai_protocol n) h = some (record h { ai_protocol = int_val n })
  add_hint ai_numerichost h = some (record h { ai_flags = bit_or h.ai_flags c.numerichost })
  add_hint ai_canonname h = some (record h { ai_flags = bit_or h.ai_flags c.canonname })
  add_hint ai_passive h = some (record h { ai_flags = bit_or h.ai_flags c.passive })

  unfoldable pub add_hints : List Hint → Hints → Option Hints
  add_hints [] h = some h
  add_hints (hint ∷ hints) h = elim (add_hint hint h) [ none ↦ none | some h' ↦ add_hints hints h' ]

  -- After `memset`.
  abbrev pub no_hints : Hints
  no_hints = record { ai_flags = 0; ai_family = c.pf_unspec; ai_socktype = 0; ai_protocol = pos 0 }

  unfoldable pub getaddrinfo_job :
      (node service : Bytes) (hints : List Hint) → Outcome (CallJob GetaddrinfoArgs)
  getaddrinfo_job node service hints =
      let len1 = length node in
      let len2 = length service in
      let args : Hints → GetaddrinfoArgs = λ h. record {
        node = 0;
        service = len1 + 1;
        hints = h;
        info = none;
        infos = 0;
        code = none;
      } in
      elim (add_hints hints no_hints) [
        | none ↦ fault
        | some h ↦ elim (memcpy 0 (string_val node) (new_plus (len1 + len2 + 2) (args h))) [
          | returned job ↦ memcpy (len1 + 1) (string_val service) job
          | raised e ↦ raised e
          | fault ↦ fault
        ]
      ]

-- An empty string is no string, for `getaddrinfo`.
abbrev pub non_empty : Bytes → Option Bytes
non_empty [] = none
non_empty (b ∷ s) = some (b ∷ s)

abbrev pub Getaddrinfo : Type 0
Getaddrinfo = (node service : Option Bytes) → Hints → ℤ × Option (List Addrinfo)

abbrev pub has_list : Option (List Addrinfo) → ℕ
has_list none = 0
has_list (some l) = 1

-- Where the call gives no list, `info` stays null.
unfoldable pub worker_getaddrinfo :
    Getaddrinfo → CallJob GetaddrinfoArgs → Option (CallJob GetaddrinfoArgs)
worker_getaddrinfo getaddrinfo job = elim (c_string (drop job.args.node job.data_)) [
  | none ↦ none
  | some node ↦ elim (c_string (drop job.args.service job.data_)) [
    | none ↦ none
    | some service ↦
        let a = getaddrinfo (non_empty node) (non_empty service) job.args.hints in
        some (record job {
          args = record job.args { code = some a.0; info = a.1; infos = has_list a.1 };
        })
  ]
]

abbrev pub name_or_empty : Option Bytes → Bytes
name_or_empty none = []
name_or_empty (some s) = s

module _ {S : Type 0} (c : Constants) (sockaddr_size : ℕ) (alloc_sockaddr : Bytes → S) where
  unfoldable pub convert_addrinfo : Addrinfo → Option (AddrInfo S)
  convert_addrinfo a = elim (cst_to_constr a.ai_family c.socket_domain_table 3 0) [
    | none ↦ none
    | some family ↦ elim (cst_to_constr a.ai_socktype c.socket_type_table 4 0) [
      | none ↦ none
      | some socktype ↦ some (record {
        family = family;
        socktype = socktype;
        protocol = a.ai_protocol;
        addr = alloc_sockaddr (take sockaddr_size a.ai_addr);
        canonname = name_or_empty a.ai_canonname;
      })
    ]
  ]

  -- The loop that puts each entry in front of the list.
  unfoldable pub convert_list :
      List Addrinfo → (vres : List (AddrInfo S)) → Option (List (AddrInfo S))
  convert_list [] vres = some vres
  convert_list (a ∷ rest) vres = elim (convert_addrinfo a) [
    | none ↦ none
    | some e ↦ convert_list rest (e ∷ vres)
  ]

  abbrev pub list_of : Option (List Addrinfo) → List Addrinfo
  list_of none = []
  list_of (some l) = l

  abbrev pub values_of : ℤ → Option (List Addrinfo) → Option (List (AddrInfo S))
  values_of (pos zero) info = convert_list (list_of info) []
  values_of (pos (suc n)) info = some []
  values_of (negsuc n) info = some []

  -- `freeaddrinfo` frees the list that the call allocated.
  abbrev pub free_info : CallJob GetaddrinfoArgs → CallJob GetaddrinfoArgs
  free_info job = elim job.args.info [
    | none ↦ job
    | some l ↦ record job { args = record job.args { infos = job.args.infos - 1 } }
  ]

  unfoldable pub result_getaddrinfo : Result GetaddrinfoArgs (List (AddrInfo S))
  result_getaddrinfo = do
    code ← field (λ job. job.args.code)
    vres ← field (λ job. values_of code job.args.info)
    λ job. (returned tt, free_info job)
    free_job
    returning vres
