-- ===== src/Getaddrinfo/Laws.antt =====
-- What the job of src/unix/unix_c/unix_getaddrinfo_job.c gives.
use lwt.Base.{
  ℕ, zero, suc, ◌+◌, ◌==◌, ◌++◌, true, List, [], ◌∷◌, Option, none, some, ℤ, pos, negsuc,
  if◌then◌else◌, length, take, ◌≡◌, refl, arith, append_assoc, append-nil, returned,
}
use lwt.Calls.{Bytes, CallJob, Result}
use lwt.Calls.Strings.{
  cut, cells, size, holding, memcpy_first, memcpy_last, c_string-cut, c_string-drop-size,
}
use lwt.Lookup.PasswdLaws.{worked}
use lwt.Getaddrinfo.Meaning.{InTables, meant_after, add_hints-meant}
use lwt.Getaddrinfo.{
  Addrinfo, Hints, Hint, Constants, AddrInfo, Getaddrinfo, GetaddrinfoArgs, add_hints, no_hints,
  list_of, name_or_empty, non_empty, constr_from, cst_to_constr, convert_addrinfo, convert_list,
  getaddrinfo_job, worker_getaddrinfo, result_getaddrinfo, values_of, has_list,
}

-- The first place of an integer in a table, or the default.
abbrev pub place : (n : ℕ) (table : List ℕ) (i default : ℕ) → ℕ
place n [] i default = default
place n (x ∷ table) i default = if n == x then i else place n table (suc i) default

constr_from-place :
    (n : ℕ) (table : List ℕ) (i default : ℕ)
    → constr_from n table (length table) i default ≡ some (place n table i default)
unfolding constr_from
constr_from-place n [] i default = refl
constr_from-place n (x ∷ table) i default =
    ground (arith, constr_from-place n table (suc i) default)

cst_to_constr-place :
    (n : ℕ) (table : List ℕ) (size default : ℕ)
    → length table ≡ size
    → cst_to_constr n table size default ≡ some (place n table 0 default)
unfolding cst_to_constr
cst_to_constr-place n table size default e = rw (← e) (constr_from-place n table 0 default)

module _ {S : Type 0} (c : Constants) (sockaddr_size : ℕ) (alloc_sockaddr : Bytes → S) where
  -- The entry that is meant.
  abbrev pub entry : Addrinfo → AddrInfo S
  entry a = record {
    family = place a.ai_family c.socket_domain_table 0 0;
    socktype = place a.ai_socktype c.socket_type_table 0 0;
    protocol = a.ai_protocol;
    addr = alloc_sockaddr (take sockaddr_size a.ai_addr);
    canonname = name_or_empty a.ai_canonname;
  }

  -- The entries in the order in which the job gives them: the last comes first.
  abbrev pub entries : List Addrinfo → List (AddrInfo S)
  entries [] = []
  entries (a ∷ l) = entries l ++ entry a ∷ []

  -- What an answer means; an error is the empty list.
  abbrev pub meaning : ℤ × Option (List Addrinfo) → List (AddrInfo S)
  meaning (pos zero, info) = entries (list_of c sockaddr_size alloc_sockaddr info)
  meaning (pos (suc n), info) = []
  meaning (negsuc n, info) = []

  module _ (domains : length c.socket_domain_table ≡ 3)
      (types : length c.socket_type_table ≡ 4) where
    convert_addrinfo-entry :
        (a : Addrinfo) → convert_addrinfo c sockaddr_size alloc_sockaddr a ≡ some (entry a)
    unfolding convert_addrinfo
    convert_addrinfo-entry a =
        rw
          (
            convert_addrinfo,
            cst_to_constr-place a.ai_family c.socket_domain_table 3 0 domains,
            cst_to_constr-place a.ai_socktype c.socket_type_table 4 0 types,
          )
          refl

    convert_list-entries :
        (l : List Addrinfo) (vres : List (AddrInfo S))
        → convert_list c sockaddr_size alloc_sockaddr l vres ≡ some (entries l ++ vres)
    unfolding convert_list
    convert_list-entries [] vres = refl
    convert_list-entries (a ∷ l) vres =
        rw (append_assoc (entries l) (entry a ∷ []) vres, convert_list, convert_addrinfo-entry a)
          (convert_list-entries l (entry a ∷ vres))

    values_of-meaning :
        (code : ℤ) (info : Option (List Addrinfo))
        → values_of c sockaddr_size alloc_sockaddr code info ≡ some (meaning (code, info))
    values_of-meaning (pos zero) info =
        let l = list_of c sockaddr_size alloc_sockaddr info in
        rw (append-nil (entries l)) at (convert_list-entries l [])
    values_of-meaning (pos (suc n)) info = refl
    values_of-meaning (negsuc n) info = refl

    -- The job with an answer; the list that came with it is freed with the job.
    result-meaning :
        (code : ℤ) (info : Option (List Addrinfo)) (args : GetaddrinfoArgs) (all : List (Option ℕ))
        → let job =
            holding (record args { code = some code; info = info; infos = has_list info }) all in
          let r = result_getaddrinfo c sockaddr_size alloc_sockaddr job in
          (r.0 ≡ returned (meaning (code, info))) × (r.1.freed ≡ true) × (r.1.args.infos ≡ 0)
    unfolding result_getaddrinfo convert_list
    result-meaning (pos zero) none args all = (refl, refl, refl)
    result-meaning (pos zero) (some l) args all =
        rw (values_of-meaning (pos zero) (some l)) (refl, refl, refl)
    result-meaning (pos (suc n)) none args all = (refl, refl, refl)
    result-meaning (pos (suc n)) (some l) args all = (refl, refl, refl)
    result-meaning (negsuc n) none args all = (refl, refl, refl)
    result-meaning (negsuc n) (some l) args all = (refl, refl, refl)

-- What the stub copies and converts, and where it puts the strings.
abbrev made_of : (node : Bytes) → Hints → GetaddrinfoArgs
made_of node h = record {
  node = 0;
  service = size node;
  hints = h;
  info = none;
  infos = 0;
  code = none;
}

getaddrinfo_made :
    (c : Constants) (node service : Bytes) (hints : List Hint) (h : Hints)
    → add_hints c hints (no_hints c) ≡ some h
    → getaddrinfo_job c node service hints
      ≡ returned (holding (made_of node h) (cells node ++ cells service))
unfolding getaddrinfo_job
getaddrinfo_made c node service hints h e =
    let total : length node + length service + 2 ≡ size node + size service = omega arith in
    let first = memcpy_first (made_of node h) node (size service) in
    rw (e, total, first, getaddrinfo_job) (memcpy_last (made_of node h) node service)

-- The worker makes the call; the result is what the answer means; the job is freed, and the list that
-- the call allocated.
abbrev pub Resolves :
    {V : Type 0}
    → ℤ × Option (List Addrinfo)
    → (ℤ × Option (List Addrinfo) → V)
    → Option (CallJob GetaddrinfoArgs)
    → Result GetaddrinfoArgs V
    → Type 0
Resolves answer mean ended result =
    (job : CallJob GetaddrinfoArgs) × (ended ≡ some job)
    × ((result job).0 ≡ returned (mean answer))
    × ((result job).1.freed ≡ true)
    × ((result job).1.args.infos ≡ 0)

-- The job for getaddrinfo, from the stub to the result: the call is made on both strings up to
-- their first zeros, an empty one as no string, and on the hints, of which the last family, type
-- and protocol count and all flags; the result is the empty list if it fails, otherwise each entry
-- converted, the last one first, its family and type as the place in their tables or else the first
-- constructor; and the job and the list of the call are freed. Conditions: the tables have 3 and 4
-- entries, and the hints are in them.
pub getaddrinfo-Resolves :
    {S : Type 0} (c : Constants) (sockaddr_size : ℕ) (alloc_sockaddr : Bytes → S)
    (getaddrinfo : Getaddrinfo) (node service : Bytes) (hints : List Hint)
    → length c.socket_domain_table ≡ 3
    → length c.socket_type_table ≡ 4
    → InTables c hints
    → Resolves
        (getaddrinfo
          (non_empty (cut node))
          (non_empty (cut service))
          (meant_after c (no_hints c) hints))
        (meaning c sockaddr_size alloc_sockaddr)
        (worked (getaddrinfo_job c node service hints) (worker_getaddrinfo getaddrinfo))
        (result_getaddrinfo c sockaddr_size alloc_sockaddr)
unfolding worker_getaddrinfo
getaddrinfo-Resolves c sockaddr_size alloc_sockaddr getaddrinfo node service hints domains types
      inside =
    let h = meant_after c (no_hints c) hints in
    let a = getaddrinfo (non_empty (cut node)) (non_empty (cut service)) h in
    let all = cells node ++ cells service in
    let done =
      result-meaning c sockaddr_size alloc_sockaddr domains types a.0 a.1 (made_of node h) all in
    let args = record (made_of node h) { code = some a.0; info = a.1; infos = has_list a.1 } in
    (
      holding args all,
      rw
          (
            getaddrinfo_made c node service hints h (add_hints-meant c hints (no_hints c) inside),
            c_string-cut node (cells service),
            c_string-drop-size node service,
            worker_getaddrinfo,
          )
          refl,
      done.0,
      done.1,
      done.2,
    )
