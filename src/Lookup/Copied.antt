-- ===== src/Lookup/Copied.antt =====
-- `servent_dup` and `protoent_dup` of src/unix/unix_c/unix_getprotoby_getservby_job.c, and the jobs
-- that use them.
use lwt.Base.{
  [], Option, none, some, ◌≡◌, ◌⊎◌, refl, ap, ◌∙◌, arith, inl, inr, Outcome, returned, raised,
  not_found,
}
use mathlib.Core.Option
use lwt.Heap.{Heap, malloc, free, Holds, malloc-cases}
use lwt.Hostent.{copy_array, s_strdup}
use lwt.Hostent.Copy.{
  copy_array-ArrayResult, free_array-Holds, map_array_id, name_of, s_strdup-cases,
}
use lwt.Lookup.Copies.{
  Servent, Protoent, servent_aliases, servent_proto, servent_dup, servent_free, protoent_aliases,
  protoent_dup, protoent_free, worker_copy, result_copy, after_strdup,
}
use lwt.Hostent.Enough.{Made}
use lwt.Lookup.Enough.{servent_dup-Made, protoent_dup-Made}

-- The copies that are meant: a null name becomes the empty string.
abbrev pub servent_copy : Servent → Servent
servent_copy s = record s { s_name = some (name_of s.s_name); s_proto = some (name_of s.s_proto) }

abbrev pub protoent_copy : Protoent → Protoent
protoent_copy p = record p { p_name = some (name_of p.p_name) }

-- A copy, whose release frees what was allocated; or nothing, and nothing stays allocated.
abbrev pub Copied : {E : Type 0} → (Option E → Heap → Heap) → E → Heap → Option E × Heap → Type 0
Copied free_entry e h (none, h') = Holds 0 h h'
Copied free_entry e h (some c, h') = (c ≡ e) × Holds 0 h (free_entry (some c) h')

module _ (serv : Servent) (h0 : Heap) where
  aliases-Copied :
      (h : Heap)
      → Holds 3 h0 h
      → Copied servent_free
          (servent_copy serv)
          h0
          (servent_aliases serv (name_of serv.s_name) (name_of serv.s_proto) h)
  unfolding servent_aliases servent_free
  aliases-Copied h held = elim (copy_array-ArrayResult (λ s. s) serv.s_aliases h) [
    | inl (bad, balanced) ↦ rw bad (omega arith)
    | inr (good, copy, taken) ↦ rw good (
      rw (copy ∙ map_array_id serv.s_aliases) refl,
      (let freed =
            free_array-Holds (copy_array (λ s. s) serv.s_aliases h).0 1 h0
              (free (free (copy_array (λ s. s) serv.s_aliases h).1)) (omega arith) in
          omega (arith, freed)),
    )
  ]

  proto-Copied :
      (h : Heap)
      → Holds 2 h0 h
      → Copied servent_free (servent_copy serv) h0 (servent_proto serv (name_of serv.s_name) h)
  unfolding servent_proto
  proto-Copied h held = elim (s_strdup-cases serv.s_proto h) [
    | inl (got, more) ↦ rw got (aliases-Copied (s_strdup serv.s_proto h).1 (omega arith))
    | inr (not, more) ↦ rw not (omega arith)
  ]

  servent_named :
      (h : Heap)
      → Holds 1 h0 h
      → Copied servent_free (servent_copy serv) h0 (
          after_strdup free
            (servent_proto serv)
            (s_strdup serv.s_name h).0
            (s_strdup serv.s_name h).1)
  servent_named h held = elim (s_strdup-cases serv.s_name h) [
    | inl (got, more) ↦ rw got (proto-Copied (s_strdup serv.s_name h).1 (omega arith))
    | inr (not, more) ↦ rw not (omega arith)
  ]

  servent_dup-Copied : Copied servent_free (servent_copy serv) h0 (servent_dup (some serv) h0)
  unfolding servent_dup
  servent_dup-Copied = elim (malloc-cases h0) [
    | inl (got, held) ↦ rw got (servent_named (malloc h0).1 held)
    | inr (not, held) ↦ rw not held
  ]

module _ (p : Protoent) (h0 : Heap) where
  protoent_aliases-Copied :
      (h : Heap)
      → Holds 2 h0 h
      → Copied protoent_free (protoent_copy p) h0 (protoent_aliases p (name_of p.p_name) h)
  unfolding protoent_aliases protoent_free
  protoent_aliases-Copied h held = elim (copy_array-ArrayResult (λ s. s) p.p_aliases h) [
    | inl (bad, balanced) ↦ rw bad (omega arith)
    | inr (good, copy, taken) ↦ rw good (
      rw (copy ∙ map_array_id p.p_aliases) refl,
      (let freed =
            free_array-Holds (copy_array (λ s. s) p.p_aliases h).0 1 h0
              (free (copy_array (λ s. s) p.p_aliases h).1) (omega arith) in
          omega (arith, freed)),
    )
  ]

  protoent_named :
      (h : Heap)
      → Holds 1 h0 h
      → Copied protoent_free
          (protoent_copy p)
          h0
          (after_strdup free (protoent_aliases p) (s_strdup p.p_name h).0 (s_strdup p.p_name h).1)
  protoent_named h held = elim (s_strdup-cases p.p_name h) [
    | inl (got, more) ↦ rw got (protoent_aliases-Copied (s_strdup p.p_name h).1 (omega arith))
    | inr (not, more) ↦ rw not (omega arith)
  ]

  protoent_dup-Copied : Copied protoent_free (protoent_copy p) h0 (protoent_dup (some p) h0)
  unfolding protoent_dup
  protoent_dup-Copied = elim (malloc-cases h0) [
    | inl (got, held) ↦ rw got (protoent_named (malloc h0).1 held)
    | inr (not, held) ↦ rw not held
  ]

-- A job has ended: it gave the copy's value, or, only where memory can run out, `Not_found`; and the
-- heap holds one block less, the job itself.
abbrev pub JobEnds : {E V : Type 0} → (alloc : E → V) → Option E → Heap → Outcome V × Heap → Type 0
JobEnds alloc none h (v, h') = (v ≡ raised not_found) × Holds 1 h' h
JobEnds alloc (some e) h (v, h') =
    ((v ≡ returned (alloc e)) ⊎ (v ≡ raised not_found))
    × (h.script ≡ [] → v ≡ returned (alloc e))
    × Holds 1 h' h

ends :
    {E V : Type 0} (alloc : E → V) (free_entry : Option E → Heap → Heap) (e : E) (h : Heap)
    (r : Option E × Heap)
    → Copied free_entry e h r
    → (h.script ≡ [] → Made r)
    → JobEnds alloc (some e) h (result_copy alloc free_entry r.0 r.1)
ends alloc free_entry e h (none, h') c made =
    (inr refl, (λ empty. absurd (cc (made empty).1)), omega arith)
ends alloc free_entry e h (some e', h') c made =
    let same = ap (λ x. returned (alloc x)) c.0 in (inl same, (λ empty. same), omega (arith, c.1))

-- The entry that the call found is copied, and the result made of the copy.
abbrev pub CopyEnds :
    {E V : Type 0} (alloc : E → V) (dup : Option E → Heap → Option E × Heap)
    (free_entry : Option E → Heap → Heap)
    → (found meant : Option E) → Heap
    → Type 0
CopyEnds alloc dup free_entry found meant h =
    let (e, h') = worker_copy dup found h in
    JobEnds alloc meant h (result_copy alloc free_entry e h')

servent_ends :
    {V : Type 0} (alloc : Servent → V) (s : Option Servent) (h : Heap)
    → CopyEnds alloc servent_dup servent_free s (Option.map servent_copy s) h
servent_ends alloc none h = (refl, omega arith)
servent_ends alloc (some e) h =
    ends alloc servent_free (servent_copy e) h (servent_dup (some e) h) (servent_dup-Copied e h)
      (servent_dup-Made e h)

protoent_ends :
    {V : Type 0} (alloc : Protoent → V) (p : Option Protoent) (h : Heap)
    → CopyEnds alloc protoent_dup protoent_free p (Option.map protoent_copy p) h
protoent_ends alloc none h = (refl, omega arith)
protoent_ends alloc (some e) h =
    ends alloc protoent_free (protoent_copy e) h (protoent_dup (some e) h) (protoent_dup-Copied e h)
      (protoent_dup-Made e h)

-- The jobs for the entries of services and protocols where the calls ending in `_r` are missing,
-- whatever allocations fail: the result is a full copy of the entry that the call found, or
-- `Not_found`, which it is only if none was found or memory can run out; and all that was allocated
-- is freed, the job too.
pub copies_end :
    {V U : Type 0} (alloc_servent : Servent → V) (alloc_protoent : Protoent → U)
    (s : Option Servent) (p : Option Protoent) (h : Heap)
    → CopyEnds alloc_servent servent_dup servent_free s (Option.map servent_copy s) h
      × CopyEnds alloc_protoent protoent_dup protoent_free p (Option.map protoent_copy p) h
copies_end alloc_servent alloc_protoent s p h =
    (servent_ends alloc_servent s h, protoent_ends alloc_protoent p h)
