-- ===== src/Lookup/Enough.antt =====
-- `servent_dup` and `protoent_dup` of src/unix/unix_c/unix_getprotoby_getservby_job.c where memory does
-- not run out.
use lwt.Base.{[], some, ◌≡◌, refl}
use lwt.Heap.{Heap, malloc, malloc_enough}
use lwt.Hostent.{s_strdup}
use lwt.Hostent.Enough.{Made, s_strdup-Made, copy_array_enough}
use lwt.Lookup.Copies.{
  Servent, Protoent, servent_aliases, servent_proto, servent_dup, protoent_aliases, protoent_dup,
}

pub servent_dup-Made : (s : Servent) (h : Heap) → h.script ≡ [] → Made (servent_dup (some s) h)
unfolding servent_dup servent_proto servent_aliases
servent_dup-Made s h e =
    let (got, left1) = malloc_enough h e in
    let (name, named, left2) = s_strdup-Made s.s_name (malloc h).1 left1 in
    let (proto, copied, left3) = s_strdup-Made s.s_proto (s_strdup s.s_name (malloc h).1).1 left2 in
    let (good, left4) =
      copy_array_enough (λ s. s) s.s_aliases
        (s_strdup s.s_proto (s_strdup s.s_name (malloc h).1).1).1 left3 in
    rw (got, named, copied, good, servent_dup) (_, refl, left4)

pub protoent_dup-Made : (p : Protoent) (h : Heap) → h.script ≡ [] → Made (protoent_dup (some p) h)
unfolding protoent_dup protoent_aliases
protoent_dup-Made p h e =
    let (got, left1) = malloc_enough h e in
    let (name, named, left2) = s_strdup-Made p.p_name (malloc h).1 left1 in
    let (good, left3) =
      copy_array_enough (λ s. s) p.p_aliases (s_strdup p.p_name (malloc h).1).1 left2 in
    rw (got, named, good, protoent_dup) (_, refl, left3)
