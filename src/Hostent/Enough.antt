-- ===== src/Hostent/Enough.antt =====
-- The copies of src/unix/unix_c/unix_get_network_information_utils.c where memory does not run out.
use lwt.Base.{suc, false, ℕ, List, [], ◌∷◌, Option, none, some, take, ◌≡◌, refl}
use lwt.Heap.{Heap, malloc, malloc_enough}
use lwt.Hostent.{
  Bytes, Hostent, s_strdup, copy_each, copy_array, failed, hostent_dup, dup_aliases, dup_addresses,
}

-- Something was made, and memory still does not run out.
abbrev pub Made : {X : Type 0} → Option X × Heap → Type 0
Made {X} r = (x : X) × (r.0 ≡ some x) × (r.1.script ≡ [])

pub s_strdup-Made : (s : Option Bytes) (h : Heap) → h.script ≡ [] → Made (s_strdup s h)
unfolding s_strdup
s_strdup-Made none h e = let (got, left) = malloc_enough h e in rw got ([], refl, left)
s_strdup-Made (some s) h e = let (got, left) = malloc_enough h e in rw got (s, refl, left)

copy_each-Made :
    (copy : Bytes → Bytes) (src : List Bytes) (i : ℕ) (h : Heap)
    → h.script ≡ []
    → Made (copy_each copy src i h)
unfolding copy_each
copy_each-Made copy [] i h e = ([], refl, e)
copy_each-Made copy (s ∷ src) i h e =
    let (got, left) = malloc_enough h e in
    let (p, made, left') = copy_each-Made copy src (suc i) (malloc h).1 left in
    rw (got, made) (copy s ∷ p, refl, left')

pub copy_array_enough :
    (copy : Bytes → Bytes) (src : Option (List Bytes)) (h : Heap)
    → h.script ≡ []
    → (failed src (copy_array copy src h).0 ≡ false) × ((copy_array copy src h).1.script ≡ [])
unfolding copy_array
copy_array_enough copy none h e = (refl, e)
copy_array_enough copy (some src) h e =
    let (got, left) = malloc_enough h e in
    let (p, made, left') = copy_each-Made copy src 0 (malloc h).1 left in
    rw (got, made) (refl, left')

pub hostent_dup-Made : (o : Hostent) (h : Heap) → h.script ≡ [] → Made (hostent_dup (some o) h)
unfolding hostent_dup dup_aliases dup_addresses
hostent_dup-Made o h e =
    let (got, left1) = malloc_enough h e in
    let (name, named, left2) = s_strdup-Made o.h_name (malloc h).1 left1 in
    let h2 = (s_strdup o.h_name (malloc h).1).1 in
    let (good, left3) = copy_array_enough (λ s. s) o.h_aliases h2 left2 in
    let (whole, left4) =
      copy_array_enough (take o.h_length) o.h_addr_list (copy_array (λ s. s) o.h_aliases h2).1
        left3 in
    rw (got, named, good, whole, hostent_dup) (_, refl, left4)
