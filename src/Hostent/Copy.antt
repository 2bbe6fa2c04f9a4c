-- ===== src/Hostent/Copy.antt =====
-- The copy of a host entry by src/unix/unix_c/unix_get_network_information_utils.c: what it holds
-- and what it leaves allocated.
use lwt.Base.{
  ℕ, suc, ◌+◌, Bool, true, false, List, [], ◌∷◌, map, Option, none, some, length, take, ◌≡◌, refl,
  arith, if◌then◌else◌, ap, ◌⊎◌, inl, inr,
}
use lwt.Heap.{Heap, malloc, free, free_all, Holds, malloc_frees, malloc_mallocs, malloc-cases}
use lwt.Hostent.{
  Bytes, Hostent, copy_each, copy_array, c_free_string_array, s_strdup, failed, hostent_free,
}

-- The blocks of a copied array.
abbrev pub blocks : Option (List Bytes) → ℕ
blocks none = 0
blocks (some p) = suc (length p)

-- What `copy_each` returns, with `i` copies and the array taken already.
abbrev EachResult : (Bytes → Bytes) → List Bytes → ℕ → Heap → Option (List Bytes) → Heap → Type 0
EachResult copy src i h none h' = h'.mallocs + h.frees + suc i ≡ h.mallocs + h'.frees
EachResult copy src i h (some p) h' = (p ≡ map copy src) × Holds (length p) h h'

copy_each-EachResult :
    (copy : Bytes → Bytes) (src : List Bytes) (i : ℕ) (h : Heap)
    → EachResult copy src i h (copy_each copy src i h).0 (copy_each copy src i h).1
unfolding copy_each
copy_each-EachResult copy [] i h = (refl, omega arith)
copy_each-EachResult copy (s ∷ src) i h =
    step (malloc h).0 (malloc h).1 (copy_each copy src (suc i) (malloc h).1).0
      (copy_each copy src (suc i) (malloc h).1).1 (malloc_frees h) (malloc_mallocs h)
      (copy_each-EachResult copy src (suc i) (malloc h).1)
  where
    result : Bool → Heap → Option (List Bytes) → Heap → Option (List Bytes) × Heap
    result ok h1 rest h2 =
        if ok
        then (elim rest [ none ↦ (none, h2) | some p ↦ (some (copy s ∷ p), h2) ])
        else (none, free (free_all i h1))

    step :
        (ok : Bool) (h1 : Heap) (rest : Option (List Bytes)) (h2 : Heap)
        → h1.frees ≡ h.frees
        → h1.mallocs ≡ (if ok then suc h.mallocs else h.mallocs)
        → EachResult copy src (suc i) h1 rest h2
        → EachResult copy (s ∷ src) i h (result ok h1 rest h2).0 (result ok h1 rest h2).1
    step true h1 none h2 f m e = omega arith
    step true h1 (some p) h2 f m e = (ap (λ r. copy s ∷ r) e.0, omega (arith, e.1))
    step false h1 rest h2 f m e = omega arith

abbrev pub map_array : (Bytes → Bytes) → Option (List Bytes) → Option (List Bytes)
map_array copy none = none
map_array copy (some src) = some (map copy src)

-- A copy that did not fail, and one that did.
abbrev pub ArrayResult :
    (Bytes → Bytes) → Option (List Bytes) → Heap → Option (List Bytes) → Heap → Type 0
ArrayResult copy src h out h' =
    ((failed src out ≡ true) × Holds 0 h h')
    ⊎ ((failed src out ≡ false) × (out ≡ map_array copy src) × Holds (blocks out) h h')

pub copy_array-ArrayResult :
    (copy : Bytes → Bytes) (src : Option (List Bytes)) (h : Heap)
    → ArrayResult copy src h (copy_array copy src h).0 (copy_array copy src h).1
unfolding copy_array
copy_array-ArrayResult copy none h = inr (refl, refl, omega arith)
copy_array-ArrayResult copy (some src) h =
    step (malloc h).0 (malloc h).1 (copy_each copy src 0 (malloc h).1).0
      (copy_each copy src 0 (malloc h).1).1 (malloc_frees h) (malloc_mallocs h)
      (copy_each-EachResult copy src 0 (malloc h).1)
  where
    result : Bool → Heap → Option (List Bytes) → Heap → Option (List Bytes) × Heap
    result ok h1 out h2 = if ok then (out, h2) else (none, h1)

    step :
        (ok : Bool) (h1 : Heap) (out : Option (List Bytes)) (h2 : Heap)
        → h1.frees ≡ h.frees
        → h1.mallocs ≡ (if ok then suc h.mallocs else h.mallocs)
        → EachResult copy src 0 h1 out h2
        → ArrayResult copy (some src) h (result ok h1 out h2).0 (result ok h1 out h2).1
    step true h1 none h2 f m e = inl (refl, omega arith)
    step true h1 (some p) h2 f m e = inr (refl, ap some e.0, omega (arith, e.1))
    step false h1 out h2 f m e = inl (refl, omega arith)

pub free_array-Holds :
    (p : Option (List Bytes)) (n : ℕ) (h h' : Heap)
    → Holds (blocks p + n) h h'
    → Holds n h (c_free_string_array p h')
unfolding c_free_string_array
free_array-Holds none n h h' e = omega arith
free_array-Holds (some p) n h h' e = omega arith

map_id : (p : List Bytes) → map (λ s. s) p ≡ p
map_id [] = refl
map_id (x ∷ xs) = ap (λ r. x ∷ r) (map_id xs)

pub map_array_id : (p : Option (List Bytes)) → map_array (λ s. s) p ≡ p
map_array_id none = refl
map_array_id (some p) = ap some (map_id p)

abbrev pub name_of : Option Bytes → Bytes
name_of none = []
name_of (some n) = n

-- The copy that is meant: a null name becomes the empty string, and of each address the first
-- `h_length` bytes are kept.
abbrev pub copied : Hostent → Hostent
copied o = record o {
  h_name = some (name_of o.h_name);
  h_addr_list = map_array (take o.h_length) o.h_addr_list;
}

-- A result of `hostent_dup` on a heap `h`.
abbrev pub DupResult : Hostent → Heap → Option Hostent → Heap → Type 0
DupResult o h none h' = Holds 0 h h'
DupResult o h (some c) h' = (c ≡ copied o) × Holds 0 h (hostent_free (some c) h')

pub free_all-Holds :
    (a b : Option (List Bytes)) (h h' : Heap)
    → Holds (blocks a + (blocks b + 2)) h h'
    → Holds 0 h (free (free (c_free_string_array b (c_free_string_array a h'))))
free_all-Holds a b h h' e =
    let freed =
      free_array-Holds b 2 h (c_free_string_array a h')
        (free_array-Holds a (blocks b + 2) h h' e) in
    omega (arith, freed)

pub s_strdup-cases :
    (s : Option Bytes) (h : Heap)
    → (((s_strdup s h).0 ≡ some (name_of s)) × Holds 1 h (s_strdup s h).1)
      ⊎ (((s_strdup s h).0 ≡ none) × Holds 0 h (s_strdup s h).1)
unfolding s_strdup
s_strdup-cases none h = elim (malloc-cases h) [
  | inl (got, held) ↦ inl (rw got (refl, held))
  | inr (not, held) ↦ inr (rw not (refl, held))
]
s_strdup-cases (some b) h = elim (malloc-cases h) [
  | inl (got, held) ↦ inl (rw got (refl, held))
  | inr (not, held) ↦ inr (rw not (refl, held))
]
