-- ===== src/Hostent/Dup.antt =====
-- `hostent_dup` of src/unix/unix_c/unix_get_network_information_utils.c copies the whole entry or
-- leaves nothing allocated.
use lwt.Base.{◌+◌, List, Option, none, some, take, ◌≡◌, refl, ◌∙◌, arith, inl, inr}
use lwt.Heap.{Heap, malloc, free, Holds, malloc-cases}
use lwt.Hostent.{
  Bytes, Hostent, copy_array, s_strdup, dup_addresses, dup_aliases, hostent_dup, hostent_free,
}
use lwt.Hostent.Copy.{
  blocks, copy_array-ArrayResult, free_array-Holds, free_all-Holds, map_array_id, name_of,
  DupResult, s_strdup-cases,
}

module _ (orig : Hostent) (h0 : Heap) where
  addresses-DupResult :
      (aliases : Option (List Bytes)) (h : Heap)
      → aliases ≡ orig.h_aliases
      → Holds (blocks aliases + 2) h0 h
      → DupResult orig h0
          (dup_addresses orig (name_of orig.h_name) aliases h).0
          (dup_addresses orig (name_of orig.h_name) aliases h).1
  unfolding dup_addresses hostent_free
  addresses-DupResult aliases h same held =
      elim (copy_array-ArrayResult (take orig.h_length) orig.h_addr_list h) [
        | inl (bad, balanced) ↦ rw bad (
            let freed =
              free_array-Holds aliases 2 h0 (copy_array (take orig.h_length) orig.h_addr_list h).1
                (omega arith) in
            omega (arith, freed))
        | inr (good, copy, taken) ↦ rw good (
          rw same (rw copy refl),
          free_all-Holds (copy_array (take orig.h_length) orig.h_addr_list h).0 aliases h0
              (copy_array (take orig.h_length) orig.h_addr_list h).1 (omega arith),
        )
      ]

  aliases-DupResult :
      (h : Heap)
      → Holds 2 h0 h
      → DupResult orig h0
          (dup_aliases orig (name_of orig.h_name) h).0
          (dup_aliases orig (name_of orig.h_name) h).1
  unfolding dup_aliases
  aliases-DupResult h held = elim (copy_array-ArrayResult (λ s. s) orig.h_aliases h) [
    | inl (bad, balanced) ↦ rw bad (omega arith)
    | inr (good, copy, taken) ↦ rw good (
        addresses-DupResult (copy_array (λ s. s) orig.h_aliases h).0
          (copy_array (λ s. s) orig.h_aliases h).1 (copy ∙ map_array_id orig.h_aliases)
          (omega arith))
  ]

  -- `hostent_dup`, under any pattern of allocation failures, either returns a copy with every string
  -- and address of the original (a null name as the empty string, an address cut to `h_length`
  -- bytes), and then `hostent_free` of the copy frees exactly the blocks that it allocated; or
  -- returns null, and then its cleanup has freed exactly the blocks that it allocated.
  pub hostent_dup-DupResult :
      DupResult orig h0 (hostent_dup (some orig) h0).0 (hostent_dup (some orig) h0).1
  unfolding hostent_dup
  hostent_dup-DupResult = elim (malloc-cases h0) [
    | inl (got, held) ↦ rw got (named (malloc h0).1 held)
    | inr (not, held) ↦ rw not held
  ]
    where
      result : Option Bytes → Heap → Option Hostent × Heap
      result name h2 = elim name [ none ↦ (none, free h2) | some name ↦ dup_aliases orig name h2 ]

      named :
          (h1 : Heap)
          → Holds 1 h0 h1
          → DupResult orig h0
              (result (s_strdup orig.h_name h1).0 (s_strdup orig.h_name h1).1).0
              (result (s_strdup orig.h_name h1).0 (s_strdup orig.h_name h1).1).1
      named h1 held = elim (s_strdup-cases orig.h_name h1) [
        | inl (got, more) ↦ rw got (aliases-DupResult (s_strdup orig.h_name h1).1 (omega arith))
        | inr (not, more) ↦ rw not (omega arith)
      ]
