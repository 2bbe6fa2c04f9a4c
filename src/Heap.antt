-- ===== src/Heap.antt =====
-- The C heap as far as the stubs can lose or keep a block: how many blocks were allocated, how many
-- were freed, and which of the next calls of `malloc` and `strdup` succeed (all, behind the end of
-- the script).
use lwt.Base.{
  ℕ, suc, ◌+◌, Bool, true, false, List, [], ◌∷◌, ◌≡◌, refl, arith, if◌then◌else◌, ◌⊎◌, inl, inr,
  Bool-cases,
}

pub record Heap : Type 0 where
  pub mallocs : ℕ
  pub frees : ℕ
  pub script : List Bool

abbrev grow : Heap → List Bool → Heap
grow h rest = record h { mallocs = suc h.mallocs; script = rest }

-- `lwt_unix_malloc`: where memory runs out the program ends, so it always gives a block.
abbrev pub lwt_malloc : Heap → Heap
lwt_malloc h = record h { mallocs = suc h.mallocs }

abbrev malloc_by : List Bool → Heap → Bool × Heap
malloc_by [] h = (true, grow h [])
malloc_by (true ∷ rest) h = (true, grow h rest)
malloc_by (false ∷ rest) h = (false, record h { script = rest })

-- Whether `malloc` gives a block.
abbrev pub malloc : Heap → Bool × Heap
malloc h = malloc_by h.script h

abbrev pub free : Heap → Heap
free h = record h { frees = suc h.frees }

-- A loop that frees `n` blocks.
abbrev pub free_all : ℕ → Heap → Heap
free_all n h = record h { frees = n + h.frees }

-- `h'` has `n` blocks more in use than `h`.
abbrev pub Holds : ℕ → Heap → Heap → Type 0
Holds n h h' = h'.mallocs + h.frees ≡ n + (h.mallocs + h'.frees)

pub malloc_frees : (h : Heap) → (malloc h).1.frees ≡ h.frees
malloc_frees h = by_script h.script
  where
    by_script : (s : List Bool) → (malloc_by s h).1.frees ≡ h.frees
    by_script [] = refl
    by_script (true ∷ s) = refl
    by_script (false ∷ s) = refl

pub malloc_mallocs :
    (h : Heap) → (malloc h).1.mallocs ≡ (if (malloc h).0 then suc h.mallocs else h.mallocs)
malloc_mallocs h = by_script h.script
  where
    by_script :
        (s : List Bool)
        → (malloc_by s h).1.mallocs ≡ (if (malloc_by s h).0 then suc h.mallocs else h.mallocs)
    by_script [] = refl
    by_script (true ∷ s) = refl
    by_script (false ∷ s) = refl

pub malloc-cases :
    (h : Heap)
    → (((malloc h).0 ≡ true) × Holds 1 h (malloc h).1)
      ⊎ (((malloc h).0 ≡ false) × Holds 0 h (malloc h).1)
malloc-cases h = elim (Bool-cases (malloc h).0) [
  | inl got ↦ inl (got, (let m = malloc_mallocs h in omega (arith, malloc_frees h, (rw got at m))))
  | inr not ↦ inr (not, (let m = malloc_mallocs h in omega (arith, malloc_frees h, (rw not at m))))
]

-- `malloc` where memory does not run out.
pub malloc_enough : (h : Heap) → h.script ≡ [] → ((malloc h).0 ≡ true) × ((malloc h).1.script ≡ [])
malloc_enough h e = by_script h.script e
  where
    by_script :
        (s : List Bool) → s ≡ [] → ((malloc_by s h).0 ≡ true) × ((malloc_by s h).1.script ≡ [])
    by_script [] e = (refl, refl)
    by_script (b ∷ s) e = absurd (cc e)
