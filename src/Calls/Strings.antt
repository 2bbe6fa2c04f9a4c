-- ===== src/Calls/Strings.antt =====
-- C strings behind a job's structure (src/unix/unix_c/unix_link_job.c and the like): what a call and
-- `caml_copy_string` read where `memcpy` has put an OCaml string.
use native.Mathlib.Nat.{zero-add, suc-add}
use mathlib.Core.Option
use lwt.Base.{
  ℕ, zero, suc, ◌+◌, ◌≤◌, subst, List, [], ◌∷◌, ◌++◌, map, Option, none, some, length, drop, splice,
  replicate, ◌≡◌, refl, ap, ◌∙◌, arith, append-nil, length-append, length-map, length-replicate,
  le→leb, returned,
}
use lwt.Calls.{Bytes, CallJob, new_plus, string_val, memcpy, c_string}

-- The part of an OCaml string that C sees: up to the first zero.
unfoldable pub cut : Bytes → Bytes
cut [] = []
cut (zero ∷ s) = []
cut (suc c ∷ s) = suc c ∷ cut s

pub c_string-cut :
    (s : Bytes) (rest : List (Option ℕ)) → c_string (map some (string_val s) ++ rest) ≡ some (cut s)
unfolding c_string cut
c_string-cut [] rest = refl
c_string-cut (zero ∷ s) rest = refl
c_string-cut (suc c ∷ s) rest = ap (Option.map (λ r. suc c ∷ r)) (c_string-cut s rest)

module _ {A : Type 0} where
  pub drop_front : (xs ys : List A) → drop (length xs) (xs ++ ys) ≡ ys
  drop_front [] ys = refl
  drop_front (x ∷ xs) ys = drop_front xs ys

  drop-replicate : (n m : ℕ) (a : A) → drop n (replicate (n + m) a) ≡ replicate m a
  drop-replicate zero m a = rw (zero-add m)
  drop-replicate (suc n) m a = rw (suc-add n m) (drop-replicate n m a)

  -- Writing behind what was written before.
  splice_end :
      (front src : List A) (m : ℕ) (a : A)
      → splice (length front) src (front ++ replicate (length src + m) a)
        ≡ front ++ (src ++ replicate m a)
  splice_end [] src m a = rw (zero-add (length src), drop-replicate (length src) m a)
  splice_end (x ∷ front) src m a =
      rw (suc-add (length front) (length src)) (ap (λ r. x ∷ r) (splice_end front src m a))

abbrev pub cells : Bytes → List (Option ℕ)
cells s = map some (string_val s)

abbrev pub size : Bytes → ℕ
size s = length s + 1

length-cells : (s : Bytes) → length (cells s) ≡ size s
length-cells s = length-map (string_val s) some ∙ length-append s (0 ∷ [])

abbrev unset : Option ℕ
unset = none

module _ {A : Type 0} (args : A) where
  abbrev pub holding : List (Option ℕ) → CallJob A
  holding all = record (new_plus 0 args) { data_ = all }

  fits :
      (front : List (Option ℕ)) (s : Bytes) (m : ℕ)
      → length front + length (string_val s)
        ≤ length (front ++ replicate (length (cells s) + m) none)
  fits front s m = omega (
    arith,
    length-append front (replicate (length (cells s) + m) unset),
    length-replicate (length (cells s) + m) unset,
    length-append s (0 ∷ []),
    length-cells s,
  )

  memcpy_end :
      (front : List (Option ℕ)) (s : Bytes) (m : ℕ)
      → memcpy
          (length front)
          (string_val s)
          (holding (front ++ replicate (length (cells s) + m) none))
        ≡ returned (holding (front ++ (cells s ++ replicate m none)))
  unfolding memcpy
  memcpy_end front s m =
      rw (le→leb _ _ (fits front s m))
        (ap (λ c. returned (holding c)) (splice_end front (cells s) m none))

  -- `memcpy` of the first string of a job, with room for more behind it.
  pub memcpy_first :
      (s : Bytes) (m : ℕ)
      → memcpy 0 (string_val s) (new_plus (size s + m) args)
        ≡ returned (holding (cells s ++ replicate m none))
  memcpy_first s m =
      subst
        (λ n.
          memcpy 0 (string_val s) (new_plus (n + m) args)
          ≡ returned (holding (cells s ++ replicate m none)))
        (length-cells s) (memcpy_end [] s m)

  -- `memcpy` of the last string of a job.
  pub memcpy_last :
      (s t : Bytes)
      → memcpy (size s) (string_val t) (holding (cells s ++ replicate (size t) none))
        ≡ returned (holding (cells s ++ cells t))
  memcpy_last s t =
      let e : length (cells t) + 0 ≡ size t = omega (arith, length-cells t) in
      rw (length-cells s, e, append-nil (cells t)) at (memcpy_end (cells s) t 0)

  -- `memcpy` of the only string of a job.
  pub memcpy_one :
      (s : Bytes) → memcpy 0 (string_val s) (new_plus (size s) args) ≡ returned (holding (cells s))
  memcpy_one s =
      let e : size s + 0 ≡ size s = omega arith in
      rw (e, append-nil (cells s)) at (memcpy_first s 0)

-- A string of a job is found, up to its first zero.
pub c_string_one : (s : Bytes) → c_string (cells s) ≡ some (cut s)
c_string_one s = rw (append-nil (cells s)) at (c_string-cut s [])

pub c_string-drop-size :
    (s t : Bytes) → c_string (drop (size s) (cells s ++ cells t)) ≡ some (cut t)
c_string-drop-size s t = rw (← length-cells s, drop_front (cells s) (cells t)) (c_string_one t)
