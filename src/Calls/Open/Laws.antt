-- ===== src/Calls/Open/Laws.antt =====
-- What the open job of src/unix/unix_c/unix_open_job.c does with its flags.
use Prim.Native.Nat.{bit_or}
use lwt.Base.{
  ℕ, zero, suc, ◌<◌, Bool, true, false, ◌||◌, List, [], ◌∷◌, Option, none, some, ℤ, pos, negsuc,
  int_val, get_elem?, length, ◌==◌, if◌then◌else◌, Option-cases, inl, inr, Outcome, returned,
  raised, unix_error_arg, ◌≡◌, refl, ◌∙◌, arith, replicate, ◌+◌, ◌++◌,
}
use lwt.Calls.{Bytes, Sys, run, Ran}
use lwt.Calls.Strings.{cut, memcpy_one, c_string_one}
use lwt.Calls.Open.{
  convert_flag_list, open_cloexec_table, OpenFlags, open_flag_table, OpenArgs, FileKind,
  is_blocking, wants_cloexec, worker_open, result_open, open_job,
}

unfoldable pub has : ℕ → List ℕ → Bool
has k [] = false
has k (x ∷ xs) = (x == k) || has k xs

-- Whether OCaml's flags ask for a descriptor that `exec` closes: `O_CLOEXEC` is the constructor 13 and
-- `O_KEEPEXEC` is 14, and the first wins.
abbrev pub asks : Bool → Bool → Bool → Bool
asks closes keeps default = if closes then true else if keeps then false else default

-- The number with these two bits.
abbrev word : Bool → Bool → ℕ
word closes keeps = if closes then (if keeps then 3 else 1) else if keeps then 2 else 0

wants_cloexec-word : (p q default : Bool) → wants_cloexec (word p q) default ≡ asks p q default
unfolding wants_cloexec
wants_cloexec-word true true default = refl
wants_cloexec-word true false default = refl
wants_cloexec-word false true default = refl
wants_cloexec-word false false default = refl

abbrev entry : ℕ → ℕ
entry i = word (i == 13) (i == 14)

bit_or-entry :
    (p q : Bool) (i : ℕ) → bit_or (word p q) (entry i) ≡ word (p || (i == 13)) (q || (i == 14))
bit_or-entry p q i = by_bits p q (i == 13) (i == 14)
  where
    by_bits : (p q r s : Bool) → bit_or (word p q) (word r s) ≡ word (p || r) (q || s)
    by_bits true true true true = refl
    by_bits true true true false = refl
    by_bits true true false true = refl
    by_bits true true false false = refl
    by_bits true false true true = refl
    by_bits true false true false = refl
    by_bits true false false true = refl
    by_bits true false false false = refl
    by_bits false true true true = refl
    by_bits false true true false = refl
    by_bits false true false true = refl
    by_bits false true false false = refl
    by_bits false false true true = refl
    by_bits false false true false = refl
    by_bits false false false true = refl
    by_bits false false false false = refl

-- `open_cloexec_table` is of this form, with 13 zeros.
marked_entry :
    (n i : ℕ)
    → i < n + 2
    → get_elem? (replicate n 0 ++ 1 ∷ 2 ∷ []) i ≡ some (word (i == n) (i == suc n))
marked_entry zero zero h = refl
marked_entry zero (suc zero) h = refl
marked_entry zero (suc (suc i)) h = absurd (omega arith)
marked_entry (suc n) zero h = ground arith
marked_entry (suc n) (suc i) h = ground (arith, marked_entry n i)

table_entry : (i : ℕ) → i < 15 → get_elem? open_cloexec_table i ≡ some (entry i)
table_entry i h = marked_entry 13 i h

get_elem?-lt : (xs : List ℕ) (i : ℕ) {x : ℕ} → get_elem? xs i ≡ some x → i < length xs
get_elem?-lt [] i h = cc
get_elem?-lt (y ∷ xs) zero h = omega arith
get_elem?-lt (y ∷ xs) (suc i) h = omega (arith, get_elem?-lt xs i h)

or_assoc : (a b c : Bool) → ((a || b) || c) ≡ (a || (b || c))
or_assoc true b c = refl
or_assoc false b c = refl

module _ (o : OpenFlags) (default : Bool) where
  cloexec_flags :
      (flags : List ℕ) (r : ℕ) {f : ℕ} (p q : Bool)
      → convert_flag_list (open_flag_table o) flags r ≡ some f
      → (fd : ℕ) × (convert_flag_list open_cloexec_table flags (word p q) ≡ some fd)
        × (wants_cloexec fd default ≡ asks (p || has 13 flags) (q || has 14 flags) default)
  unfolding convert_flag_list has
  cloexec_flags [] r p q h = (word p q, refl, wants_cloexec-word p q default ∙ ground arith)
  cloexec_flags (i ∷ flags) r p q h = elim (Option-cases (get_elem? (open_flag_table o) i)) [
    | inl e ↦ (let h' = (rw e at h) in cc)
    | inr (x, e) ↦
        let (fd, made, wants) =
          cloexec_flags flags (bit_or r x) (p || (i == 13)) (q || (i == 14)) (rw e at h) in
        (
          fd,
          rw (table_entry i (get_elem?-lt (open_flag_table o) i e), bit_or-entry p q i) made,
          rw (or_assoc p (i == 13) (has 13 flags), or_assoc q (i == 14) (has 14 flags)) at wants,
        )
  ]

  -- What the job is to return: the answer of the call, and whether the descriptor may block.
  abbrev pub opened :
      {W : Type 0} → Bytes → (ℤ × ℕ) → W → ((fd : ℕ) → W → Option FileKind) → Outcome (ℤ × Bool)
  opened name (pos fd, e) w fstat = returned (pos fd, is_blocking (fstat fd w))
  opened name (negsuc n, e) w fstat = raised (unix_error_arg e "open" name)

  abbrev pub Spec :
      {W : Type 0} → Bytes → ((fd : ℕ) → W → Option FileKind) → Sys W → W → Ran (ℤ × Bool) W
  Spec name fstat sys w =
      let (a, w') = sys w in record { value = opened name a w' fstat; freed = true; system = w' }

  -- The job for open, from the stub to the result: the call gets the `or` of the flags' entries,
  -- with `O_CLOEXEC` if OCaml's `O_CLOEXEC` is among the flags, or if `O_KEEPEXEC` is not and the
  -- default says so; a descriptor is returned with whether it may block, which is so unless it is a
  -- pipe or a socket; a negative answer raises `Unix_error` with the name; and the job is freed.
  -- Condition: the flags are in the table.
  pub open_calls :
      {W : Type 0} (open_ : Bytes → ℕ → ℤ → Sys W) (fstat : (fd : ℕ) → W → Option FileKind)
      (name : Bytes) (flags : List ℕ) (perms : ℤ) (w : W) (f : ℕ)
      → convert_flag_list (open_flag_table o) flags 0 ≡ some f
      → run
          (open_job o default name flags perms)
          (worker_open o default open_ fstat)
          (result_open o default)
          w
        ≡ Spec
            (cut name)
            fstat
            (open_
              (cut name)
              (if asks (has 13 flags) (has 14 flags) default then bit_or f o.o_cloexec else f)
              (int_val perms))
            w
  unfolding open_job worker_open result_open
  open_calls open_ fstat name flags perms w f h =
      let (fd, made, wants) = cloexec_flags flags 0 false false h in
      let args : OpenArgs = record {
        flags = f;
        perms = int_val perms;
        fd = fd;
        blocking = none;
        name = 0;
      } in
      rw (made, h, run, memcpy_one args name)
        (rw (run, c_string_one name, wants) (ground (arith, c_string_one name)))
