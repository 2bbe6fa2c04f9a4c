-- ===== src/Getaddrinfo/Meaning.antt =====
-- What the hints for src/unix/unix_c/unix_getaddrinfo_job.c mean, field by field.
use Prim.Native.Nat.{bit_or}
use lwt.Base.{
  ℕ, zero, suc, ◌<◌, List, [], ◌∷◌, some, ℤ, int_val, get_elem?, length, ◌≡◌, refl, arith,
}
use lwt.Getaddrinfo.{
  Hint, ai_family, ai_socktype, ai_protocol, ai_numerichost, ai_canonname, ai_passive, Hints,
  Constants, add_hint, add_hints,
}

-- The entry of a table at an index in it.
abbrev pub entry_at : List ℕ → ℕ → ℕ
entry_at [] i = 0
entry_at (x ∷ table) zero = x
entry_at (x ∷ table) (suc i) = entry_at table i

get_elem?-entry_at :
    (table : List ℕ) (i : ℕ) → i < length table → get_elem? table i ≡ some (entry_at table i)
get_elem?-entry_at [] i h = absurd (omega arith)
get_elem?-entry_at (x ∷ table) zero h = refl
get_elem?-entry_at (x ∷ table) (suc i) h = get_elem?-entry_at table i (omega arith)

module _ (c : Constants) where
  -- The families and types among the hints have entries in the tables.
  abbrev pub InTables : List Hint → Type 0
  InTables [] = Unit
  InTables (ai_family i ∷ hints) = (i < length c.socket_domain_table) × InTables hints
  InTables (ai_socktype i ∷ hints) = (i < length c.socket_type_table) × InTables hints
  InTables (_ ∷ hints) = InTables hints

  -- The last family, type and protocol among the hints, or what there was before.
  abbrev pub family_after : ℕ → List Hint → ℕ
  family_after f [] = f
  family_after f (ai_family i ∷ hints) = family_after (entry_at c.socket_domain_table i) hints
  family_after f (_ ∷ hints) = family_after f hints

  abbrev pub socktype_after : ℕ → List Hint → ℕ
  socktype_after t [] = t
  socktype_after t (ai_socktype i ∷ hints) = socktype_after (entry_at c.socket_type_table i) hints
  socktype_after t (_ ∷ hints) = socktype_after t hints

  abbrev pub protocol_after : ℤ → List Hint → ℤ
  protocol_after p [] = p
  protocol_after p (ai_protocol n ∷ hints) = protocol_after (int_val n) hints
  protocol_after p (_ ∷ hints) = protocol_after p hints

  -- The flags among the hints, with those there were before.
  abbrev pub flags_after : ℕ → List Hint → ℕ
  flags_after w [] = w
  flags_after w (ai_numerichost ∷ hints) = flags_after (bit_or w c.numerichost) hints
  flags_after w (ai_canonname ∷ hints) = flags_after (bit_or w c.canonname) hints
  flags_after w (ai_passive ∷ hints) = flags_after (bit_or w c.passive) hints
  flags_after w (_ ∷ hints) = flags_after w hints

  abbrev pub meant_after : Hints → List Hint → Hints
  meant_after h hints = record {
    ai_flags = flags_after h.ai_flags hints;
    ai_family = family_after h.ai_family hints;
    ai_socktype = socktype_after h.ai_socktype hints;
    ai_protocol = protocol_after h.ai_protocol hints;
  }

  pub add_hints-meant :
      (hints : List Hint) (h : Hints)
      → InTables hints
      → add_hints c hints h ≡ some (meant_after h hints)
  unfolding add_hints add_hint
  add_hints-meant [] h i = refl
  add_hints-meant (ai_family k ∷ hints) h i =
      rw (get_elem?-entry_at c.socket_domain_table k i.0, add_hints, add_hint)
        (add_hints-meant hints _ i.1)
  add_hints-meant (ai_socktype k ∷ hints) h i =
      rw (get_elem?-entry_at c.socket_type_table k i.0, add_hints, add_hint)
        (add_hints-meant hints _ i.1)
  add_hints-meant (ai_protocol n ∷ hints) h i = add_hints-meant hints _ i
  add_hints-meant (ai_numerichost ∷ hints) h i = add_hints-meant hints _ i
  add_hints-meant (ai_canonname ∷ hints) h i = add_hints-meant hints _ i
  add_hints-meant (ai_passive ∷ hints) h i = add_hints-meant hints _ i
