-- ===== src/Pool/Queue.antt =====
-- The circular list of src/unix/lwt_unix_stubs.c as a first-in first-out queue.
use lwt.Base.{
  ℕ, ◌≡◌, refl, sym, ap, ◌∙◌, ◌≢◌, List, [], ◌∷◌, ◌++◌, Option, none, some, eq→==, ne→==,
}
use lwt.Pool.{Pool, update, enqueue, dequeue}

abbrev pub Fresh : ℕ → List ℕ → Type 0
Fresh j [] = Unit
Fresh j (x ∷ xs) = (j ≢ x) × Fresh j xs

abbrev pub Distinct : List ℕ → Type 0
Distinct [] = Unit
Distinct (x ∷ xs) = Fresh x xs × Distinct xs

-- From `prev` the `next` fields lead through the list, which ends with `last`.
abbrev pub Links : (ℕ → ℕ) → ℕ → List ℕ → ℕ → Type 0
Links next prev [] last = prev ≡ last
Links next prev (x ∷ xs) last = (next prev ≡ x) × Links next x xs last

-- The queue holds the jobs of the list, first to last: from the last one `next` leads round to it.
abbrev pub Ring : (ℕ → ℕ) → Option ℕ → List ℕ → Type 0
Ring next none jobs = jobs ≡ []
Ring next (some last) [] = ⊥
Ring next (some last) (x ∷ xs) = Links next last (x ∷ xs) last

abbrev pub Holds : Pool → List ℕ → Type 0
Holds p jobs = Ring p.next p.pool_queue jobs × Distinct jobs

-- What is distinct from a whole chain is distinct from its end.
Fresh-last :
    (next : ℕ → ℕ) (j x last : ℕ) (xs : List ℕ) → Fresh j (x ∷ xs) → Links next x xs last → j ≢ last
Fresh-last next j x last [] f l e = f.0 (e ∙ sym l)
Fresh-last next j x last (y ∷ ys) f l e = Fresh-last next j y last ys f.1 l.1 e

update_self : (f : ℕ → ℕ) (i v : ℕ) → update f i v i ≡ v
update_self f i v = rw (eq→== i i refl)

update_ne : (f : ℕ → ℕ) (i v k : ℕ) → k ≢ i → update f i v k ≡ f k
update_ne f i v k h = rw (ne→== k i h)

-- A new value for the last `next` does not touch the links before it.
Links-update :
    (next : ℕ → ℕ) (v prev last : ℕ) (xs : List ℕ)
    → Fresh prev xs
    → Distinct xs
    → Links next prev xs last
    → Links (update next last v) prev xs last
Links-update next v prev last [] f d l = l
Links-update next v prev last (x ∷ xs) f d l = (
  update_ne next last v prev (Fresh-last next prev x last xs f l.1) ∙ l.0,
  Links-update next v x last xs d.0 d.1 l.1,
)

Links-Fresh :
    (next : ℕ → ℕ) (j v prev last : ℕ) (xs : List ℕ)
    → j ≢ prev
    → Fresh j xs
    → Links next prev xs last
    → Links (update next j v) prev xs last
Links-Fresh next j v prev last [] h f l = l
Links-Fresh next j v prev last (x ∷ xs) h f l =
    (update_ne next j v prev (λ e. h (sym e)) ∙ l.0, Links-Fresh next j v x last xs f.0 f.1 l.1)

Links-snoc :
    (next : ℕ → ℕ) (j prev last : ℕ) (xs : List ℕ)
    → Links next prev xs last
    → next last ≡ j
    → Links next prev (xs ++ j ∷ []) j
Links-snoc next j prev last [] l e = (rw l e, refl)
Links-snoc next j prev last (x ∷ xs) l e = (l.0, Links-snoc next j x last xs l.1 e)

Distinct-snoc : (j : ℕ) (xs : List ℕ) → Fresh j xs → Distinct xs → Distinct (xs ++ j ∷ [])
Distinct-snoc j [] f d = (tt, tt)
Distinct-snoc j (x ∷ xs) f d = (apart xs d.0, Distinct-snoc j xs f.1 d.1)
  where
    apart : (ys : List ℕ) → Fresh x ys → Fresh x (ys ++ j ∷ [])
    apart [] h = ((λ e. f.0 (sym e)), tt)
    apart (y ∷ ys) h = (h.0, apart ys h.1)

-- If the circular list holds some distinct jobs in order, then after a new job was added it holds
-- them, followed by the new one.
pub enqueue-Holds :
    (j : ℕ) (jobs : List ℕ) (p : Pool)
    → Fresh j jobs
    → Holds p jobs
    → Holds (enqueue j p) (jobs ++ j ∷ [])
unfolding enqueue
enqueue-Holds j jobs p f (r, d) = (go p.pool_queue jobs f r d, Distinct-snoc j jobs f d)
  where
    go :
        (q : Option ℕ) (xs : List ℕ)
        → Fresh j xs
        → Ring p.next q xs
        → Distinct xs
        → Ring
            (enqueue j (record p { pool_queue = q })).next
            (enqueue j (record p { pool_queue = q })).pool_queue
            (xs ++ j ∷ [])
    go none xs f r d = rw r (update_self p.next j j, refl)
    go (some last) [] f r d = absurd r
    go (some last) (x ∷ xs) f r d =
        let next' = update p.next j (p.next last) in
        (
          update_ne next' last j j (Fresh-last p.next j x last xs f r.1)
              ∙ (update_self p.next j (p.next last) ∙ r.0),
          Links-snoc (update next' last j) j x last xs
              (Links-update next' j x last xs d.0 d.1
                (Links-Fresh p.next j (p.next last) x last xs f.0 f.1 r.1))
              (update_self next' last j),
        )

dequeue-Links :
    (last x : ℕ) (xs : List ℕ) (p : Pool)
    → p.pool_queue ≡ some last
    → Links p.next last (x ∷ xs) last
    → Distinct (x ∷ xs)
    → (p' : Pool) × (dequeue p ≡ some (x, p')) × Holds p' xs
unfolding dequeue
dequeue-Links last x [] p e l d = (
  record p { pool_queue = none },
  rw (e, dequeue) (rw l.0 (rw (eq→== (p.next x) x (ap p.next l.1 ∙ l.0)))),
  (refl, tt),
)
dequeue-Links last x (y ∷ ys) p e l d = (
  record p { pool_queue = some last; next = update p.next last y },
  rw (e, dequeue)
      (rw (l.0, l.1.0)
        (rw (ne→== y x (λ q. d.0.0 (sym q)))
          (ap (λ q. some (x, record p { pool_queue = q; next = update p.next last y })) e))),
  ((update_self p.next last y, Links-update p.next y y last ys d.1.0 d.1.1 l.1.1), d.1),
)

-- If the circular list holds distinct jobs, then a worker takes the first of them, and the list
-- holds the others in order.
pub dequeue-Holds :
    (x : ℕ) (xs : List ℕ) (p : Pool)
    → Holds p (x ∷ xs)
    → (p' : Pool) × (dequeue p ≡ some (x, p')) × Holds p' xs
dequeue-Holds x xs p (r, d) = go p.pool_queue refl r
  where
    go :
        (q : Option ℕ)
        → p.pool_queue ≡ q
        → Ring p.next q (x ∷ xs)
        → (p' : Pool) × (dequeue p ≡ some (x, p')) × Holds p' xs
    go none e r = absurd (cc r)
    go (some last) e r = dequeue-Links last x xs p e r d

pub dequeue-empty : (p : Pool) → Holds p [] → dequeue p ≡ none
unfolding dequeue
dequeue-empty p (r, d) = go p.pool_queue refl r
  where
    go : (q : Option ℕ) → p.pool_queue ≡ q → Ring p.next q [] → dequeue p ≡ none
    go none e r = rw (e, dequeue)
    go (some last) e r = absurd r
