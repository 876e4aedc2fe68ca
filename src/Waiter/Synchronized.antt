-- ===== src/Waiter/Synchronized.antt =====
-- What waiter_synchronize of src/waiter.c does to the timeouts.
use mathlib.Core.Path.{subst}
use qrtr.Base.{
  ℕ, zero, suc, ◌≤◌, ◌≡◌, ◌≢◌, refl, sym, ap, ◌∙◌, inl, inr, true, false, Option, none, some, List,
  [], ◌∷◌, length, ◌==◌, if◌then◌else◌, arith, Bool-cases,
}
use qrtr.Waiter.{
  Watch, watch_null, watch_fd, watch_timeout, Ticket, Waiter, synchronize_after, synchronize_loop,
  waiter_synchronize,
}
use qrtr.Waiter.Steps.{Among}
use qrtr.Waiter.Steps.Lengths.{length-synchronize_after}

abbrev here_or : Watch → ℕ → ℕ → Option ℕ → Option ℕ
here_or watch_null i start rest = rest
here_or (watch_fd fd) i start rest = rest
here_or (watch_timeout j) i start rest = if j == i then some start else rest

here_or-same :
    (h : Watch) (i j start : ℕ) (rest : Option ℕ)
    → h ≡ watch_timeout j
    → (j == i) ≡ true
    → here_or h i start rest ≡ some start
here_or-same watch_null i j start rest k b = absurd (cc k)
here_or-same (watch_fd fd) i j start rest k b = absurd (cc k)
here_or-same (watch_timeout h) i j start rest k b = let same : h ≡ j = cc k in rw (same, b) refl

here_or-other :
    (h : Watch) (i j start : ℕ) (rest : Option ℕ)
    → h ≡ watch_timeout j
    → (j == i) ≡ false
    → here_or h i start rest ≡ rest
here_or-other watch_null i j start rest k b = absurd (cc k)
here_or-other (watch_fd fd) i j start rest k b = absurd (cc k)
here_or-other (watch_timeout h) i j start rest k b = let same : h ≡ j = cc k in rw (same, b) refl

-- The start of the first timeout of a length.
abbrev pub first_start : ℕ → List Ticket → Option ℕ
first_start i [] = none
first_start i (t ∷ ts) = here_or t.watch i t.start (first_start i ts)

-- The inner loop leaves the other lengths alone.
synchronize_after-other :
    (i j start : ℕ) (ts : List Ticket)
    → j ≢ i
    → first_start i (synchronize_after j start ts) ≡ first_start i ts
unfolding synchronize_after
synchronize_after-other i j start [] apart = refl
synchronize_after-other i j start (t ∷ ts) apart =
    by_watch t.watch refl (synchronize_after-other i j start ts apart)
  where
    by_watch :
        (k : Watch)
        → t.watch ≡ k
        → first_start i (synchronize_after j start ts) ≡ first_start i ts
        → first_start i (elim k [
          | watch_null ↦ t ∷ synchronize_after j start ts
          | watch_fd fd ↦ t ∷ synchronize_after j start ts
          | watch_timeout other ↦
              if other == j
              then record t { start = start } ∷ ts
              else t ∷ synchronize_after j start ts
        ])
          ≡ here_or t.watch i t.start (first_start i ts)
    by_watch watch_null k same = ap (here_or t.watch i t.start) same
    by_watch (watch_fd fd) k same = ap (here_or t.watch i t.start) same
    by_watch (watch_timeout other) k same = elim (Bool-cases (other == j)) [
      | inl b ↦
          let c : (other == i) ≡ false = ground (arith, b, apart) in
          rw b (
            here_or-other t.watch i other start (first_start i ts) k c
            ∙ sym (here_or-other t.watch i other t.start (first_start i ts) k c))
      | inr b ↦ rw b (ap (here_or t.watch i t.start) same)
    ]

-- No start of a length, or this one.
abbrev OnlyStart : ℕ → Option ℕ → Type 0
OnlyStart start none = Unit {0}
OnlyStart start (some other) = other ≡ start

synchronize_after-same :
    (i start : ℕ) (ts : List Ticket)
    → OnlyStart start (first_start i (synchronize_after i start ts))
unfolding synchronize_after
synchronize_after-same i start [] = tt
synchronize_after-same i start (t ∷ ts) = by_watch t.watch refl (synchronize_after-same i start ts)
  where
    at_head :
        (start' : ℕ) (rest : List Ticket) (h : Watch)
        → t.watch ≡ h
        → OnlyStart start (here_or h i start' (first_start i rest))
        → OnlyStart start (here_or t.watch i start' (first_start i rest))
    at_head start' rest h k o =
        subst (λ h. OnlyStart start (here_or h i start' (first_start i rest))) (sym k) o

    by_watch :
        (k : Watch)
        → t.watch ≡ k
        → OnlyStart start (first_start i (synchronize_after i start ts))
        → OnlyStart start (
            first_start i (elim k [
              | watch_null ↦ t ∷ synchronize_after i start ts
              | watch_fd fd ↦ t ∷ synchronize_after i start ts
              | watch_timeout other ↦
                  if other == i
                  then record t { start = start } ∷ ts
                  else t ∷ synchronize_after i start ts
            ]))
    by_watch watch_null k same = at_head t.start (synchronize_after i start ts) watch_null k same
    by_watch (watch_fd fd) k same =
        at_head t.start (synchronize_after i start ts) (watch_fd fd) k same
    by_watch (watch_timeout other) k same = elim (Bool-cases (other == i)) [
      | inl b ↦ rw b (at_head start ts (watch_timeout other) k (rw b refl))
      | inr b ↦
          rw b (at_head t.start (synchronize_after i start ts) (watch_timeout other) k (rw b same))
    ]

-- The outer loop leaves the first start of each length.
synchronize_loop-first :
    (i n : ℕ) (ts : List Ticket) → first_start i (synchronize_loop n ts) ≡ first_start i ts
unfolding synchronize_loop
synchronize_loop-first i zero [] = refl
synchronize_loop-first i (suc n) [] = refl
synchronize_loop-first i zero (t ∷ ts) = refl
synchronize_loop-first i (suc n) (t ∷ ts) = by_watch t.watch refl (synchronize_loop-first i n)
  where
    by_watch :
        (k : Watch)
        → t.watch ≡ k
        → ((ts : List Ticket) → first_start i (synchronize_loop n ts) ≡ first_start i ts)
        → first_start i (elim k [
          | watch_null ↦ t ∷ synchronize_loop n ts
          | watch_fd fd ↦ t ∷ synchronize_loop n ts
          | watch_timeout interval ↦ t ∷ synchronize_loop n (synchronize_after interval t.start ts)
        ])
          ≡ here_or t.watch i t.start (first_start i ts)
    by_watch watch_null k same = ap (here_or t.watch i t.start) (same ts)
    by_watch (watch_fd fd) k same = ap (here_or t.watch i t.start) (same ts)
    by_watch (watch_timeout j) k same = elim (Bool-cases (j == i)) [
      | inl b ↦
          here_or-same t.watch i j t.start
            (first_start i (synchronize_loop n (synchronize_after j t.start ts))) k b
          ∙ sym (here_or-same t.watch i j t.start (first_start i ts) k b)
      | inr b ↦
          let apart : j ≢ i = ground (arith, b) in
          ap (here_or t.watch i t.start)
            (same (synchronize_after j t.start ts) ∙ synchronize_after-other i j t.start ts apart)
    ]

-- Every timeout starts with the first of its length.
AllFirst : List Ticket → Type 0
AllFirst ts =
    (t : Ticket) (i : ℕ) → Among t ts → t.watch ≡ watch_timeout i → first_start i ts ≡ some t.start

-- A ticket before tickets that start together.
cons-AllFirst :
    (t : Ticket) (ts : List Ticket)
    → ((i : ℕ) → t.watch ≡ watch_timeout i → OnlyStart t.start (first_start i ts))
    → AllFirst ts
    → AllFirst (t ∷ ts)
unfolding AllFirst
cons-AllFirst t ts only all x i (inl e) k =
    let own : t.watch ≡ watch_timeout i = ap (λ y. y.watch) e ∙ k in
    let b : (i == i) ≡ true = ground arith in
    ap (λ h. here_or h i t.start (first_start i ts)) own ∙ rw b (ap (λ y. some y.start) e)
cons-AllFirst t ts only all x i (inr a) k = by_watch t.watch refl
  where
    of_only : (o : Option ℕ) → OnlyStart t.start o → o ≡ some x.start → some t.start ≡ some x.start
    of_only none h e = absurd (cc e)
    of_only (some y) h e = ap some (sym h) ∙ e

    by_watch : (h : Watch) → t.watch ≡ h → here_or h i t.start (first_start i ts) ≡ some x.start
    by_watch watch_null own = all x i a k
    by_watch (watch_fd fd) own = all x i a k
    by_watch (watch_timeout j) own = elim (Bool-cases (j == i)) [
      | inl b ↦
          let same : j ≡ i = ground (arith, b) in
          rw b (of_only (first_start i ts) (only i (own ∙ ap watch_timeout same)) (all x i a k))
      | inr b ↦ rw b (all x i a k)
    ]

synchronize_loop-AllFirst :
    (n : ℕ) (ts : List Ticket) → length ts ≤ n → AllFirst (synchronize_loop n ts)
unfolding synchronize_loop AllFirst
synchronize_loop-AllFirst zero [] h = λ t i a k. absurd a
synchronize_loop-AllFirst (suc n) [] h = λ t i a k. absurd a
synchronize_loop-AllFirst zero (t ∷ ts) h = absurd (omega arith)
synchronize_loop-AllFirst (suc n) (t ∷ ts) h = by_watch t.watch refl (synchronize_loop-AllFirst n)
  where
    by_watch :
        (k : Watch)
        → t.watch ≡ k
        → ((ts : List Ticket) → length ts ≤ n → AllFirst (synchronize_loop n ts))
        → AllFirst (elim k [
          | watch_null ↦ t ∷ synchronize_loop n ts
          | watch_fd fd ↦ t ∷ synchronize_loop n ts
          | watch_timeout interval ↦ t ∷ synchronize_loop n (synchronize_after interval t.start ts)
        ])
    by_watch watch_null k all = cons-AllFirst t _ (λ i e. absurd (cc (k, e))) (all ts (omega arith))
    by_watch (watch_fd fd) k all =
        cons-AllFirst t _ (λ i e. absurd (cc (k, e))) (all ts (omega arith))
    by_watch (watch_timeout j) k all =
        let rest = synchronize_after j t.start ts in
        let long = length-synchronize_after j t.start ts in
        cons-AllFirst t (synchronize_loop n rest)
          (λ i e.
            let same : j ≡ i = cc (k, e) in
            rw (sym same, synchronize_loop-first j n rest) (synchronize_after-same j t.start ts))
          (all rest (omega (arith, long)))

-- After waiter_synchronize every timeout has the start that the first timeout of the same length had
-- before.
pub synchronize-first_start :
    (w : Waiter) (t : Ticket) (interval : ℕ)
    → Among t (waiter_synchronize w).tickets
    → t.watch ≡ watch_timeout interval
    → first_start interval w.tickets ≡ some t.start
unfolding waiter_synchronize AllFirst
synchronize-first_start w t interval a k =
    sym (synchronize_loop-first interval (length w.tickets) w.tickets)
    ∙ synchronize_loop-AllFirst (length w.tickets) w.tickets (omega arith) t interval a k
