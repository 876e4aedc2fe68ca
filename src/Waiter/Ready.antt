-- ===== src/Waiter/Ready.antt =====
-- When the waits of src/waiter.c end, and what waiter_wait_timeout answers.
use mathlib.Core.Path.{subst}
use qrtr.Base.{
  ℕ, ◌+◌, ◌-◌, ◌^◌, ◌≤◌, ◌<◌, ◌≡◌, ◌≢◌, refl, sym, ap, ◌∙◌, inl, inr, false, Option, none, some,
  List, [], ◌∷◌, ltb, leb, ◌==◌, if◌then◌else◌, arith, Bool-cases,
}
use qrtr.Waiter.{
  Watch, watch_null, watch_fd, watch_timeout, Ticket, Pollset, Waiter, Polled, poll_error,
  poll_none, poll_ready, Poll, Waited, null_pollset, past_entries, u64_mod, first_ready,
  pollset_reset, pollset_add_fd, pollset_wait, deadline, collect, wait_until, after_poll,
  waiter_wait,
}
use qrtr.Waiter.Steps.{Among}

-- `term_time` is no later than the deadlines.
abbrev TermTime : List Ticket → ℕ → Option (Pollset × ℕ) → Type 0
TermTime ts term none = Unit {0}
TermTime ts term (some p) =
    (p.1 ≤ term)
    × ((t : Ticket) (i : ℕ) → Among t ts → t.watch ≡ watch_timeout i → p.1 ≤ deadline t i)

-- What the tickets after the first give, from a term_time that is no later than its own deadline.
more-TermTime :
    (t : Ticket) (ts : List Ticket) (term term' : ℕ) (o : Option (Pollset × ℕ))
    → term' ≤ term
    → ((i : ℕ) → t.watch ≡ watch_timeout i → term' ≤ deadline t i)
    → TermTime ts term' o
    → TermTime (t ∷ ts) term o
more-TermTime t ts term term' none low own h = tt
more-TermTime t ts term term' (some p) low own (le, h) = (omega (arith, low, le), by_place)
  where
    by_place :
        (x : Ticket) (i : ℕ) → Among x (t ∷ ts) → x.watch ≡ watch_timeout i → p.1 ≤ deadline x i
    by_place x i (inl e) k =
        subst (λ y. p.1 ≤ deadline y i) e
          (let own' = own i (ap (λ y. y.watch) e ∙ k) in omega (arith, own', le))
    by_place x i (inr a) k = h x i a k

collect-TermTime :
    (ts : List Ticket) (ps : Pollset) (term : ℕ) → TermTime ts term (collect ts ps term)
unfolding collect
collect-TermTime [] ps term = (omega arith, λ t i a. absurd a)
collect-TermTime (t ∷ ts) ps term = by_watch t.watch refl (collect-TermTime ts)
  where
    by_add :
        (o : Option Pollset)
        → ((i : ℕ) → t.watch ≡ watch_timeout i → ⊥)
        → ((ps : Pollset) (term : ℕ) → TermTime ts term (collect ts ps term))
        → TermTime (t ∷ ts) term (elim o [ none ↦ none | some ps' ↦ collect ts ps' term ])
    by_add none other rest = tt
    by_add (some ps') other rest =
        more-TermTime t ts term term (collect ts ps' term) (omega arith) (λ i e. absurd (other i e))
          (rest ps' term)

    by_watch :
        (k : Watch)
        → t.watch ≡ k
        → ((ps : Pollset) (term : ℕ) → TermTime ts term (collect ts ps term))
        → TermTime (t ∷ ts) term (elim k [
          | watch_null ↦ collect ts ps term
          | watch_fd fd ↦ elim (pollset_add_fd ps fd) [
            | none ↦ none
            | some ps' ↦ collect ts ps' term
          ]
          | watch_timeout interval ↦
              collect ts ps (if ltb (deadline t interval) term then deadline t interval else term)
        ])
    by_watch watch_null k rest =
        more-TermTime t ts term term (collect ts ps term) (omega arith) (λ i e. absurd (cc (k, e)))
          (rest ps term)
    by_watch (watch_fd fd) k rest = by_add (pollset_add_fd ps fd) (λ i e. cc (k, e)) rest
    by_watch (watch_timeout interval) k rest =
        let d = deadline t interval in
        let first = if ltb d term then d else term in
        more-TermTime t ts term first (collect ts ps first) (ground arith)
          (λ i e. let same : interval ≡ i = cc (k, e) in rw (sym same) (ground arith))
          (rest ps first)

-- The polls agree where they do not wait past a time.
abbrev pub AgreeUntil : ℕ → ℕ → Poll → Poll → Type 0
AgreeUntil before time poll poll' =
    (fds : List ℕ) (ms : ℕ) → before + ms ≤ time → poll fds (some ms) ≡ poll' fds (some ms)

wait_until-agree :
    (poll poll' : Poll) (ps : Pollset) (before term time : ℕ)
    → AgreeUntil before time poll poll'
    → term ≤ time
    → time < u64_mod - 1
    → wait_until poll ps before term ≡ wait_until poll' ps before term
unfolding wait_until pollset_wait
wait_until-agree poll poll' ps before term time agree le low =
    let b : (term == u64_mod - 1) ≡ false = ground arith in
    let delta = term - before in
    let capped = if ltb (2 ^ 31 - 1) delta then 2 ^ 31 - 1 else delta in
    elim (Bool-cases (leb term before)) [
      | inl c ↦ rw (b, c) refl
      | inr c ↦
          let short : capped ≤ delta = ground arith in
          let early : before + delta ≤ time = ground (arith, c, le) in
          rw (b, c) (ap (polled_with ps) (agree ps.fds capped (omega (arith, short, early))))
    ]
  where
    polled_with : Pollset → Polled → Pollset × Polled
    polled_with ps polled = elim polled [
      | poll_error ↦ (ps, poll_error)
      | poll_none ↦ (ps, poll_none)
      | poll_ready revents ↦
          (record ps { cause = first_ready 0 ps.fds revents }, poll_ready revents)
    ]

-- waiter_wait never asks poll to wait past the deadline of one of its timeouts: if the deadline is
-- not 2 ^ 64 - 1, the code for waiting forever, then two polls that agree on every call with a
-- timeout that ends by that deadline give the same wait.
pub wait-wakes :
    (poll poll' : Poll) (before now : ℕ) (w : Waiter) (t : Ticket) (interval : ℕ)
    → Among t w.tickets
    → t.watch ≡ watch_timeout interval
    → deadline t interval ≢ u64_mod - 1
    → AgreeUntil before (deadline t interval) poll poll'
    → waiter_wait poll before now w ≡ waiter_wait poll' before now w
unfolding waiter_wait
wait-wakes poll poll' before now w t interval a k finite agree = by_pollset w.pollset
  where
    time : ℕ
    time = deadline t interval

    low : time < u64_mod - 1
    low = omega (arith, finite)

    by_collect :
        (o : Option (Pollset × ℕ))
        → TermTime w.tickets (u64_mod - 1) o
        → (elim o as (λ _. Waited) [
          | none ↦ past_entries
          | some p ↦
              let (ps', term_time) = p in after_poll w now (wait_until poll ps' before term_time)
        ])
          ≡ (elim o as (λ _. Waited) [
            | none ↦ past_entries
            | some p ↦
                let (ps', term_time) = p in after_poll w now (wait_until poll' ps' before term_time)
          ])
    by_collect none h = refl
    by_collect (some (ps', term)) (le, h) =
        ap (after_poll w now)
          (wait_until-agree poll poll' ps' before term time agree (h t interval a k) low)

    by_pollset :
        (o : Option Pollset)
        → (elim o as (λ _. Waited) [
          | none ↦ null_pollset
          | some ps ↦ elim (collect w.tickets (pollset_reset ps) (u64_mod - 1)) [
            | none ↦ past_entries
            | some p ↦
                let (ps', term_time) = p in after_poll w now (wait_until poll ps' before term_time)
          ]
        ])
          ≡ (elim o as (λ _. Waited) [
            | none ↦ null_pollset
            | some ps ↦ elim (collect w.tickets (pollset_reset ps) (u64_mod - 1)) [
              | none ↦ past_entries
              | some p ↦
                  let (ps', term_time) = p in
                  after_poll w now (wait_until poll' ps' before term_time)
            ]
          ])
    by_pollset none = refl
    by_pollset (some ps) =
        by_collect (collect w.tickets (pollset_reset ps) (u64_mod - 1))
          (collect-TermTime w.tickets (pollset_reset ps) (u64_mod - 1))
