-- ===== src/Waiter/Answers.antt =====
-- What waiter_wait_timeout of src/waiter.c answers.
use qrtr.Base.{
  ℕ, ◌+◌, ◌-◌, ◌%◌, ◌^◌, ◌≤◌, ◌≡◌, ◌≢◌, refl, ap, ◌∙◌, inl, inr, Bool, true, false, not, ◌&&◌,
  Option, none, some, List, [], ◌∷◌, ◌++◌, ltb, leb, ◌==◌, if◌then◌else◌, arith,
}
use qrtr.Waiter.{
  Watch, watch_null, watch_fd, watch_timeout, Ticket, Pollset, Waiter, Polled, poll_error,
  poll_none, poll_ready, Poll, Waited, waited, null_pollset, past_entries, u64_mod, first_ready,
  pollset_cause_fd, pollset_reset, pollset_wait, deadline, collect, wait_until, deliver,
  deliver_loop, after_poll, waiter_wait, set_timeout, new_ticket, is_updated, after_wait,
  waiter_wait_timeout,
}
use qrtr.Waiter.Steps.{HasTicket, Reachable, IsRoomy}
use qrtr.Waiter.Steps.Lengths.{address-deliver}
use qrtr.Waiter.Steps.Waits.{Stays}
use qrtr.Waiter.Steps.Reached.{with_local, local-Stays, reached-IsRoomy, after_wait-IsRoomy}

-- The delivery of a ticket that nothing triggered before.
deliver-timeout :
    (now : ℕ) (ready : Bool) (ps : Pollset) (t : Ticket) (interval : ℕ)
    → t.watch ≡ watch_timeout interval
    → t.updated ≡ false
    → (deliver now ready ps t).0.updated ≡ leb (deadline t interval) now
unfolding deliver
deliver-timeout now ready ps t interval k fresh = by_watch t.watch k
  where
    UpdatedWhen : Bool → Ticket × Bool → Type 0
    UpdatedWhen c x = x.0.updated ≡ c

    by_test :
        (c : Bool)
        → UpdatedWhen c
            (if c then (record t { start = now; updated = true }, not t.updated) else (t, false))
    by_test true = refl
    by_test false = fresh

    by_watch :
        (k : Watch)
        → k ≡ watch_timeout interval
        → UpdatedWhen (leb (deadline t interval) now) (elim k [
          | watch_null ↦ (t, false)
          | watch_fd fd ↦
              if ready && pollset_cause_fd ps fd
              then (record t { updated = true }, not t.updated)
              else (t, false)
          | watch_timeout interval ↦
              if leb (deadline t interval) now
              then (record t { start = now; updated = true }, not t.updated)
              else (t, false)
        ])
    by_watch watch_null e = absurd (cc e)
    by_watch (watch_fd fd) e = absurd (cc e)
    by_watch (watch_timeout j) e =
        let same : j ≡ interval = cc e in
        by_test (leb (deadline t j) now) ∙ ap (λ i. leb (deadline t i) now) same

-- The last ticket, if it is the only one at its address.
is_updated-last :
    (address now : ℕ) (ready : Bool) (ps : Pollset) (ts : List Ticket) (t : Ticket)
    → (HasTicket address ts → ⊥)
    → t.address ≡ address
    → is_updated address (deliver_loop now ready ps (ts ++ (t ∷ []))).0
      ≡ (deliver now ready ps t).0.updated
unfolding is_updated deliver_loop
is_updated-last address now ready ps [] t alone e =
    let b : ((deliver now ready ps t).0.address == address) ≡ true =
      rw (address-deliver now ready ps t, e) (ground arith) in
    rw b refl
is_updated-last address now ready ps (x ∷ ts) t alone e =
    let apart : x.address ≢ address = λ k. alone (inl k) in
    let b : ((deliver now ready ps x).0.address == address) ≡ false =
      rw (address-deliver now ready ps x) (ground arith) in
    rw b (is_updated-last address now ready ps ts t (λ h. alone (inr h)) e)

-- The answer of `waiter_wait_timeout`.
abbrev pub Answers : Waiter → Bool → Waited × Bool → Type 0
Answers w expired (waited w' calls, in_time) =
    (in_time ≡ not expired) × IsRoomy w' × (w'.count ≡ w.count)
Answers w expired (null_pollset, in_time) = ⊥
Answers w expired (past_entries, in_time) = ⊥

-- What `after_wait` reads of a wait.
abbrev UpdatedAt : ℕ → Bool → Waited → Type 0
UpdatedAt ticket expired (waited w' calls) = is_updated ticket w'.tickets ≡ expired
UpdatedAt ticket expired null_pollset = Unit {0}
UpdatedAt ticket expired past_entries = Unit {0}

answer_of :
    (ticket ms start : ℕ) (w : Waiter) (expired : Bool) (o : Waited)
    → IsRoomy w
    → (w.pollset ≢ none)
    → Stays (with_local ticket ms start w) o
    → UpdatedAt ticket expired o
    → Answers w expired (after_wait ticket o)
unfolding after_wait
answer_of ticket ms start w expired (waited w' calls) h p s e =
    let (long, same, room, at) = s in
    (
      ap not e,
      after_wait-IsRoomy ticket ms start w (waited w' calls) _ calls _ h s refl,
      omega (arith, same),
    )
answer_of ticket ms start w expired null_pollset h p s e = p s
answer_of ticket ms start w expired past_entries h p s e = s

-- The poll does not fail.
abbrev pub NeverFails : Poll → Type 0
NeverFails poll = (fds : List ℕ) (ms : Option ℕ) → poll fds ms ≢ poll_error

never-wait_until :
    (poll : Poll) (ps : Pollset) (before term : ℕ)
    → NeverFails poll
    → (wait_until poll ps before term).1 ≢ poll_error
unfolding wait_until pollset_wait
never-wait_until poll ps before term never = by_test (term == u64_mod - 1) (leb term before)
  where
    capped : ℕ
    capped = if ltb (2 ^ 31 - 1) (term - before) then 2 ^ 31 - 1 else term - before

    Succeeds : Pollset × Polled → Type 0
    Succeeds x = x.1 ≢ poll_error

    by_polled :
        (o : Polled)
        → o ≢ poll_error
        → Succeeds (elim o [
          | poll_error ↦ (ps, poll_error)
          | poll_none ↦ (ps, poll_none)
          | poll_ready revents ↦
              (record ps { cause = first_ready 0 ps.fds revents }, poll_ready revents)
        ])
    by_polled poll_error h = h
    by_polled poll_none h = λ e. cc e
    by_polled (poll_ready revents) h = λ e. cc e

    by_test :
        (c d : Bool)
        → Succeeds (
            if c
            then pollset_wait poll ps none
            else if d
            then (ps, poll_none)
            else pollset_wait poll ps (some capped))
    by_test true d = by_polled (poll ps.fds none) (never ps.fds none)
    by_test false true = λ e. cc e
    by_test false false = by_polled (poll ps.fds (some capped)) (never ps.fds (some capped))

module _ (ticket ms start now : ℕ) (w : Waiter) (alone : HasTicket ticket w.tickets → ⊥) where
  expired : Bool
  expired = leb ((start + ms) % u64_mod) now

  polled-UpdatedAt :
      (p : Pollset × Polled)
      → p.1 ≢ poll_error
      → UpdatedAt ticket expired (after_poll (with_local ticket ms start w) now p)
  unfolding after_poll expired
  polled-UpdatedAt (ps, poll_error) never = absurd (never refl)
  polled-UpdatedAt (ps, poll_none) never =
      let local = set_timeout ms start (new_ticket ticket) in
      is_updated-last ticket now false ps w.tickets local alone refl
      ∙ deliver-timeout now false ps local ms refl refl
  polled-UpdatedAt (ps, poll_ready revents) never =
      let local = set_timeout ms start (new_ticket ticket) in
      is_updated-last ticket now true ps w.tickets local alone refl
      ∙ deliver-timeout now true ps local ms refl refl

  waited-UpdatedAt :
      (poll : Poll) (before : ℕ)
      → NeverFails poll
      → UpdatedAt ticket expired (waiter_wait poll before now (with_local ticket ms start w))
  unfolding waiter_wait
  waited-UpdatedAt poll before never = by_pollset w.pollset
    where
      by_collect :
          (o : Option (Pollset × ℕ))
          → UpdatedAt ticket expired (elim o [
            | none ↦ past_entries
            | some p ↦
                let (ps', term_time) = p in
                after_poll (with_local ticket ms start w) now (wait_until poll ps' before term_time)
          ])
      by_collect none = tt
      by_collect (some (ps', term)) =
          polled-UpdatedAt (wait_until poll ps' before term)
            (never-wait_until poll ps' before term never)

      by_pollset :
          (o : Option Pollset)
          → UpdatedAt ticket expired (elim o [
            | none ↦ null_pollset
            | some ps ↦
                elim (collect
                  (with_local ticket ms start w).tickets
                  (pollset_reset ps)
                  (u64_mod - 1)) [
                    | none ↦ past_entries
                    | some p ↦
                        let (ps', term_time) = p in
                        after_poll
                          (with_local ticket ms start w)
                          now
                          (wait_until poll ps' before term_time)
                  ]
          ])
      by_pollset none = tt
      by_pollset (some ps) =
          by_collect
            (collect (with_local ticket ms start w).tickets (pollset_reset ps) (u64_mod - 1))

-- For a waiter with tickets that is reached from waiter_create by any calls where pollsets can be
-- allocated and only tickets of the waiter are deleted, a local ticket at an address of its own and
-- a poll that does not fail: whether or not a ticket was triggered, waiter_wait_timeout returns 0 if
-- its deadline has not passed at the time after poll and -1 if it has, and leaves the waiter with
-- the number of tickets that it had and room for them.
pub wait_timeout-Answers :
    (poll : Poll) (ticket ms start before now : ℕ) (w : Waiter)
    → Reachable w
    → 1 ≤ w.count
    → (HasTicket ticket w.tickets → ⊥)
    → NeverFails poll
    → Answers w
        (leb ((start + ms) % u64_mod) now)
        (waiter_wait_timeout poll ticket ms start before now w)
unfolding waiter_wait_timeout expired
wait_timeout-Answers poll ticket ms start before now w r one alone never =
    let h = reached-IsRoomy r in
    answer_of ticket ms start w (leb ((start + ms) % u64_mod) now)
      (waiter_wait poll before now (with_local ticket ms start w)) h
      (λ e. let z = h.present e in absurd (omega (arith, z, one)))
      (local-Stays poll ticket ms start before now w h)
      (waited-UpdatedAt ticket ms start now w alone poll before never)
