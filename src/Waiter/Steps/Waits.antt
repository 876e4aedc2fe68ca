-- ===== src/Waiter/Steps/Waits.antt =====
-- `waiter_wait` of src/waiter.c keeps to the entries of its pollset.
use qrtr.Base.{
  ℕ, ◌+◌, ◌-◌, ◌^◌, ◌≤◌, ◌≡◌, refl, ◌∙◌, Bool, true, false, Option, none, some, List, [], ◌∷◌, ◌++◌,
  length, length-append, ltb, leb, ◌==◌, if◌then◌else◌, arith,
}
use qrtr.Waiter.{
  Watch, watch_null, watch_fd, watch_timeout, Ticket, Pollset, Waiter, Polled, poll_error,
  poll_none, poll_ready, Poll, Waited, waited, null_pollset, past_entries, u64_mod, first_ready,
  pollset_reset, pollset_add_fd, pollset_wait, deadline, collect, wait_until, after_poll,
  waiter_wait,
}
use qrtr.Waiter.Steps.{HasTicket}
use qrtr.Waiter.Steps.Lengths.{length-deliver_loop, HasTicket-deliver_loop}

-- The first loop of a wait has room for a file descriptor of each ticket.
abbrev pub Collects : ℕ → Option (Pollset × ℕ) → Type 0
Collects room none = ⊥
Collects room (some p) = p.0.room ≡ room

collect-Collects :
    (ts : List Ticket) (ps : Pollset) (term_time : ℕ)
    → length ps.fds + length ts ≤ ps.room
    → Collects ps.room (collect ts ps term_time)
unfolding collect pollset_add_fd
collect-Collects [] ps term_time h = refl
collect-Collects (t ∷ ts) ps term_time h =
    by_watch t.watch (λ ps' term' h'. collect-Collects ts ps' term' h')
  where
    add : (fd : ℕ) → pollset_add_fd ps fd ≡ some (record ps { fds = ps.fds ++ (fd ∷ []) })
    add fd = let b : ltb (length ps.fds) ps.room ≡ true = ground arith in rw b refl

    by_watch :
        (k : Watch)
        → ((ps' : Pollset) (term' : ℕ)
            → length ps'.fds + length ts ≤ ps'.room
            → Collects ps'.room (collect ts ps' term'))
        → Collects ps.room (elim k [
          | watch_null ↦ collect ts ps term_time
          | watch_fd fd ↦ elim (pollset_add_fd ps fd) [
            | none ↦ none
            | some ps' ↦ collect ts ps' term_time
          ]
          | watch_timeout interval ↦
              collect ts ps
                (if ltb (deadline t interval) term_time then deadline t interval else term_time)
        ])
    by_watch watch_null more = more ps term_time (omega arith)
    by_watch (watch_fd fd) more =
        let longer = length-append ps.fds (fd ∷ []) in
        rw (add fd)
          (more (record ps { fds = ps.fds ++ (fd ∷ []) }) term_time (omega (arith, longer)))
    by_watch (watch_timeout interval) more = more ps _ (omega arith)

-- How a wait ends: tickets stay at their addresses, and their number and the room for them stay.
abbrev pub Stays : Waiter → Waited → Type 0
Stays w (waited w' calls) =
    (length w'.tickets ≡ length w.tickets)
    × (w'.count ≡ w.count)
    × ((ps : Pollset) × (ps' : Pollset) × (w.pollset ≡ some ps)
        × (w'.pollset ≡ some ps')
        × (ps'.room ≡ ps.room))
    × ((address : ℕ) → HasTicket address w.tickets → HasTicket address w'.tickets)
Stays w null_pollset = w.pollset ≡ none
Stays w past_entries = ⊥

room-pollset_wait :
    (poll : Poll) (ps : Pollset) (ms : Option ℕ) → (pollset_wait poll ps ms).0.room ≡ ps.room
unfolding pollset_wait
room-pollset_wait poll ps ms = by_polled (poll ps.fds ms)
  where
    SameRoom : Pollset × Polled → Type 0
    SameRoom x = x.0.room ≡ ps.room

    by_polled :
        (o : Polled)
        → SameRoom (elim o [
          | poll_error ↦ (ps, poll_error)
          | poll_none ↦ (ps, poll_none)
          | poll_ready revents ↦
              (record ps { cause = first_ready 0 ps.fds revents }, poll_ready revents)
        ])
    by_polled poll_error = refl
    by_polled poll_none = refl
    by_polled (poll_ready revents) = refl

room-wait_until :
    (poll : Poll) (ps : Pollset) (now term_time : ℕ)
    → (wait_until poll ps now term_time).0.room ≡ ps.room
unfolding wait_until
room-wait_until poll ps now term_time = by_test (term_time == u64_mod - 1) (leb term_time now)
  where
    capped : ℕ
    capped = if ltb (2 ^ 31 - 1) (term_time - now) then 2 ^ 31 - 1 else term_time - now

    SameRoom : Pollset × Polled → Type 0
    SameRoom x = x.0.room ≡ ps.room

    by_test :
        (c d : Bool)
        → SameRoom (
            if c
            then pollset_wait poll ps none
            else if d
            then (ps, poll_none)
            else pollset_wait poll ps (some capped))
    by_test true d = room-pollset_wait poll ps none
    by_test false true = refl
    by_test false false = room-pollset_wait poll ps (some capped)

after_poll-Stays :
    (w : Waiter) (now : ℕ) (ps : Pollset) (p : Pollset × Polled)
    → w.pollset ≡ some ps
    → p.0.room ≡ ps.room
    → Stays w (after_poll w now p)
unfolding after_poll
after_poll-Stays w now ps (ps', poll_error) e same =
    (refl, refl, (ps, ps', e, refl, same), λ address k. k)
after_poll-Stays w now ps (ps', poll_none) e same = (
  length-deliver_loop now false ps' w.tickets,
  refl,
  (ps, ps', e, refl, same),
  λ address k. HasTicket-deliver_loop address now false ps' w.tickets k,
)
after_poll-Stays w now ps (ps', poll_ready revents) e same = (
  length-deliver_loop now true ps' w.tickets,
  refl,
  (ps, ps', e, refl, same),
  λ address k. HasTicket-deliver_loop address now true ps' w.tickets k,
)

pub wait-Stays :
    (poll : Poll) (before now : ℕ) (w : Waiter)
    → ((ps : Pollset) → w.pollset ≡ some ps → length w.tickets ≤ ps.room)
    → Stays w (waiter_wait poll before now w)
unfolding waiter_wait
wait-Stays poll before now w h = by_pollset w.pollset refl
  where
    by_collect :
        (ps : Pollset) (o : Option (Pollset × ℕ))
        → w.pollset ≡ some ps
        → Collects ps.room o
        → Stays w (elim o [
          | none ↦ past_entries
          | some p ↦
              let (ps', term_time) = p in after_poll w now (wait_until poll ps' before term_time)
        ])
    by_collect ps none e c = absurd c
    by_collect ps (some (ps', term_time)) e c =
        after_poll-Stays w now ps (wait_until poll ps' before term_time) e
          (room-wait_until poll ps' before term_time ∙ c)

    by_pollset :
        (o : Option Pollset)
        → w.pollset ≡ o
        → Stays w (elim o [
          | none ↦ null_pollset
          | some ps ↦ elim (collect w.tickets (pollset_reset ps) (u64_mod - 1)) [
            | none ↦ past_entries
            | some p ↦
                let (ps', term_time) = p in after_poll w now (wait_until poll ps' before term_time)
          ]
        ])
    by_pollset none e = e
    by_pollset (some ps) e =
        let enough = h ps e in
        by_collect ps (collect w.tickets (pollset_reset ps) (u64_mod - 1)) e
          (collect-Collects w.tickets (pollset_reset ps) (u64_mod - 1) (omega arith))
