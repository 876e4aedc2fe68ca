-- ===== src/Waiter/Steps/Lengths.antt =====
-- The tickets of src/waiter.c after the loops over them: their number and their addresses.
use qrtr.Base.{
  ℕ, zero, suc, ◌+◌, ◌≡◌, refl, ap, ◌∙◌, inl, inr, Bool, true, false, not, ◌&&◌, List, [], ◌∷◌,
  ◌++◌, length, leb, ◌==◌, if◌then◌else◌, arith, Bool-cases,
}
use qrtr.Waiter.{
  Watch, watch_null, watch_fd, watch_timeout, Ticket, Pollset, pollset_cause_fd, synchronize_after,
  synchronize_loop, deadline, deliver, deliver_loop, change, remove_ticket,
}
use qrtr.Waiter.Steps.{HasTicket}

pub length-change :
    (address : ℕ) (f : Ticket → Ticket) (ts : List Ticket)
    → length (change address f ts) ≡ length ts
unfolding change
length-change address f [] = refl
length-change address f (t ∷ ts) = elim (Bool-cases (t.address == address)) [
  | inl b ↦ rw b refl
  | inr b ↦ rw b (ap suc (length-change address f ts))
]

pub length-remove :
    (address : ℕ) (ts : List Ticket)
    → HasTicket address ts
    → length (remove_ticket address ts) + 1 ≡ length ts
unfolding remove_ticket
length-remove address [] h = absurd h
length-remove address (t ∷ ts) h = elim (Bool-cases (t.address == address)) [
  | inl b ↦ rw b (omega arith)
  | inr b ↦ rw b (elim h [
    | inl e ↦ absurd (ground (arith, e, b))
    | inr k ↦ let same = length-remove address ts k in omega arith
  ])
]

pub length-synchronize_after :
    (interval start : ℕ) (ts : List Ticket)
    → length (synchronize_after interval start ts) ≡ length ts
unfolding synchronize_after
length-synchronize_after interval start [] = refl
length-synchronize_after interval start (t ∷ ts) =
    by_watch t.watch (ap suc (length-synchronize_after interval start ts))
  where
    by_watch :
        (k : Watch)
        → suc (length (synchronize_after interval start ts)) ≡ suc (length ts)
        → length (elim k [
          | watch_null ↦ t ∷ synchronize_after interval start ts
          | watch_fd fd ↦ t ∷ synchronize_after interval start ts
          | watch_timeout other ↦
              if other == interval
              then record t { start = start } ∷ ts
              else t ∷ synchronize_after interval start ts
        ])
          ≡ suc (length ts)
    by_watch watch_null same = same
    by_watch (watch_fd fd) same = same
    by_watch (watch_timeout other) same = elim (Bool-cases (other == interval)) [
      | inl b ↦ rw b refl
      | inr b ↦ rw b same
    ]

pub length-synchronize_loop :
    (n : ℕ) (ts : List Ticket) → length (synchronize_loop n ts) ≡ length ts
unfolding synchronize_loop
length-synchronize_loop zero [] = refl
length-synchronize_loop (suc n) [] = refl
length-synchronize_loop zero (t ∷ ts) = refl
length-synchronize_loop (suc n) (t ∷ ts) = by_watch t.watch (length-synchronize_loop n)
  where
    by_watch :
        (k : Watch)
        → ((ts : List Ticket) → length (synchronize_loop n ts) ≡ length ts)
        → length (elim k [
          | watch_null ↦ t ∷ synchronize_loop n ts
          | watch_fd fd ↦ t ∷ synchronize_loop n ts
          | watch_timeout interval ↦ t ∷ synchronize_loop n (synchronize_after interval t.start ts)
        ])
          ≡ suc (length ts)
    by_watch watch_null same = ap suc (same ts)
    by_watch (watch_fd fd) same = ap suc (same ts)
    by_watch (watch_timeout interval) same = ap suc (
        same (synchronize_after interval t.start ts) ∙ length-synchronize_after interval t.start ts)

pub length-deliver_loop :
    (now : ℕ) (ready : Bool) (ps : Pollset) (ts : List Ticket)
    → length (deliver_loop now ready ps ts).0 ≡ length ts
unfolding deliver_loop
length-deliver_loop now ready ps [] = refl
length-deliver_loop now ready ps (t ∷ ts) = ap suc (length-deliver_loop now ready ps ts)

-- A delivery leaves a ticket at its address.
pub address-deliver :
    (now : ℕ) (ready : Bool) (ps : Pollset) (t : Ticket)
    → (deliver now ready ps t).0.address ≡ t.address
unfolding deliver
address-deliver now ready ps t = by_watch t.watch
  where
    Stays : Ticket × Bool → Type 0
    Stays x = x.0.address ≡ t.address

    by_test : (c : Bool) (x : Ticket × Bool) → Stays x → Stays (if c then x else (t, false))
    by_test true x h = h
    by_test false x h = refl

    by_watch :
        (k : Watch)
        → Stays (elim k [
          | watch_null ↦ (t, false)
          | watch_fd fd ↦
              if ready && pollset_cause_fd ps fd
              then (record t { updated = true }, not t.updated)
              else (t, false)
          | watch_timeout interval ↦
              if leb (deadline t interval) now
              then (record t { start = now; updated = true }, not t.updated)
              else (t, false)
        ])
    by_watch watch_null = refl
    by_watch (watch_fd fd) = by_test (ready && pollset_cause_fd ps fd) _ refl
    by_watch (watch_timeout interval) = by_test (leb (deadline t interval) now) _ refl

pub HasTicket-deliver_loop :
    (address now : ℕ) (ready : Bool) (ps : Pollset) (ts : List Ticket)
    → HasTicket address ts
    → HasTicket address (deliver_loop now ready ps ts).0
unfolding deliver_loop
HasTicket-deliver_loop address now ready ps [] h = h
HasTicket-deliver_loop address now ready ps (t ∷ ts) (inl e) =
    inl (address-deliver now ready ps t ∙ e)
HasTicket-deliver_loop address now ready ps (t ∷ ts) (inr h) =
    inr (HasTicket-deliver_loop address now ready ps ts h)

pub HasTicket-append :
    (address : ℕ) (ts : List Ticket) (t : Ticket)
    → t.address ≡ address
    → HasTicket address (ts ++ (t ∷ []))
HasTicket-append address [] t e = inl e
HasTicket-append address (x ∷ ts) t e = inr (HasTicket-append address ts t e)
