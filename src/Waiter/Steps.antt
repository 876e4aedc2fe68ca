-- ===== src/Waiter/Steps.antt =====
-- The calls of a program on a waiter of src/waiter.c, as steps, and what holds of a waiter that they
-- reach.
pub mod Lengths
pub mod Waits
pub mod Reached
use qrtr.Base.{
  ℕ, zero, suc, ◌+◌, ◌-◌, ◌*◌, ◌/◌, ◌%◌, ◌^◌, ◌≤◌, ◌<◌, ◌≡◌, ◌≢◌, ◌⊎◌, refl, sym, ap, ◌∙◌, inl, inr,
  Bool, true, false, not, ◌&&◌, Option, none, some, List, [], ◌∷◌, ◌++◌, length, length-append, ltb,
  leb, ◌==◌, if◌then◌else◌, arith, Bool-cases,
}
use qrtr.Waiter.{
  Watch, watch_null, watch_fd, watch_timeout, Ticket, Pollset, Waiter, Polled, poll_error,
  poll_none, poll_ready, Poll, Waited, waited, null_pollset, past_entries, u64_mod, first_ready,
  pollset_create, pollset_cause_fd, pollset_reset, pollset_add_fd, pollset_wait, waiter_create,
  synchronize_after, synchronize_loop, waiter_synchronize, deadline, collect, wait_until, deliver,
  deliver_loop, after_poll, waiter_wait, change, remove_ticket, set_null, set_fd, set_timeout,
  new_ticket, waiter_add_null, then_set, waiter_add_fd, waiter_add_timeout, waiter_ticket_delete,
  set_callback, waiter_ticket_clear, is_updated, after_wait, waiter_wait_timeout,
}

-- A ticket is one of a list.
abbrev pub Among : Ticket → List Ticket → Type 0
Among t [] = ⊥
Among t (x ∷ xs) = (x ≡ t) ⊎ Among t xs

-- A ticket stands at an address.
abbrev pub HasTicket : ℕ → List Ticket → Type 0
HasTicket address [] = ⊥
HasTicket address (t ∷ ts) = (t.address ≡ address) ⊎ HasTicket address ts

-- One call. A pollset can be allocated, and a ticket that is deleted is one of the waiter's.
pub data Step : Waiter → Waiter → Type 0 where
  adds_null : (w : Waiter) (ticket : Option ℕ) → Step w (waiter_add_null ticket true w).0
  adds_fd : (w : Waiter) (ticket : Option ℕ) (fd : ℕ) → Step w (waiter_add_fd ticket true fd w).0
  adds_timeout :
      (w : Waiter) (ticket : Option ℕ) (ms now : ℕ)
      → Step w (waiter_add_timeout ticket true ms now w).0
  changes :
      (w : Waiter) (address : ℕ) (f : Ticket → Ticket)
      → Step w (record w { tickets = change address f w.tickets })
  deletes :
      (w : Waiter) (address : ℕ)
      → HasTicket address w.tickets
      → Step w (waiter_ticket_delete address w)
  synchronizes : (w : Waiter) → Step w (waiter_synchronize w)
  waits :
      (w w' : Waiter) (poll : Poll) (before now : ℕ) (calls : List Ticket)
      → waiter_wait poll before now w ≡ waited w' calls
      → Step w w'
  waits_for :
      (w w' : Waiter) (poll : Poll) (ticket ms start before now : ℕ) (calls : List Ticket)
      (in_time : Bool)
      → waiter_wait_timeout poll ticket ms start before now w ≡ (waited w' calls, in_time)
      → Step w w'

-- What a program may reach from waiter_create.
pub data Reachable : Waiter → Type 0 where
  created : (w : Waiter) → waiter_create true ≡ some w → Reachable w
  then_step : (w w' : Waiter) → Reachable w → Step w w' → Reachable w'

-- The count is that of the tickets, and the pollset has room until the next multiple of 32, when it is
-- allocated again, and for one more ticket.
pub record IsRoomy (w : Waiter) : Type 0 where
  pub counted : length w.tickets ≡ w.count
  pub roomy : (ps : Pollset) → w.pollset ≡ some ps → (w.count + 31) / 32 * 32 < ps.room
  pub present : w.pollset ≡ none → w.count ≡ 0
