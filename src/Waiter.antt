-- ===== src/Waiter.antt =====
-- src/waiter.c: tickets that wait for file descriptors and timeouts, and the poll loop over them. Time
-- is the milliseconds that time_ms returns, and poll is a function that the caller gives.
pub mod Steps
pub mod Ready
pub mod Answers
pub mod Synchronized
use qrtr.Base.{
  ℕ, zero, suc, ◌+◌, ◌-◌, ◌%◌, ◌^◌, Bool, true, false, not, ◌&&◌, Option, none, some, List, [], ◌∷◌,
  ◌++◌, length, get_or, ltb, leb, ◌==◌, if◌then◌else◌,
}

-- `enum waiter_type` with the member of the union that it goes with.
pub data Watch : Type 0 where
  watch_null : Watch
  watch_fd : ℕ → Watch
  watch_timeout : ℕ → Watch

-- `struct waiter_ticket` at an address; a callback is its function and its data.
pub record Ticket : Type 0 where
  pub address : ℕ
  pub watch : Watch
  pub callback : Option (ℕ × ℕ)
  pub start : ℕ
  pub updated : Bool

-- `struct pollset` with the number of entries that it was allocated for; a cause of -1 is `none`.
pub record Pollset : Type 0 where
  pub room : ℕ
  pub fds : List ℕ
  pub cause : Option ℕ

pub record Waiter : Type 0 where
  pub tickets : List Ticket
  pub pollset : Option Pollset
  pub count : ℕ

-- What `poll` returns: an error, nothing, or for each entry whether an event is ready.
pub data Polled : Type 0 where
  poll_error : Polled
  poll_none : Polled
  poll_ready : List Bool → Polled

-- The file descriptors, and the timeout in milliseconds or `none` to wait forever.
abbrev pub Poll : Type 0
Poll = List ℕ → Option ℕ → Polled

-- How a wait ends: with the waiter and the tickets whose callbacks ran, in order; by a use of a null
-- pollset; or by a write past its entries.
pub data Waited : Type 0 where
  waited : Waiter → List Ticket → Waited
  null_pollset : Waited
  past_entries : Waited

abbrev pub u64_mod : ℕ
u64_mod = 2 ^ 64

unfoldable pub pollset_create : Bool → ℕ → Option Pollset
pollset_create allocated count =
    if allocated then some (record { room = count; fds = []; cause = some 0 }) else none

abbrev pub pollset_reset : Pollset → Pollset
pollset_reset ps = record ps { fds = [] }

-- `none` is a write past the entries.
unfoldable pub pollset_add_fd : Pollset → ℕ → Option Pollset
pollset_add_fd ps fd =
    if ltb (length ps.fds) ps.room then some (record ps { fds = ps.fds ++ (fd ∷ []) }) else none

-- The loop of `pollset_wait`, from entry i on.
unfoldable pub first_ready : ℕ → List ℕ → List Bool → Option ℕ
first_ready i [] revents = none
first_ready i (fd ∷ fds) [] = none
first_ready i (fd ∷ fds) (ready ∷ revents) =
    let rest = first_ready (i + 1) fds revents in if ready then some i else rest

-- The pollset, and what `poll` returned.
unfoldable pub pollset_wait : Poll → Pollset → Option ℕ → Pollset × Polled
pollset_wait poll ps ms =
    let polled = poll ps.fds ms in
    elim polled [
      | poll_error ↦ (ps, poll_error)
      | poll_none ↦ (ps, poll_none)
      | poll_ready revents ↦
          (record ps { cause = first_ready 0 ps.fds revents }, poll_ready revents)
    ]

-- A cause is an entry: after it has events, `pollset_wait` has set it to one of those added.
unfoldable pub pollset_cause_fd : Pollset → ℕ → Bool
pollset_cause_fd ps fd = elim ps.cause [
  | none ↦ false
  | some i ↦ ltb i (length ps.fds) && get_or ps.fds i 0 == fd
]

unfoldable pub waiter_create : Bool → Option Waiter
waiter_create allocated =
    if allocated then some (record { tickets = []; pollset = none; count = 0 }) else none

-- The inner loop of `waiter_synchronize`: the next timeout of the same length gets the same start.
unfoldable pub synchronize_after : ℕ → ℕ → List Ticket → List Ticket
synchronize_after interval start [] = []
synchronize_after interval start (t ∷ ts) =
    let rest = synchronize_after interval start ts in
    elim t.watch [
      | watch_null ↦ t ∷ rest
      | watch_fd fd ↦ t ∷ rest
      | watch_timeout other ↦
          if other == interval then record t { start = start } ∷ ts else t ∷ rest
    ]

-- The outer loop, over n tickets.
unfoldable pub synchronize_loop : ℕ → List Ticket → List Ticket
synchronize_loop n [] = []
synchronize_loop zero (t ∷ ts) = t ∷ ts
synchronize_loop (suc n) (t ∷ ts) = elim t.watch [
  | watch_null ↦ t ∷ synchronize_loop n ts
  | watch_fd fd ↦ t ∷ synchronize_loop n ts
  | watch_timeout interval ↦ t ∷ synchronize_loop n (synchronize_after interval t.start ts)
]

unfoldable pub waiter_synchronize : Waiter → Waiter
waiter_synchronize w = record w { tickets = synchronize_loop (length w.tickets) w.tickets }

-- `ticket->start + ticket->interval`
abbrev pub deadline : Ticket → ℕ → ℕ
deadline t interval = (t.start + interval) % u64_mod

-- The first loop of `waiter_wait`: the pollset and `term_time`.
unfoldable pub collect : List Ticket → Pollset → ℕ → Option (Pollset × ℕ)
collect [] ps term_time = some (ps, term_time)
collect (t ∷ ts) ps term_time = elim t.watch [
  | watch_null ↦ collect ts ps term_time
  | watch_fd fd ↦ elim (pollset_add_fd ps fd) [ none ↦ none | some ps' ↦ collect ts ps' term_time ]
  | watch_timeout interval ↦
      collect ts ps (if ltb (deadline t interval) term_time then deadline t interval else term_time)
]

-- `poll`, unless the first timeout has passed.
unfoldable pub wait_until : Poll → Pollset → ℕ → ℕ → Pollset × Polled
wait_until poll ps now term_time =
    let delta = term_time - now in
    let capped = if ltb (2 ^ 31 - 1) delta then 2 ^ 31 - 1 else delta in
    if term_time == u64_mod - 1
    then pollset_wait poll ps none
    else if leb term_time now
    then (ps, poll_none)
    else pollset_wait poll ps (some capped)

-- One round of the second loop: the ticket, and whether it is fresh.
unfoldable pub deliver : ℕ → Bool → Pollset → Ticket → Ticket × Bool
deliver now ready ps t = elim t.watch [
  | watch_null ↦ (t, false)
  | watch_fd fd ↦
      if ready && pollset_cause_fd ps fd
      then (record t { updated = true }, not t.updated)
      else (t, false)
  | watch_timeout interval ↦
      if leb (deadline t interval) now
      then (record t { start = now; updated = true }, not t.updated)
      else (t, false)
]

-- The second loop: the tickets, and those whose callback runs.
unfoldable pub deliver_loop : ℕ → Bool → Pollset → List Ticket → List Ticket × List Ticket
deliver_loop now ready ps [] = ([], [])
deliver_loop now ready ps (t ∷ ts) =
    let (t', fresh) = deliver now ready ps t in
    let (ts', calls) = deliver_loop now ready ps ts in
    let called : List Ticket = elim t.callback [ none ↦ calls | some fn ↦ t' ∷ calls ] in
    (t' ∷ ts', if fresh then called else calls)

-- The part of `waiter_wait` after `poll`.
unfoldable pub after_poll : Waiter → ℕ → Pollset × Polled → Waited
after_poll w now (ps, poll_error) = waited (record w { pollset = some ps }) []
after_poll w now (ps, poll_none) =
    let (ts, calls) = deliver_loop now false ps w.tickets in
    waited (record w { tickets = ts; pollset = some ps }) calls
after_poll w now (ps, poll_ready revents) =
    let (ts, calls) = deliver_loop now true ps w.tickets in
    waited (record w { tickets = ts; pollset = some ps }) calls

-- The times are those before and after `poll`; callbacks do not change the waiter.
unfoldable pub waiter_wait : Poll → ℕ → ℕ → Waiter → Waited
waiter_wait poll before now w = elim w.pollset [
  | none ↦ null_pollset
  | some ps ↦ elim (collect w.tickets (pollset_reset ps) (u64_mod - 1)) [
    | none ↦ past_entries
    | some p ↦ let (ps', term_time) = p in after_poll w now (wait_until poll ps' before term_time)
  ]
]

-- A write through the pointer to a ticket.
unfoldable pub change : ℕ → (Ticket → Ticket) → List Ticket → List Ticket
change address f [] = []
change address f (t ∷ ts) =
    let rest = change address f ts in if t.address == address then f t ∷ ts else t ∷ rest

-- `list_remove` of the ticket at an address.
unfoldable pub remove_ticket : ℕ → List Ticket → List Ticket
remove_ticket address [] = []
remove_ticket address (t ∷ ts) =
    let rest = remove_ticket address ts in if t.address == address then ts else t ∷ rest

abbrev pub set_null : Ticket → Ticket
set_null t = record t { watch = watch_null }

abbrev pub set_fd : ℕ → Ticket → Ticket
set_fd fd t = record t { watch = watch_fd fd }

abbrev pub set_timeout : ℕ → ℕ → Ticket → Ticket
set_timeout ms now t = record t { watch = watch_timeout ms; start = now }

-- A ticket of zeros.
abbrev pub new_ticket : ℕ → Ticket
new_ticket address = record {
  address = address;
  watch = watch_null;
  callback = none;
  start = 0;
  updated = false;
}

-- The answers of calloc for the ticket (its address) and for a pollset; the ticket that is returned.
unfoldable pub waiter_add_null : Option ℕ → Bool → Waiter → Waiter × Option ℕ
waiter_add_null none allocated w = (w, none)
waiter_add_null (some address) allocated w =
    let ts = w.tickets ++ (new_ticket address ∷ []) in
    let renewed = pollset_create allocated (w.count + 33) in
    let failed : Waiter × Option ℕ = (record w { tickets = ts; pollset = none }, none) in
    let grown : Waiter × Option ℕ = elim renewed [
      | none ↦ failed
      | some ps ↦ (record { tickets = ts; pollset = some ps; count = w.count + 1 }, some address)
    ] in
    if w.count % 32 == 0
    then grown
    else (record w { tickets = ts; count = w.count + 1 }, some address)

-- What follows `waiter_add_null`.
abbrev pub then_set : (Ticket → Ticket) → Waiter × Option ℕ → Waiter × Option ℕ
then_set f (w, none) = (w, none)
then_set f (w, some address) = (record w { tickets = change address f w.tickets }, some address)

unfoldable pub waiter_add_fd : Option ℕ → Bool → ℕ → Waiter → Waiter × Option ℕ
waiter_add_fd ticket allocated fd w = then_set (set_fd fd) (waiter_add_null ticket allocated w)

unfoldable pub waiter_add_timeout : Option ℕ → Bool → ℕ → ℕ → Waiter → Waiter × Option ℕ
waiter_add_timeout ticket allocated ms now w =
    then_set (set_timeout ms now) (waiter_add_null ticket allocated w)

-- The ticket is one of the waiter's, so `count` is not 0.
unfoldable pub waiter_ticket_delete : ℕ → Waiter → Waiter
waiter_ticket_delete address w = record w {
  tickets = remove_ticket address w.tickets;
  count = w.count - 1;
}

abbrev pub set_callback : Option (ℕ × ℕ) → Ticket → Ticket
set_callback callback t = record t { callback = callback }

-- Whether `waiter_ticket_check` returns 0; else it returns -1.
abbrev pub waiter_ticket_check : Ticket → Bool
waiter_ticket_check t = t.updated

abbrev pub waiter_ticket_clear : Ticket → Ticket × Bool
waiter_ticket_clear t = (record t { updated = false }, waiter_ticket_check t)

-- `waiter_ticket_check` of the ticket at an address.
unfoldable pub is_updated : ℕ → List Ticket → Bool
is_updated address [] = false
is_updated address (t ∷ ts) =
    let rest = is_updated address ts in if t.address == address then waiter_ticket_check t else rest

-- The end of `waiter_wait_timeout`, and whether it returns 0; else it returns -1.
unfoldable pub after_wait : ℕ → Waited → Waited × Bool
after_wait ticket (waited w calls) = (
  waited (record w { tickets = remove_ticket ticket w.tickets; count = w.count - 1 }) calls,
  not (is_updated ticket w.tickets),
)
after_wait ticket null_pollset = (null_pollset, false)
after_wait ticket past_entries = (past_entries, false)

-- `ticket` is the address of the local ticket, and the times are those of `waiter_ticket_set_timeout`
-- and of `waiter_wait`.
unfoldable pub waiter_wait_timeout : Poll → ℕ → ℕ → ℕ → ℕ → ℕ → Waiter → Waited × Bool
waiter_wait_timeout poll ticket ms start before now w = after_wait ticket (
    waiter_wait poll before now (record w {
      tickets = w.tickets ++ (set_timeout ms start (new_ticket ticket) ∷ []);
      count = w.count + 1;
    }))
