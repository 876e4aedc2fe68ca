-- ===== src/Waiter/Steps/Reached.antt =====
-- Every waiter of src/waiter.c that a program reaches can wait.
use mathlib.Core.Path.{subst}
use qrtr.Base.{
  ℕ, ◌+◌, ◌-◌, ◌%◌, ◌≤◌, ◌≡◌, ◌≢◌, refl, sym, ◌∙◌, inl, inr, Bool, true, Option, none, some, List,
  [], ◌∷◌, ◌++◌, length, length-append, ◌==◌, arith, Bool-cases,
}
use qrtr.Waiter.{
  Ticket, Waiter, Poll, Waited, waited, null_pollset, past_entries, pollset_create, waiter_create,
  waiter_synchronize, waiter_wait, remove_ticket, set_fd, set_timeout, new_ticket, waiter_add_null,
  then_set, waiter_add_fd, waiter_add_timeout, waiter_ticket_delete, after_wait,
  waiter_wait_timeout,
}
use qrtr.Waiter.Steps.{
  Step, adds_null, adds_fd, adds_timeout, changes, deletes, synchronizes, waits, waits_for,
  Reachable, created, then_step, IsRoomy,
}
use qrtr.Waiter.Steps.Lengths.{
  length-change, length-remove, length-synchronize_loop, HasTicket-append,
}
use qrtr.Waiter.Steps.Waits.{Stays, wait-Stays}

add_null-IsRoomy :
    (ticket : Option ℕ) (w : Waiter) → IsRoomy w → IsRoomy (waiter_add_null ticket true w).0
unfolding waiter_add_null pollset_create
add_null-IsRoomy none w h = h
add_null-IsRoomy (some address) w h =
    let counted = h.counted in
    let longer = length-append w.tickets (new_ticket address ∷ []) in
    elim (Bool-cases (w.count % 32 == 0)) [
      | inl b ↦ rw b (record {
        counted = omega (arith, longer);
        roomy = λ ps e.
            let same : record { room = w.count + 33; fds = []; cause = some 0 } ≡ ps = cc e in
            rw (sym same) (omega arith);
        present = λ e. absurd (cc e);
      })
      | inr b ↦ rw b (record {
        counted = omega (arith, longer);
        roomy = λ ps e. let r = h.roomy ps e in ground (arith, r, b);
        present = λ e. absurd (let z = h.present e in ground (arith, z, b));
      })
    ]

then_set-IsRoomy :
    (f : Ticket → Ticket) (x : Waiter × Option ℕ) → IsRoomy x.0 → IsRoomy (then_set f x).0
then_set-IsRoomy f (w, none) h = h
then_set-IsRoomy f (w, some address) h = record {
  counted = length-change address f w.tickets ∙ h.counted;
  roomy = h.roomy;
  present = h.present;
}

-- The waiter after a wait has as much room as before.
stayed-IsRoomy :
    (w w' : Waiter) (calls : List Ticket) → IsRoomy w → Stays w (waited w' calls) → IsRoomy w'
stayed-IsRoomy w w' calls h (long, same, (ps, ps', e, e', room), at) = record {
  counted = long ∙ h.counted ∙ sym same;
  roomy = λ ps'' k.
      let this : ps' ≡ ps'' = cc (e', k) in
      let more = h.roomy ps e in rw (sym this, room, same) more;
  present = λ k. absurd (cc (e', k));
}

-- The waiter with the local ticket of `waiter_wait_timeout`.
abbrev pub with_local : ℕ → ℕ → ℕ → Waiter → Waiter
with_local ticket ms start w = record w {
  tickets = w.tickets ++ (set_timeout ms start (new_ticket ticket) ∷ []);
  count = w.count + 1;
}

pub local-Stays :
    (poll : Poll) (ticket ms start before now : ℕ) (w : Waiter)
    → IsRoomy w
    → Stays
        (with_local ticket ms start w)
        (waiter_wait poll before now (with_local ticket ms start w))
local-Stays poll ticket ms start before now w h =
    wait-Stays poll before now (with_local ticket ms start w) (λ ps e.
      let room = h.roomy ps e in
      let counted = h.counted in
      let longer = length-append w.tickets (set_timeout ms start (new_ticket ticket) ∷ []) in
      omega (arith, room, counted, longer))

-- The local ticket is removed.
pub after_wait-IsRoomy :
    (ticket ms start : ℕ) (w : Waiter) (o : Waited) (w' : Waiter) (calls : List Ticket)
    (in_time : Bool)
    → IsRoomy w
    → Stays (with_local ticket ms start w) o
    → after_wait ticket o ≡ (waited w' calls, in_time)
    → IsRoomy w'
unfolding after_wait
after_wait-IsRoomy ticket ms start w null_pollset w' calls in_time h s e = absurd (cc e)
after_wait-IsRoomy ticket ms start w past_entries w' calls in_time h s e = absurd s
after_wait-IsRoomy ticket ms start w (waited v called) w' calls in_time h
      (long, same, (ps, ps', e₀, e', room), at) e =
    let this : record v { tickets = remove_ticket ticket v.tickets; count = v.count - 1 } ≡ w' =
      cc e in
    let here =
      at ticket
        (HasTicket-append ticket w.tickets (set_timeout ms start (new_ticket ticket)) refl) in
    let shorter = length-remove ticket v.tickets here in
    let counted = h.counted in
    let longer = length-append w.tickets (set_timeout ms start (new_ticket ticket) ∷ []) in
    let back : v.count - 1 ≡ w.count = omega (arith, same) in
    let more = h.roomy ps e₀ in
    rw (sym this) (record {
      counted = omega (arith, shorter, long, longer, same, counted);
      roomy = λ ps'' k. let this : ps' ≡ ps'' = cc (e', k) in rw (sym this, room, back) more;
      present = λ k. absurd (cc (e', k));
    })

step-IsRoomy : {w w' : Waiter} → IsRoomy w → Step w w' → IsRoomy w'
unfolding waiter_add_fd waiter_add_timeout waiter_ticket_delete waiter_synchronize
    waiter_wait_timeout
step-IsRoomy h (adds_null w ticket) = add_null-IsRoomy ticket w h
step-IsRoomy h (adds_fd w ticket fd) =
    then_set-IsRoomy (set_fd fd) (waiter_add_null ticket true w) (add_null-IsRoomy ticket w h)
step-IsRoomy h (adds_timeout w ticket ms now) =
    then_set-IsRoomy (set_timeout ms now) (waiter_add_null ticket true w)
      (add_null-IsRoomy ticket w h)
step-IsRoomy h (changes w address f) = record {
  counted = length-change address f w.tickets ∙ h.counted;
  roomy = h.roomy;
  present = h.present;
}
step-IsRoomy h (deletes w address k) =
    let shorter = length-remove address w.tickets k in
    let counted = h.counted in
    record {
      counted = omega (arith, shorter, counted);
      roomy = λ ps e. let r = h.roomy ps e in omega (arith, r);
      present = λ e. let z = h.present e in omega (arith, z);
    }
step-IsRoomy h (synchronizes w) = record {
  counted = length-synchronize_loop (length w.tickets) w.tickets ∙ h.counted;
  roomy = h.roomy;
  present = h.present;
}
step-IsRoomy h (waits w w' poll before now calls e) = stayed-IsRoomy w w' calls h (
    subst (Stays w) e (
      wait-Stays poll before now w
        (λ ps k. let r = h.roomy ps k in let c = h.counted in omega (arith, r, c))))
step-IsRoomy h (waits_for w w' poll ticket ms start before now calls in_time e) =
    after_wait-IsRoomy ticket ms start w
      (waiter_wait poll before now (with_local ticket ms start w)) w' calls in_time h
      (local-Stays poll ticket ms start before now w h) e

pub reached-IsRoomy : {w : Waiter} → Reachable w → IsRoomy w
unfolding waiter_create
reached-IsRoomy (created w e) =
    let this : record { tickets = []; pollset = none; count = 0 } ≡ w = cc e in
    rw (sym this) (record { counted = refl; roomy = λ ps k. absurd (cc k); present = λ k. refl })
reached-IsRoomy (then_step w₀ w r s) = step-IsRoomy (reached-IsRoomy r) s

-- A wait that ends as it should.
abbrev pub Ended : Waiter → Waited → Type 0
Ended w (waited w' calls) = (w'.count ≡ w.count) × (length w'.tickets ≡ length w.tickets)
Ended w null_pollset = ⊥
Ended w past_entries = ⊥

Ended-of_Stays : (w : Waiter) (o : Waited) → (w.pollset ≢ none) → Stays w o → Ended w o
Ended-of_Stays w (waited w' calls) p (long, same, room, at) = (same, long)
Ended-of_Stays w null_pollset p s = p s
Ended-of_Stays w past_entries p s = s

-- For a waiter with tickets that is reached from waiter_create by any calls that add, set, change,
-- delete or synchronize tickets or wait, with or without a timeout, where pollsets can be allocated
-- and only tickets of the waiter are deleted, waiter_wait has a pollset and never writes past its
-- entries, whatever poll returns, and keeps the number of tickets.
pub reached-waits :
    (poll : Poll) (before now : ℕ) (w : Waiter)
    → Reachable w
    → 1 ≤ w.count
    → Ended w (waiter_wait poll before now w)
reached-waits poll before now w r one =
    let h = reached-IsRoomy r in
    Ended-of_Stays w (waiter_wait poll before now w)
      (λ e. let z = h.present e in absurd (omega (arith, z, one)))
      (wait-Stays poll before now w
        (λ ps k. let r = h.roomy ps k in let c = h.counted in omega (arith, r, c)))
