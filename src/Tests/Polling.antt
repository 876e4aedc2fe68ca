-- ===== src/Tests/Polling.antt =====
-- src/waiter.c on a waiter with a file descriptor and a timeout.
use qrtr.Base.{
  ℕ, ◌+◌, ◌%◌, ◌≡◌, refl, inl, inr, true, false, none, some, [], ◌∷◌, arith, leb, ltb,
  if◌then◌else◌,
}
use qrtr.Waiter.{
  watch_fd, watch_timeout, Ticket, Waiter, poll_error, poll_none, Poll, waiter_wait,
  waiter_wait_timeout, waiter_synchronize, waiter_create, waiter_add_fd, waiter_add_timeout,
  waiter_add_null, change, pollset_create, synchronize_loop, synchronize_after, u64_mod,
}
use qrtr.Waiter.Steps.{Among, Reachable, created, then_step, adds_fd, adds_timeout}
use qrtr.Waiter.Steps.Reached.{Ended, reached-waits}
use qrtr.Waiter.Ready.{AgreeUntil, wait-wakes}
use qrtr.Waiter.Answers.{Answers, wait_timeout-Answers}
use qrtr.Waiter.Synchronized.{first_start, synchronize-first_start}

abbrev empty_waiter : Waiter
empty_waiter = record { tickets = []; pollset = none; count = 0 }

abbrev fd_ticket : Ticket
fd_ticket = record {
  address = 8;
  watch = watch_fd 5;
  callback = some (1, 2);
  start = 0;
  updated = false;
}

abbrev plain_ticket : Ticket
plain_ticket = record fd_ticket { callback = none }

abbrev timeout_ticket : ℕ → ℕ → Ticket
timeout_ticket address start = record {
  address = address;
  watch = watch_timeout 100;
  callback = none;
  start = start;
  updated = false;
}

-- A waiter after a ticket for a file descriptor and one for a timeout were added.
abbrev waiting : Waiter
waiting = record {
  tickets = plain_ticket ∷ timeout_ticket 16 1000 ∷ [];
  pollset = some (record { room = 33; fds = []; cause = some 0 });
  count = 2;
}

waiting-Reachable : Reachable waiting
unfolding waiter_create waiter_add_fd waiter_add_timeout waiter_add_null pollset_create change
waiting-Reachable =
    then_step (waiter_add_fd (some 8) true 5 empty_waiter).0 waiting
      (then_step empty_waiter (waiter_add_fd (some 8) true 5 empty_waiter).0
        (created empty_waiter refl) (adds_fd empty_waiter (some 8) 5))
      (adds_timeout (waiter_add_fd (some 8) true 5 empty_waiter).0 (some 16) 100 1000)

-- A poll that finds nothing, and one that fails when it would wait for more than 50 ms.
abbrev quiet : Poll
quiet fds ms = poll_none

abbrev impatient : Poll
impatient fds none = poll_error
impatient fds (some ms) = if ltb 50 ms then poll_error else poll_none

reached-waits_example : Ended waiting (waiter_wait quiet 1050 1200 waiting)
reached-waits_example = reached-waits quiet 1050 1200 waiting waiting-Reachable (omega arith)

quiet-AgreeUntil : AgreeUntil 1050 1100 quiet impatient
quiet-AgreeUntil fds ms h = let b : ltb 50 ms ≡ false = ground arith in rw b refl

wait-wakes_example : waiter_wait quiet 1050 1200 waiting ≡ waiter_wait impatient 1050 1200 waiting
wait-wakes_example =
    wait-wakes quiet impatient 1050 1200 waiting (timeout_ticket 16 1000) 100 (inr (inl refl)) refl
      (λ e. absurd (omega arith)) quiet-AgreeUntil

wait_timeout-Answers_example :
    Answers waiting
      (leb ((1050 + 20) % u64_mod) 1200)
      (waiter_wait_timeout quiet 24 20 1050 1050 1200 waiting)
wait_timeout-Answers_example =
    wait_timeout-Answers quiet 24 20 1050 1050 1200 waiting waiting-Reachable (omega arith)
      (λ h. elim h [ inl e ↦ omega arith | inr h ↦ elim h [ inl e ↦ omega arith | inr h ↦ h ] ])
      (λ fds ms e. cc e)

-- Two timeouts of the same length.
abbrev apart : Waiter
apart = record waiting {
  tickets = timeout_ticket 16 1000 ∷ plain_ticket ∷ timeout_ticket 24 1040 ∷ [];
}

apart-Among : Among (timeout_ticket 24 1000) (waiter_synchronize apart).tickets
unfolding waiter_synchronize synchronize_loop synchronize_after
apart-Among = inr (inr (inl refl))

synchronize-first_start_example : first_start 100 apart.tickets ≡ some 1000
synchronize-first_start_example =
    synchronize-first_start apart (timeout_ticket 24 1000) 100 apart-Among refl
