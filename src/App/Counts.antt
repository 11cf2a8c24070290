-- ===== src/App/Counts.antt =====
-- What a step of `Run` leaves of its events, and of the room in the channel.
use wb_trial_task.Common.{
  ℕ, ◌+◌, ◌-◌, ◌≤◌, Bool, true, false, Option, none, some, List, ◌∷◌, arith, length, ap,
}
use wb_trial_task.App.Reports.{length-report-le}
use wb_trial_task.App.{
  App, RunError, Event, Step, server_ends, consumer_ends, cancel, return_cancelled, return_error,
}

abbrev pub bit : Bool → ℕ
bit true = 1
bit false = 0

abbrev pub waits : {E : Type 0} → Option (RunError E) → ℕ
waits none = 1
waits (some err) = 0

module _ {E : Type 0} {server_closed canceled : E → Bool} {ctx_err : E} where
  pub Step-left :
      (es : List (Event E)) {ev : Event E} {a b : App E}
      → Step server_closed canceled ctx_err ev a b
      → length es + bit a.serving + bit a.consuming + (1 - bit a.cancelled) + waits a.returned ≤ 4
      → length (ev ∷ es)
          + bit b.serving
          + bit b.consuming
          + (1 - bit b.cancelled)
          + waits b.returned
        ≤ 4
  Step-left es (server_ends a r on room) h = omega (arith, h, ap bit on)
  Step-left es (consumer_ends a r on room) h = omega (arith, h, ap bit on)
  Step-left es (cancel a alive) h = omega (arith, h, ap bit alive)
  Step-left es (return_cancelled a alive done) h = omega (arith, h, ap waits alive)
  Step-left es (return_error a err rest alive found) h = omega (arith, h, ap waits alive)

  pub Step-room :
      {ev : Event E} {a b : App E}
      → Step server_closed canceled ctx_err ev a b
      → length a.err_ch + bit a.serving + bit a.consuming ≤ 2
      → length b.err_ch + bit b.serving + bit b.consuming ≤ 2
  Step-room (server_ends a r on room) h =
      omega (arith, h, ap bit on, length-report-le server_closed r a.err_ch)
  Step-room (consumer_ends a r on room) h =
      omega (arith, h, ap bit on, length-report-le canceled r a.err_ch)
  Step-room (cancel a alive) h = h
  Step-room (return_cancelled a alive done) h = h
  Step-room (return_error a err rest alive found) h = omega (arith, h, ap (λ l. length l) found)
