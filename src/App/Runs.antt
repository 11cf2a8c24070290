-- ===== src/App/Runs.antt =====
-- The runs of `Run`: they end, no goroutine waits for room in the channel, `Run` can return as soon
-- as it has a reason to, and what it returns is that reason.
use mathlib.Core.List.{Memᴰ}
use wb_trial_task.Common.{
  ◌+◌, ◌≤◌, ◌≡◌, refl, sym, Bool, true, false, Option, none, some, List, [], ◌∷◌, arith, length,
  ◌-◌, All, ◌⊎◌, inl, inr, Bool-cases, ap, ◌≢◌, Option-cases,
}
use wb_trial_task.App.Reports.{IsHeld, length-report-le, All-report, report-IsHeld, report-cases}
use wb_trial_task.App.Counts.{bit, waits, Step-left, Step-room}
use wb_trial_task.App.{
  App, RunError, http_server_required, ended, start, report, Event, server_end, consumer_end,
  context_done, run_return, Step, server_ends, consumer_ends, cancel, return_cancelled,
  return_error,
}

module _ {E : Type 0} (server_closed canceled : E → Bool) (ctx_err : E) where
  -- The states that events lead to, the last one first.
  pub data Reached (s : App E) : List (Event E) → App E → Type 0 where
    here : Reached s [] s
    next :
        {ev : Event E} {es : List (Event E)} {a b : App E}
        → Reached s es a
        → Step server_closed canceled ctx_err ev a b
        → Reached s (ev ∷ es) b

  -- The event can be the next one.
  abbrev pub CanHappen : Event E → App E → Type 0
  CanHappen ev a = (b : App E) × Step server_closed canceled ctx_err ev a b

  -- The server, or the consumer, has ended with this error, and it is not one to be ignored.
  abbrev pub IsReported : List (Event E) → E → Type 0
  IsReported es err =
      (Memᴰ (server_end (some err)) es × (server_closed err ≡ false))
      ⊎ (Memᴰ (consumer_end (some err)) es × (canceled err ≡ false))

  -- What `Run` may have returned after these events.
  abbrev pub IsReason : Bool → List (Event E) → Option (RunError E) → Type 0
  IsReason has_server es none = has_server ≡ true
  IsReason has_server es (some http_server_required) = has_server ≡ false
  IsReason has_server es (some (ended err)) =
      (has_server ≡ true) × (((err ≡ ctx_err) × Memᴰ context_done es) ⊎ IsReported es err)

  -- An event that gives `Run` nothing to return.
  abbrev pub IsQuiet : Event E → Type 0
  IsQuiet (server_end none) = Unit
  IsQuiet (server_end (some err)) = server_closed err ≡ true
  IsQuiet (consumer_end none) = Unit
  IsQuiet (consumer_end (some err)) = canceled err ≡ true
  IsQuiet context_done = ⊥
  IsQuiet run_return = Unit

  -- Why `Run` has returned, can return, or has no reason to.
  abbrev IsAwake : List (Event E) → App E → Type 0
  IsAwake es a =
      (waits a.returned ≡ 0) ⊎ ((a.cancelled ≡ true) ⊎ (IsHeld a.err_ch ⊎ All IsQuiet es))

  record IsSound (has_server : Bool) (es : List (Event E)) (a : App E) : Type 0 where
    left :
        length es + bit a.serving + bit a.consuming + (1 - bit a.cancelled) + waits a.returned ≤ 4
    room : length a.err_ch + bit a.serving + bit a.consuming ≤ 2
    reported : All (IsReported es) a.err_ch
    reason : IsReason has_server es a.returned
    done : (a.cancelled ≡ false) ⊎ Memᴰ context_done es
    awake : IsAwake es a

  -- One more event.
  IsReported-later :
      (ev : Event E) (es : List (Event E)) (err : E) → IsReported es err → IsReported (ev ∷ es) err
  IsReported-later ev es err (inl (m, kept)) = inl (Memᴰ.tail m, kept)
  IsReported-later ev es err (inr (m, kept)) = inr (Memᴰ.tail m, kept)

  All-IsReported-later :
      (ev : Event E) (es : List (Event E)) (ch : List E)
      → All (IsReported es) ch
      → All (IsReported (ev ∷ es)) ch
  All-IsReported-later ev es [] h = tt
  All-IsReported-later ev es (err ∷ ch) h =
      (IsReported-later ev es err h.0, All-IsReported-later ev es ch h.1)

  IsReason-later :
      (has_server : Bool) (ev : Event E) (es : List (Event E)) (r : Option (RunError E))
      → IsReason has_server es r
      → IsReason has_server (ev ∷ es) r
  IsReason-later has_server ev es none h = h
  IsReason-later has_server ev es (some http_server_required) h = h
  IsReason-later has_server ev es (some (ended err)) (given, inl (same, m)) =
      (given, inl (same, Memᴰ.tail m))
  IsReason-later has_server ev es (some (ended err)) (given, inr h) =
      (given, inr (IsReported-later ev es err h))

  done-later :
      (ev : Event E) (es : List (Event E)) (c : Bool)
      → (c ≡ false) ⊎ Memᴰ context_done es
      → (c ≡ false) ⊎ Memᴰ context_done (ev ∷ es)
  done-later ev es c (inl alive) = inl alive
  done-later ev es c (inr m) = inr (Memᴰ.tail m)

  -- What keeps `Run` awake after the end of a goroutine.
  IsAwake-report :
      (ignored : E → Bool) (ev : Event E) (es : List (Event E)) (r : Option E) (a b : App E)
      → b.returned ≡ a.returned
      → b.cancelled ≡ a.cancelled
      → b.err_ch ≡ report ignored r a.err_ch
      → IsHeld (report ignored r a.err_ch) ⊎ IsQuiet ev
      → IsAwake es a
      → IsAwake (ev ∷ es) b
  IsAwake-report ignored ev es r a b kept same ch new (inl over) = inl (rw kept over)
  IsAwake-report ignored ev es r a b kept same ch new (inr (inl done)) = inr (inl (rw same done))
  IsAwake-report ignored ev es r a b kept same ch new (inr (inr (inl held))) =
      inr (inr (inl (rw ch (report-IsHeld ignored r a.err_ch held))))
  IsAwake-report ignored ev es r a b kept same ch (inl held) (inr (inr (inr quiet))) =
      inr (inr (inl (rw ch held)))
  IsAwake-report ignored ev es r a b kept same ch (inr q) (inr (inr (inr quiet))) =
      inr (inr (inr (q, quiet)))

  -- What holds after a step.
  Step-IsReported :
      (es : List (Event E)) {ev : Event E} {a b : App E}
      → Step server_closed canceled ctx_err ev a b
      → All (IsReported es) a.err_ch
      → All (IsReported (ev ∷ es)) b.err_ch
  Step-IsReported es (server_ends a r on room) h =
      All-report (IsReported (server_end r ∷ es)) server_closed r a.err_ch
        (λ err ended_by kept. inl (Memᴰ.head (sym (ap server_end ended_by)), kept))
        (All-IsReported-later (server_end r) es a.err_ch h)
  Step-IsReported es (consumer_ends a r on room) h =
      All-report (IsReported (consumer_end r ∷ es)) canceled r a.err_ch
        (λ err ended_by kept. inr (Memᴰ.head (sym (ap consumer_end ended_by)), kept))
        (All-IsReported-later (consumer_end r) es a.err_ch h)
  Step-IsReported es (cancel a alive) h = All-IsReported-later context_done es a.err_ch h
  Step-IsReported es (return_cancelled a alive done) h =
      All-IsReported-later run_return es a.err_ch h
  Step-IsReported es (return_error a err rest alive found) h =
      let all : All (IsReported es) (err ∷ rest) = rw (found) at h in
      All-IsReported-later run_return es rest all.1

  Step-IsReason :
      (has_server : Bool) (es : List (Event E)) {ev : Event E} {a b : App E}
      → Step server_closed canceled ctx_err ev a b
      → IsSound has_server es a
      → IsReason has_server (ev ∷ es) b.returned
  Step-IsReason has_server es (server_ends a r on room) s =
      IsReason-later has_server (server_end r) es a.returned s.reason
  Step-IsReason has_server es (consumer_ends a r on room) s =
      IsReason-later has_server (consumer_end r) es a.returned s.reason
  Step-IsReason has_server es (cancel a alive) s =
      IsReason-later has_server context_done es a.returned s.reason
  Step-IsReason has_server es (return_cancelled a alive done) s = elim s.done [
    | inl before ↦ absurd (ground arith)
    | inr m ↦ (rw (alive) at s.reason, inl (refl, Memᴰ.tail m))
  ]
  Step-IsReason has_server es (return_error a err rest alive found) s =
      let all : All (IsReported es) (err ∷ rest) = rw (found) at s.reported in
      (rw (alive) at s.reason, inr (IsReported-later run_return es err all.0))

  Step-done :
      (es : List (Event E)) {ev : Event E} {a b : App E}
      → Step server_closed canceled ctx_err ev a b
      → (a.cancelled ≡ false) ⊎ Memᴰ context_done es
      → (b.cancelled ≡ false) ⊎ Memᴰ context_done (ev ∷ es)
  Step-done es (server_ends a r on room) h = done-later (server_end r) es a.cancelled h
  Step-done es (consumer_ends a r on room) h = done-later (consumer_end r) es a.cancelled h
  Step-done es (cancel a alive) h = inr (Memᴰ.head refl)
  Step-done es (return_cancelled a alive done) h = done-later run_return es a.cancelled h
  Step-done es (return_error a err rest alive found) h = done-later run_return es a.cancelled h

  Step-IsAwake :
      (es : List (Event E)) {ev : Event E} {a b : App E}
      → Step server_closed canceled ctx_err ev a b
      → IsAwake es a
      → IsAwake (ev ∷ es) b
  Step-IsAwake es (server_ends a r on room) h =
      IsAwake-report server_closed (server_end r) es r a
        (record a { serving = false; err_ch = report server_closed r a.err_ch }) refl refl refl
        (report-cases server_closed (IsQuiet (server_end r)) r a.err_ch (λ same. rw same tt)
          (λ err same skip. rw same skip))
        h
  Step-IsAwake es (consumer_ends a r on room) h =
      IsAwake-report canceled (consumer_end r) es r a
        (record a { consuming = false; err_ch = report canceled r a.err_ch }) refl refl refl
        (report-cases canceled (IsQuiet (consumer_end r)) r a.err_ch (λ same. rw same tt)
          (λ err same skip. rw same skip))
        h
  Step-IsAwake es (cancel a alive) h = inr (inl refl)
  Step-IsAwake es (return_cancelled a alive done) h = inl refl
  Step-IsAwake es (return_error a err rest alive found) h = inl refl

  Reached-IsSound :
      {has_server : Bool} {s : App E} {es : List (Event E)} {a : App E}
      → IsSound has_server [] s
      → Reached s es a
      → IsSound has_server es a
  Reached-IsSound h here = h
  Reached-IsSound {has_server} h (next {es = es} r st) =
      let s = Reached-IsSound h r in
      record {
        left = Step-left es st s.left;
        room = Step-room st s.room;
        reported = Step-IsReported es st s.reported;
        reason = Step-IsReason has_server es st s;
        done = Step-done es st s.done;
        awake = Step-IsAwake es st s.awake;
      }

  start-IsSound :
      (has_server has_consumer has_handle : Bool)
      → IsSound has_server [] (start has_server has_consumer has_handle)
  unfolding start
  start-IsSound has_server has_consumer has_handle = record {
    left = ground arith;
    room = ground arith;
    reported = tt;
    reason = ground arith;
    done = inl refl;
    awake = inr (inr (inr tt));
  }

  -- A goroutine that is at work can end, with an error or without one, and need not wait.
  abbrev pub NeverWaits : (Option E → Event E) → Bool → App E → Type 0
  NeverWaits end busy a = (busy ≡ false) ⊎ ((r : Option E) → CanHappen (end r) a)

  server-NeverWaits :
      (a : App E)
      → length a.err_ch + bit a.serving + bit a.consuming ≤ 2
      → NeverWaits server_end a.serving a
  server-NeverWaits a room = elim (Bool-cases a.serving) [
    | inl on ↦ inr (λ r. (
      record a { serving = false; err_ch = report server_closed r a.err_ch },
      server_ends a r on
          (omega (arith, room, ap bit on, length-report-le server_closed r a.err_ch)),
    ))
    | inr off ↦ inl off
  ]

  consumer-NeverWaits :
      (a : App E)
      → length a.err_ch + bit a.serving + bit a.consuming ≤ 2
      → NeverWaits consumer_end a.consuming a
  consumer-NeverWaits a room = elim (Bool-cases a.consuming) [
    | inl on ↦ inr (λ r. (
      record a { consuming = false; err_ch = report canceled r a.err_ch },
      consumer_ends a r on (omega (arith, room, ap bit on, length-report-le canceled r a.err_ch)),
    ))
    | inr off ↦ inl off
  ]

  -- Why `Run` is where it is: it has returned, can return, or nothing asks for it.
  abbrev pub IsPrompt : List (Event E) → App E → Type 0
  IsPrompt es a = (a.returned ≢ none) ⊎ (CanHappen run_return a ⊎ All IsQuiet es)

  awake-IsPrompt : (es : List (Event E)) (a : App E) → IsAwake es a → IsPrompt es a
  awake-IsPrompt es a h = elim (Option-cases a.returned) [
    | inr (err, over) ↦ inl (ground arith)
    | inl on ↦ elim h [
      | inl over ↦ absurd (ground arith)
      | inr (inl done) ↦
          inr (inl (record a { returned = some (ended ctx_err) }, return_cancelled a on done))
      | inr (inr (inl (err, rest, found))) ↦ inr (
          inl (
            record a { err_ch = rest; returned = some (ended err) },
            return_error a err rest on found,
          ))
      | inr (inr (inr quiet)) ↦ inr (inr quiet)
    ]
  ]

  -- Whatever dependencies there are and however the server, the consumer, the context and `Run`
  -- take turns: there are at most four events. A goroutine that is at work can end, with any error
  -- or none, and never waits for room in the channel. `Run` has returned, or can return, or else the
  -- context is not done and no goroutine has ended with an error that is not ignored. `Run` returns
  -- that the server is missing if it is, and only then; any other error that it returns is that of
  -- the context, which is then done, or one with which the server ended and that is not
  -- `ErrServerClosed`, or one with which the consumer ended and that is not `Canceled`.
  pub run-Terminates :
      (has_server has_consumer has_handle : Bool) (es : List (Event E)) (a : App E)
      → Reached (start has_server has_consumer has_handle) es a
      → (length es ≤ 4)
        × NeverWaits server_end a.serving a
        × NeverWaits consumer_end a.consuming a
        × IsPrompt es a
        × IsReason has_server es a.returned
  run-Terminates has_server has_consumer has_handle es a r =
      let s = Reached-IsSound (start-IsSound has_server has_consumer has_handle) r in
      (
        omega (arith, s.left),
        server-NeverWaits a s.room,
        consumer-NeverWaits a s.room,
        awake-IsPrompt es a s.awake,
        s.reason,
      )
