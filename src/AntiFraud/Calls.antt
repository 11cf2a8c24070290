-- ===== src/AntiFraud/Calls.antt =====
-- Runs of `Evaluate`, and what no call of it changes.
use mathlib.Core.Option
use wb_trial_task.Common.{◌≡◌, refl, ◌∙◌, Option, List, [], ◌∷◌, arith, Str}
use wb_trial_task.Clock.{Time}
use wb_trial_task.Domain.{SearchEvent, RejectError}
use wb_trial_task.AntiFraud.State.{Evaluator, cleanup}
use wb_trial_task.AntiFraud.Rules.{
  track_session, mark_contributions, contribute, roll_minute, count_request, limit_rate,
  evaluate_at, evaluate,
}

-- The arguments of one call, with the reading of the clock that it may make.
pub record Call : Type 0 where
  pub event : SearchEvent
  pub query : Str
  pub now : Option Time
  pub clock : Time

abbrev pub time_of : Call → Time
time_of c = Option.get_or c.now c.clock

abbrev pub apply_call : Call → Evaluator → Option RejectError × Evaluator
apply_call c e = evaluate c.event c.query c.now c.clock e

unfoldable pub run_calls : List Call → Evaluator → Evaluator
run_calls [] e = e
run_calls (c ∷ calls) e = run_calls calls (apply_call c e).1

track_session-cfg :
    (evt : SearchEvent) (q : Str) (now : Time) (e : Evaluator)
    → (track_session evt q now e).1.cfg ≡ e.cfg
unfolding track_session
track_session-cfg evt q now e = ground arith

contribute-cfg :
    (evt : SearchEvent) (q : Str) (now : Time) (e : Evaluator)
    → (contribute evt q now e).1.cfg ≡ e.cfg
unfolding contribute mark_contributions
contribute-cfg evt q now e =
    ground (arith, track_session-cfg evt q now (mark_contributions evt q now e))

limit_rate-cfg :
    (evt : SearchEvent) (q : Str) (now : Time) (e : Evaluator)
    → (limit_rate evt q now e).1.cfg ≡ e.cfg
unfolding limit_rate
limit_rate-cfg evt q now e =
    ground (arith, contribute-cfg evt q now (count_request evt.ip_hash (roll_minute now e)))

pub cleanup-cfg : (now : Time) (e : Evaluator) → (cleanup now e).cfg ≡ e.cfg
unfolding cleanup
cleanup-cfg now e = ground arith

pub evaluate-cfg : (c : Call) (e : Evaluator) → (apply_call c e).1.cfg ≡ e.cfg
unfolding evaluate evaluate_at
evaluate-cfg c e = ground (
  arith,
  cleanup-cfg (time_of c) e,
  limit_rate-cfg c.event c.query (time_of c) (cleanup (time_of c) e),
)

pub run_calls-cfg : (calls : List Call) (e : Evaluator) → (run_calls calls e).cfg ≡ e.cfg
unfolding run_calls
run_calls-cfg [] e = refl
run_calls-cfg (c ∷ calls) e = run_calls-cfg calls (apply_call c e).1 ∙ evaluate-cfg c e
