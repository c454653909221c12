-- ===== src/ServiceDesk/Tests.antt =====
-- The service desk's theorems at concrete inputs.
use zernflow.Base.{◌+◌, ◌≡◌, refl, none, some, List, [], ◌∷◌, arith, true, false}
use zernflow.Base.Int.{pos}
use zernflow.Base.Result.{ok}
use zernflow.ServiceDesk.Sla.{
  paused, SlaResult, Pause, evaluate, add_pauses, add_pause, sort_pauses, insert_pause, judge,
}
use zernflow.ServiceDesk.Sla.Laws.{IsJudged, paused_by, evaluate-IsJudged}
use zernflow.ServiceDesk.Sla.Frozen.{evaluate-frozen}

-- A budget of 1000 ms from 100 on, with a pause from 300 to 400 and one that is open since 600, and
-- the pauses are given out of order.
abbrev two_pauses : List Pause
two_pauses = record { start = 600; end = none } ∷ record { start = 300; end = some 400 } ∷ []

abbrev at_700 : SlaResult
at_700 = record {
  due_at = 1_300;
  state = paused;
  remaining_ms = pos 600;
  is_paused = true;
  completed = false;
  escalation_required = false;
}

abbrev at_900 : SlaResult
at_900 = record at_700 { due_at = 1_500 }

run_700 : evaluate 100 700 none 1_000 (1, 1) two_pauses ≡ ok at_700
unfolding evaluate add_pauses add_pause sort_pauses insert_pause judge
run_700 = refl

run_900 : evaluate 100 900 none 1_000 (1, 1) two_pauses ≡ ok at_900
unfolding evaluate add_pauses add_pause sort_pauses insert_pause judge
run_900 = refl

evaluate-IsJudged_example :
    (at_700.due_at ≡ 100 + 1_000 + paused_by 700 two_pauses) × IsJudged 700 false at_700
evaluate-IsJudged_example =
    evaluate-IsJudged 100 700 1_000 none (1, 1) two_pauses at_700 (omega arith) (omega arith)
      run_700

evaluate-frozen_example :
    (at_900.remaining_ms ≡ at_700.remaining_ms) × (at_900.state ≡ at_700.state)
evaluate-frozen_example =
    evaluate-frozen 100 700 900 1_000 (1, 1) two_pauses at_700 at_900 (omega arith) (omega arith)
      run_700 run_900 refl
