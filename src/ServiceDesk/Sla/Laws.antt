-- ===== src/ServiceDesk/Sla/Laws.antt =====
-- What the judgement of an objective says of its deadline.
use zernflow.Base.{
  ℕ, ◌+◌, ◌≤◌, ◌<◌, ◌≡◌, ◌↔◌, min, Bool, true, false, Option, none, some, List, [], ◌∷◌, arith,
  or_else, is_some, if◌then◌else◌, ◌-◌, refl, ltb, Bool-cases, inl, inr,
}
use zernflow.Base.Int.{sub_ℕ}
use zernflow.Base.Result.{ok, >>=-eq-ok}
use zernflow.ServiceDesk.Sla.{
  breached, met, SlaResult, Pause, Paused, add_pause, add_pauses, judge, no_pause, evaluate,
  sort_pauses, insert_pause,
}

-- The pauses that were counted lie between the start and the instant of the judgement.
abbrev pub IsCovered : ℕ → ℕ → Paused → Type 0
IsCovered started evaluated s = (elim s.previous_end [
  | none ↦ started + s.pause_ms ≤ evaluated
  | some e ↦ started + s.pause_ms ≤ min e evaluated
])

add_pause-IsCovered :
    (started now evaluated : ℕ) (done : Bool) (p : Pause) (s s' : Paused)
    → evaluated ≤ now
    → IsCovered started evaluated s
    → add_pause started now evaluated done p s ≡ ok s'
    → IsCovered started evaluated s'
unfolding add_pause
add_pause-IsCovered started now evaluated done p s s' h k e = ground arith

pub add_pauses-IsCovered :
    (started now evaluated : ℕ) (done : Bool) (ps : List Pause) (s s' : Paused)
    → evaluated ≤ now
    → IsCovered started evaluated s
    → add_pauses started now evaluated done ps s ≡ ok s'
    → IsCovered started evaluated s'
unfolding add_pauses
add_pauses-IsCovered started now evaluated done [] s s' h k e = ground arith
add_pauses-IsCovered started now evaluated done (p ∷ ps) s s' h k e =
    let (t, first, rest) = >>=-eq-ok (add_pause started now evaluated done p s) _ e in
    add_pauses-IsCovered started now evaluated done ps t s' h
      (add_pause-IsCovered started now evaluated done p s t h k first) rest

-- How long the pauses last by an instant: each one from its start to its end, or to the instant.
abbrev pub paused_by : ℕ → List Pause → ℕ
paused_by evaluated [] = 0
paused_by evaluated (p ∷ ps) =
    (min (or_else p.end evaluated) evaluated - p.start) + paused_by evaluated ps

paused_by-insert_pause :
    (evaluated : ℕ) (p : Pause) (ps : List Pause)
    → paused_by evaluated (insert_pause p ps) ≡ paused_by evaluated (p ∷ ps)
unfolding insert_pause
paused_by-insert_pause evaluated p [] = refl
paused_by-insert_pause evaluated p (q ∷ qs) = elim (Bool-cases (ltb q.start p.start)) [
  | inl later ↦ rw later (omega (arith, paused_by-insert_pause evaluated p qs))
  | inr first ↦ rw first refl
]

paused_by-sort_pauses :
    (evaluated : ℕ) (ps : List Pause)
    → paused_by evaluated (sort_pauses ps) ≡ paused_by evaluated ps
unfolding sort_pauses
paused_by-sort_pauses evaluated [] = refl
paused_by-sort_pauses evaluated (p ∷ ps) =
    omega (
      arith,
      paused_by-insert_pause evaluated p (sort_pauses ps),
      paused_by-sort_pauses evaluated ps,
    )

add_pause-paused_by :
    (started now evaluated : ℕ) (done : Bool) (p : Pause) (s s' : Paused)
    → add_pause started now evaluated done p s ≡ ok s'
    → s'.pause_ms ≡ s.pause_ms + (min (or_else p.end evaluated) evaluated - p.start)
unfolding add_pause
add_pause-paused_by started now evaluated done p s s' e = ground arith

add_pauses-paused_by :
    (started now evaluated : ℕ) (done : Bool) (ps : List Pause) (s s' : Paused)
    → add_pauses started now evaluated done ps s ≡ ok s'
    → s'.pause_ms ≡ s.pause_ms + paused_by evaluated ps
unfolding add_pauses
add_pauses-paused_by started now evaluated done [] s s' e = ground arith
add_pauses-paused_by started now evaluated done (p ∷ ps) s s' e =
    let (t, first, rest) = >>=-eq-ok (add_pause started now evaluated done p s) _ e in
    omega (
      arith,
      add_pause-paused_by started now evaluated done p s t first,
      add_pauses-paused_by started now evaluated done ps t s' rest,
    )

judge-due_at :
    (started evaluated : ℕ) (done : Bool) (budget : ℕ) (part : ℕ × ℕ) (s : Paused) (r : SlaResult)
    → judge started evaluated done budget part s ≡ ok r
    → r.due_at ≡ started + budget + s.pause_ms
unfolding judge
judge-due_at started evaluated done budget part s r e = ground arith

-- A judgement by its deadline: an open objective is breached from its deadline on, a completed one
-- after it, and only an open breach is escalated.
abbrev pub IsJudged : ℕ → Bool → SlaResult → Type 0
IsJudged evaluated done r =
    ((r.state ≡ breached) ↔ (if done then r.due_at < evaluated else r.due_at ≤ evaluated))
    × ((r.state ≡ met) ↔ ((done ≡ true) × (evaluated ≤ r.due_at)))
    × ((r.escalation_required ≡ true) ↔ ((done ≡ false) × (r.due_at ≤ evaluated)))
    × (r.remaining_ms ≡ sub_ℕ r.due_at evaluated)

judge-IsJudged :
    (started evaluated : ℕ) (done : Bool) (budget : ℕ) (part : ℕ × ℕ) (s : Paused) (r : SlaResult)
    → started + s.pause_ms ≤ evaluated
    → judge started evaluated done budget part s ≡ ok r
    → IsJudged evaluated done r
unfolding judge
judge-IsJudged started evaluated done budget part s r h e = ground arith

-- An objective that is evaluated without an error, at its completion or else now: its deadline is the
-- start plus the budget plus the time that the given pauses last by then, in any order; and it is
-- breached exactly if it is open at the deadline or was completed after it, met exactly if it was
-- completed by then, escalated exactly if it is open and breached, and the milliseconds that remain
-- are those to the deadline.
pub evaluate-IsJudged :
    (started now budget : ℕ) (completed : Option ℕ) (part : ℕ × ℕ) (pauses : List Pause)
    (r : SlaResult)
    → started ≤ or_else completed now
    → or_else completed now ≤ now
    → evaluate started now completed budget part pauses ≡ ok r
    → (r.due_at ≡ started + budget + paused_by (or_else completed now) pauses)
      × IsJudged (or_else completed now) (is_some completed) r
unfolding evaluate
evaluate-IsJudged started now budget completed part pauses r h k e =
    let evaluated = or_else completed now in
    let (s, looped, judged) =
      >>=-eq-ok
        (add_pauses started now evaluated (is_some completed) (sort_pauses pauses)
          (no_pause started))
        _ e in
    let covered =
      add_pauses-IsCovered started now evaluated (is_some completed) (sort_pauses pauses)
        (no_pause started) s k (omega (arith, h)) looped in
    (
      omega (
        arith,
        judge-due_at started evaluated (is_some completed) budget part s r judged,
        add_pauses-paused_by started now evaluated (is_some completed) (sort_pauses pauses)
            (no_pause started) s looped,
        paused_by-sort_pauses evaluated pauses,
      ),
      judge-IsJudged started evaluated (is_some completed) budget part s r (ground arith) judged,
    )
