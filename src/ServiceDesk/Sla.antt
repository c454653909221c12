-- ===== src/ServiceDesk/Sla.antt =====
-- lib/service-desk/sla.ts: the deadlines of a ticket. An instant is a count of milliseconds from the
-- earliest `Date`, 8.64e15 of them before 1970, so that none is negative. `Date.parse` is a
-- parameter, which answers with such a count, and `toISOString` is left out.
pub mod Laws
pub mod Frozen
use zernflow.Base.{
  ℕ, zero, suc, ◌+◌, ◌-◌, ◌*◌, ◌/◌, ◌%◌, ◌≤◌, min, max, Bool, true, false, not, ◌&&◌, ◌||◌, Option,
  none, some, List, [], ◌∷◌, if◌then◌else◌, ltb, leb, ◌==◌, or_else, is_some,
}
use zernflow.Base.Int.{ℤ, pos, negsuc, sub_ℕ}
use zernflow.Base.Json.{Text, Number, ratio}
use zernflow.Base.Result.{Result, ok, err, ◌>>=◌, ◌>>◌, throw_if}

pub data WorkPriority : Type 0 where
  low normal high urgent : WorkPriority

pub record SlaTargets : Type 0 where
  pub first_response_minutes : Number
  pub resolution_minutes : Number

-- What a priority overrides of the targets.
pub record SlaOverride : Type 0 where
  pub first_response : Option Number
  pub resolution : Option Number

pub record SlaPolicy : Type 0 where
  pub targets : SlaTargets
  pub priority_overrides : WorkPriority → Option SlaOverride
  pub warning_fraction : Number

pub record SlaPause : Type 0 where
  pub started_at : Text
  pub ended_at : Option Text

pub data SlaState : Type 0 where
  on_track warning breached paused met : SlaState

pub record SlaResult : Type 0 where
  pub due_at : ℕ
  pub state : SlaState
  pub remaining_ms : ℤ
  pub is_paused : Bool
  pub completed : Bool
  pub escalation_required : Bool

pub data SlaError : Type 0 where
  no_timezone invalid_instant bad_target bad_fraction out_of_order bad_pauses out_of_range :
      SlaError

abbrev pub minute_ms : ℕ
minute_ms = 60_000

abbrev pub is_digit : ℕ → Bool
is_digit c = leb 48 c && leb c 57

abbrev all_digits : Text → Bool
all_digits [] = true
all_digits (c ∷ cs) = is_digit c && all_digits cs

-- `.*(?:Z|[+-]\d{2}:\d{2})$`, at any of the places that `.*` may end at; `.` is no line end.
abbrev pub is_zone : Text → Bool
is_zone (z ∷ []) = z == 90
is_zone (sign ∷ a ∷ b ∷ colon ∷ c ∷ d ∷ []) =
    (sign == 43 || sign == 45)
    && is_digit a
    && is_digit b
    && colon == 58
    && is_digit c
    && is_digit d
is_zone _ = false

abbrev pub is_line_end : ℕ → Bool
is_line_end c = c == 10 || c == 13 || c == 8232 || c == 8233

unfoldable pub ends_in_zone : Text → Bool
ends_in_zone [] = false
ends_in_zone (c ∷ cs) = is_zone (c ∷ cs) || (not (is_line_end c) && ends_in_zone cs)

-- `^\d{4}-\d{2}-\d{2}T`
unfoldable pub has_timezone : Text → Bool
has_timezone (y ∷ y' ∷ y'' ∷ y''' ∷ dash ∷ m ∷ m' ∷ dash' ∷ d ∷ d' ∷ t ∷ rest) =
    all_digits (y ∷ y' ∷ y'' ∷ y''' ∷ m ∷ m' ∷ d ∷ d' ∷ [])
    && dash == 45
    && dash' == 45
    && t == 84
    && ends_in_zone rest
has_timezone _ = false

-- `Number.isSafeInteger(value)`, from 1 to 525600.
unfoldable pub minutes : Number → Result SlaError ℕ
minutes (ratio (pos n) d) =
    if n % suc d == 0 && ltb 0 (n / suc d) && leb (n / suc d) 525_600
    then ok (n / suc d)
    else err bad_target
minutes _ = err bad_target

-- A fraction strictly between zero and one: its numerator and its denominator less one.
unfoldable pub fraction : Number → Result SlaError (ℕ × ℕ)
fraction (ratio (pos n) d) = if ltb 0 n && ltb n (suc d) then ok (n, d) else err bad_fraction
fraction _ = err bad_fraction

abbrev overriding : Option SlaOverride → (SlaOverride → Option Number) → Number → Number
overriding none part target = target
overriding (some o) part target = or_else (part o) target

-- The two targets in minutes.
unfoldable pub resolve_sla_targets : SlaPolicy → WorkPriority → Result SlaError (ℕ × ℕ)
resolve_sla_targets policy priority = do
  _ ← fraction policy.warning_fraction
  _ ← minutes policy.targets.first_response_minutes
  _ ← minutes policy.targets.resolution_minutes
  let override' = policy.priority_overrides priority
  first ←
      minutes (overriding override' (λ o. o.first_response) policy.targets.first_response_minutes)
  resolution ← minutes (overriding override' (λ o. o.resolution) policy.targets.resolution_minutes)
  ok (first, resolution)

-- A pause with its instants.
pub record Pause : Type 0 where
  pub start : ℕ
  pub end : Option ℕ

unfoldable pub insert_pause : Pause → List Pause → List Pause
insert_pause p [] = p ∷ []
insert_pause p (q ∷ qs) =
    let rest = insert_pause p qs in if ltb q.start p.start then q ∷ rest else p ∷ q ∷ qs

-- `.sort((a, b) => a.start - b.start)`, which is stable.
unfoldable pub sort_pauses : List Pause → List Pause
sort_pauses [] = []
sort_pauses (p ∷ ps) = insert_pause p (sort_pauses ps)

-- What the loop carries: `previousEnd`, where `none` is `Infinity`, `pauseMs` and `paused`.
pub record Paused : Type 0 where
  pub previous_end : Option ℕ
  pub pause_ms : ℕ
  pub is_paused : Bool

abbrev before_end : ℕ → Option ℕ → Bool
before_end start none = true
before_end start (some e) = ltb start e

abbrev bad_end : ℕ → ℕ → Option ℕ → Bool
bad_end start now none = false
bad_end start now (some e) = ltb e start || ltb now e

-- The body of the loop, with `completed !== null` as `done`.
unfoldable pub add_pause : ℕ → ℕ → ℕ → Bool → Pause → Paused → Result SlaError Paused
add_pause started now evaluated done p s =
    if before_end p.start s.previous_end
      || ltb p.start started
      || ltb now p.start
      || bad_end p.start now p.end
    then err bad_pauses
    else ok (
        if ltb evaluated p.start then record s { previous_end = p.end } else record {
          previous_end = p.end;
          pause_ms = s.pause_ms + (min (or_else p.end evaluated) evaluated - p.start);
          is_paused = s.is_paused || (not done && not (is_some p.end));
        })

unfoldable pub add_pauses : ℕ → ℕ → ℕ → Bool → List Pause → Paused → Result SlaError Paused
add_pauses started now evaluated done [] s = ok s
add_pauses started now evaluated done (p ∷ ps) s =
    add_pause started now evaluated done p s >>= λ s'. add_pauses started now evaluated done ps s'

-- The latest `Date`.
abbrev pub latest_instant : ℕ
latest_instant = 17_280_000_000_000_000

abbrev pub state_of : Bool → Bool → Bool → Bool → SlaState
state_of breached' done paused' warned =
    if breached'
    then breached
    else if done
    then met
    else if paused'
    then paused
    else if warned
    then warning
    else on_track

-- The judgement, from the instants, the budget, the fraction and the pauses.
unfoldable pub judge : ℕ → ℕ → Bool → ℕ → ℕ × ℕ → Paused → Result SlaError SlaResult
judge started evaluated done budget (n, d) s =
    let elapsed = evaluated - started - s.pause_ms in
    let is_breached = if done then ltb budget elapsed else leb budget elapsed in
    let due = started + budget + s.pause_ms in
    throw_if (ltb latest_instant due) out_of_range
    >> ok (record {
      due_at = due;
      state = state_of is_breached done s.is_paused (leb (budget * n) (elapsed * suc d));
      remaining_ms = sub_ℕ budget elapsed;
      is_paused = s.is_paused;
      completed = done;
      escalation_required = is_breached && not done;
    })

abbrev pub no_pause : ℕ → Paused
no_pause started = record { previous_end = some started; pause_ms = 0; is_paused = false }

-- The loop over the sorted pauses and the judgement, from checked values.
unfoldable pub evaluate : ℕ → ℕ → Option ℕ → ℕ → ℕ × ℕ → List Pause → Result SlaError SlaResult
evaluate started now completed budget part pauses =
    let evaluated = or_else completed now in
    let done = is_some completed in
    add_pauses started now evaluated done (sort_pauses pauses) (no_pause started)
    >>= judge started evaluated done budget part

-- `now < started || (completed !== null && (completed < started || completed > now))`
abbrev pub disordered : ℕ → ℕ → Option ℕ → Bool
disordered started now none = ltb now started
disordered started now (some completed) =
    ltb now started || ltb completed started || ltb now completed

pub record SlaInput : Type 0 where
  pub started_at : Text
  pub target_minutes : Number
  pub warning_fraction : Number
  pub now : Text
  pub completed_at : Option Text
  pub pauses : List SlaPause

pub record TicketInput : Type 0 where
  pub policy : SlaPolicy
  pub priority : WorkPriority
  pub created_at : Text
  pub now : Text
  pub first_responded_at : Option Text
  pub resolved_at : Option Text
  pub first_response_pauses : List SlaPause
  pub resolution_pauses : List SlaPause

module _ (date_parse : Text → Option ℕ) where
  unfoldable pub instant : Text → Result SlaError ℕ
  instant value =
      throw_if (not (has_timezone value)) no_timezone
      >> elim (date_parse value) [ none ↦ err invalid_instant | some t ↦ ok t ]

  -- `value ? instant(value) : null`
  unfoldable pub instant_if_given : Option Text → Result SlaError (Option ℕ)
  instant_if_given none = ok none
  instant_if_given (some []) = ok none
  instant_if_given (some (c ∷ cs)) = instant (c ∷ cs) >>= λ t. ok (some t)

  -- `pause.endedAt === null ? null : instant(pause.endedAt)`
  unfoldable pub pause_end : Option Text → Result SlaError (Option ℕ)
  pause_end none = ok none
  pause_end (some value) = instant value >>= λ t. ok (some t)

  unfoldable pub pause_instants : List SlaPause → Result SlaError (List Pause)
  pause_instants [] = ok []
  pause_instants (p ∷ ps) = do
    start ← instant p.started_at
    end' ← pause_end p.ended_at
    rest ← pause_instants ps
    ok (record { start = start; end = end' } ∷ rest)

  unfoldable pub evaluate_sla_objective : SlaInput → Result SlaError SlaResult
  unfolding evaluate
  evaluate_sla_objective input = do
    started ← instant input.started_at
    now ← instant input.now
    completed ← instant_if_given input.completed_at
    throw_if (disordered started now completed) out_of_order
    part ← fraction input.warning_fraction
    target ← minutes input.target_minutes
    pauses ← pause_instants input.pauses
    evaluate started now completed (target * minute_ms) part pauses

  abbrev objective : TicketInput → ℕ → Option Text → List SlaPause → SlaInput
  objective input target completed_at pauses = record {
    started_at = input.created_at;
    target_minutes = ratio (pos target) 0;
    warning_fraction = input.policy.warning_fraction;
    now = input.now;
    completed_at = completed_at;
    pauses = pauses;
  }

  -- The first response and the resolution.
  unfoldable pub evaluate_ticket_sla : TicketInput → Result SlaError (SlaResult × SlaResult)
  unfolding evaluate_sla_objective resolve_sla_targets
  evaluate_ticket_sla input = do
    (first, last) ← resolve_sla_targets input.policy input.priority
    first_response ←
        evaluate_sla_objective
          (objective input first input.first_responded_at input.first_response_pauses)
    resolution ←
        evaluate_sla_objective (objective input last input.resolved_at input.resolution_pauses)
    ok (first_response, resolution)
