-- ===== src/ServiceDesk/Sla/Frozen.antt =====
-- Pauses freeze the remaining budget.
use zernflow.Base.{
  ℕ, ◌+◌, ◌-◌, ◌≤◌, ◌≡◌, refl, sym, ◌∙◌, suc, ◌*◌, leb, true, false, none, some, List, [], ◌∷◌,
  arith,
}
use mathlib.Core.Path.{subst}
use zernflow.Base.Int.{sub_ℕ}
use zernflow.Base.Result.{ok, >>=-eq-ok}
use zernflow.ServiceDesk.Sla.{
  state_of, SlaResult, Pause, Paused, add_pause, add_pauses, judge, no_pause, evaluate, sort_pauses,
}
use zernflow.ServiceDesk.Sla.Laws.{add_pauses-IsCovered}

-- Two runs of the loop over the same pauses, at an instant and at a later one: they agree up to an
-- open pause, which lasts until each of the instants.
abbrev pub AreInStep : ℕ → ℕ → Paused → Paused → Type 0
AreInStep now later s t =
    (s.previous_end ≡ t.previous_end) × (s.is_paused ≡ t.is_paused) × (elim s.previous_end [
      | none ↦ (s.is_paused ≡ true) × (t.pause_ms + now ≡ s.pause_ms + later)
      | some e ↦ (s.is_paused ≡ false) × (t.pause_ms ≡ s.pause_ms)
    ])

add_pause-AreInStep :
    (started now later : ℕ) (p : Pause) (s s' t t' : Paused)
    → now ≤ later
    → AreInStep now later s t
    → add_pause started now now false p s ≡ ok s'
    → add_pause started later later false p t ≡ ok t'
    → AreInStep now later s' t'
unfolding add_pause
add_pause-AreInStep started now later p s s' t t' h k e f = ground arith

add_pauses-AreInStep :
    (started now later : ℕ) (ps : List Pause) (s s' t t' : Paused)
    → now ≤ later
    → AreInStep now later s t
    → add_pauses started now now false ps s ≡ ok s'
    → add_pauses started later later false ps t ≡ ok t'
    → AreInStep now later s' t'
unfolding add_pauses
add_pauses-AreInStep started now later [] s s' t t' h k e f =
    let same : s ≡ s' = ground arith in
    let same' : t ≡ t' = ground arith in
    subst (λ x. AreInStep now later x t') same (subst (λ x. AreInStep now later s x) same' k)
add_pauses-AreInStep started now later (p ∷ ps) s s' t t' h k e f =
    let (s1, one, rest) = >>=-eq-ok (add_pause started now now false p s) _ e in
    let (t1, one', rest') = >>=-eq-ok (add_pause started later later false p t) _ f in
    add_pauses-AreInStep started now later ps s1 s' t1 t' h
      (add_pause-AreInStep started now later p s s1 t t1 h k one one') rest rest'

judge-elapsed :
    (started evaluated budget n d : ℕ) (s : Paused) (r : SlaResult)
    → judge started evaluated false budget (n, d) s ≡ ok r
    → (r.is_paused ≡ s.is_paused)
      × (r.remaining_ms ≡ sub_ℕ budget (evaluated - started - s.pause_ms))
      × (let elapsed = evaluated - started - s.pause_ms in
          r.state
          ≡ state_of (leb budget elapsed) false s.is_paused (leb (budget * n) (elapsed * suc d)))
unfolding judge
judge-elapsed started evaluated budget n d s r e = ground arith

elapsed-frozen :
    (started now later : ℕ) (s t : Paused)
    → now ≤ later
    → started + s.pause_ms ≤ now
    → AreInStep now later s t
    → s.is_paused ≡ true
    → later - started - t.pause_ms ≡ now - started - s.pause_ms
elapsed-frozen started now later s t h c k g = ground arith

-- An open objective that is paused keeps its state and the milliseconds that remain, at every later
-- instant at which the same pauses are evaluated without an error.
pub evaluate-frozen :
    (started now later budget : ℕ) (part : ℕ × ℕ) (pauses : List Pause) (r r' : SlaResult)
    → started ≤ now
    → now ≤ later
    → evaluate started now none budget part pauses ≡ ok r
    → evaluate started later none budget part pauses ≡ ok r'
    → r.is_paused ≡ true
    → (r'.remaining_ms ≡ r.remaining_ms) × (r'.state ≡ r.state)
unfolding evaluate
evaluate-frozen started now later budget (n, d) pauses r r' b h e f g =
    let ps = sort_pauses pauses in
    let (s, looped, judged) =
      >>=-eq-ok (add_pauses started now now false ps (no_pause started)) _ e in
    let (t, looped', judged') =
      >>=-eq-ok (add_pauses started later later false ps (no_pause started)) _ f in
    let step =
      add_pauses-AreInStep started now later ps (no_pause started) s (no_pause started) t h
        (refl, refl, (refl, refl)) looped looped' in
    let covered =
      add_pauses-IsCovered started now now false ps (no_pause started) s (omega arith)
        (omega (arith, b)) looped in
    let before = judge-elapsed started now budget n d s r judged in
    let after = judge-elapsed started later budget n d t r' judged' in
    let open' : s.is_paused ≡ true = sym before.0 ∙ g in
    let same = elapsed-frozen started now later s t h (ground arith) step open' in
    rw (after.1, after.2, before.1, before.2, same, step.1) (refl, refl)
