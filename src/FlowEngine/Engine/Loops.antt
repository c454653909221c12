-- ===== src/FlowEngine/Engine/Loops.antt =====
-- Runs within runs of a flow that goes to itself.
use zernflow.Base.{
  ℕ, zero, suc, ◌≡◌, refl, ap, ◌∙◌, ◌≢◌, Bool, true, false, ◌&&◌, Option, none, some, List, [], ◌∷◌,
  arith, ◌==◌, filter, All, Bool-cases, inl, inr,
}
use zernflow.Base.Result.{Result, ok, err}
use zernflow.FlowEngine.Types.{trigger, go_to_flow, Context}
use zernflow.FlowEngine.Engine.Store.{
  Flow, Tables, Session, World, M, FlowError, out_of_fuel, ◌>>=◌, return, throw, single_of, single,
  Answer, row, no_row, write, write_returning, update_session, update_where, apply_patch, at_node,
  track,
}
use zernflow.FlowEngine.Engine.Outside.{Outside}
use zernflow.FlowEngine.Engine.Run.{
  load_channel, load_conversation, traverse_nodes, execute_node, execute_data, next_node,
}
use zernflow.FlowEngine.Engine.Start.{
  seed, is_waiting, is_runnable, insert_session, start_node, start_at, start_in, start_flow, choose,
  start_or_resume, execute_flow,
}
use zernflow.FlowEngine.Engine.Keeps.{Pred, On, Ends, Returns}
use zernflow.FlowEngine.Engine.Contexts.{IsLoaded, load_channel-Returns}
use mathlib.Core.Path.{subst}
use zernflow.Base.Json.{Text}

-- The flow of a trigger whose edge leads to a node that goes to the flow itself.
abbrev pub self_flow : ℕ → ℕ → Flow
self_flow id workspace = record {
  id = id;
  workspace_id = workspace;
  is_published = true;
  nodes = record { id = 0; content = trigger } ∷ record { id = 1; content = go_to_flow id } ∷ [];
  edges = record { source = 0; target = 1; source_handle = none } ∷ [];
}

-- No session waits for a message, and no call fails.
abbrev pub NoneWaits : List Session → Type 0
NoneWaits s = All (λ x. x.waiting_for_input ≡ false) s

abbrev idle : Pred
idle s e f = NoneWaits s × (f ≡ [])

-- A step that returns, and a run that the fuel does not suffice for.
abbrev Steps : {A : Type 0} → Pred → M A → (A → Pred) → Type 0
Steps {A} p m q = (w : World) → On p w → (a : A) × (v : World) × (m w ≡ (v, ok a)) × On (q a) v

abbrev Exhausts : {A : Type 0} → Pred → M A → Type 0
Exhausts p m = (w : World) → On p w → (m w).1 ≡ err out_of_fuel

-- What follows a step, as `◌>>=◌` goes on.
abbrev go_from :
    {A B : Type 0} → (A → M B) → World × Result FlowError A → World × Result FlowError B
go_from f (w, ok a) = f a w
go_from f (w, err e) = (w, err e)

bind-go_from : {A B : Type 0} (m : M A) (f : A → M B) (w : World) → (m >>= f) w ≡ go_from f (m w)
unfolding ◌>>=◌
bind-go_from {A} {B} m f w = split (m w)
  where
    split :
        (x : World × Result FlowError A)
        → ◌≡◌ {A = World × Result FlowError B}
            (let (w', y) = x in elim y [ err e ↦ (w', err e) | ok a ↦ f a w' ])
            (go_from f x)
    split (v, ok a) = refl
    split (v, err e) = refl

Steps-then :
    {A B : Type 0} (p : Pred) (q : A → Pred) (m : M A) (f : A → M B)
    → Steps p m q
    → ((a : A) → Exhausts (q a) (f a))
    → Exhausts p (m >>= f)
Steps-then p q m f step rest w h =
    let (a, v, e, k) = step w h in
    ap (λ x. x.1) (bind-go_from m f w ∙ ap (go_from f) e) ∙ rest a v k

err_first :
    {A B : Type 0} (f : A → M B) (x : World × Result FlowError A)
    → x.1 ≡ err out_of_fuel
    → (go_from f x).1 ≡ err out_of_fuel
err_first f (v, ok a) e = cc
err_first f (v, err e) k = ground arith

Exhausts-first :
    {A B : Type 0} (p : Pred) (m : M A) (f : A → M B) → Exhausts p m → Exhausts p (m >>= f)
Exhausts-first p m f h w k = ap (λ x. x.1) (bind-go_from m f w) ∙ err_first f (m w) (h w k)

single-Steps :
    {A : Type 0} (read : World → List A) (q : Answer A → Type 0)
    → ((w : World) → On idle w → q (single_of (read w)))
    → Steps idle (single read) (λ a s e f. idle s e f × q a)
unfolding single
single-Steps read q known w h =
    (single_of (read w), record w { faults = [] }, rw h.1 refl, ((h.0, refl), known w h))

single-idle : {A : Type 0} (read : World → List A) → Steps idle (single read) (λ a. idle)
unfolding single
single-idle read w h = (single_of (read w), record w { faults = [] }, rw h.1 refl, (h.0, refl))

returns_idle : {A : Type 0} (a : A) → Steps idle (return a) (λ a. idle)
unfolding return
returns_idle a w h = (a, w, refl, h)

Steps-bind :
    {A B : Type 0} (p : Pred) (q : A → Pred) (r : B → Pred) (m : M A) (f : A → M B)
    → Steps p m q
    → ((a : A) → Steps (q a) (f a) r)
    → Steps p (m >>= f) r
Steps-bind p q r m f step rest w h =
    let (a, v, e, k) = step w h in
    let (b, u, d, l) = rest a v k in (b, u, bind-go_from m f w ∙ ap (go_from f) e ∙ d, l)

-- With what the step is known to return.
Steps-with :
    {A : Type 0} (p : Pred) (q : A → Type 0) (m : M A)
    → Steps p m (λ a. p)
    → Returns q m
    → Steps p m (λ a s e f. p s e f × q a)
Steps-with p q m step known w h =
    let (a, v, e, k) = step w h in (a, v, e, (k, subst (λ x. Ends q x.1) e (known w)))

-- A write that leaves no session waiting.
write_returning-Steps :
    {A : Type 0} (change : World → World × A)
    → ((w : World) → On idle w → On idle (change w).0 × ((change w).0.faults ≡ w.faults))
    → Steps idle (write_returning change) (λ a s e f. idle s e f × (a ≢ none))
unfolding write_returning
write_returning-Steps change keep w h =
    let v = record w { faults = [] } in
    (some (change v).1, (change v).0, rw h.1 refl, ((keep v (h.0, refl)).0, λ e. cc))

write-Steps :
    (change : World → World)
    → ((w : World) → On idle w → On idle (change w))
    → Steps idle (write change) (λ done. idle)
unfolding write
write-Steps change keep w h =
    let v = record w { faults = [] } in (true, change v, rw h.1 refl, keep v (h.0, refl))

nobody_waits : (c : Context) (ss : List Session) → NoneWaits ss → filter (is_waiting c) ss ≡ []
nobody_waits c [] h = refl
nobody_waits c (s ∷ ss) h = let head = h.0 in let rest = nobody_waits c ss h.1 in ground arith

update_where-NoneWaits :
    (test : Session → Bool) (node : ℕ) (ss : List Session)
    → NoneWaits ss
    → NoneWaits (update_where test (apply_patch (at_node node)) ss)
unfolding update_where apply_patch
update_where-NoneWaits test node [] h = tt
update_where-NoneWaits test node (s ∷ ss) h = elim (Bool-cases (test s)) [
  | inl hit ↦ rw hit (h.0, update_where-NoneWaits test node ss h.1)
  | inr miss ↦ rw miss (h.0, update_where-NoneWaits test node ss h.1)
]

-- The flows with an id, of a workspace, that are published.
abbrev pub published_as : ℕ → ℕ → Tables → List Flow
published_as id workspace t =
    filter (λ f. f.id == id && f.workspace_id == workspace && f.is_published) t.flows

module _ (o : Outside) (t : Tables) (id workspace : ℕ)
    (only : published_as id workspace t ≡ self_flow id workspace ∷ []) where
  abbrev IsIt : Context → Type 0
  IsIt c = (c.workspace_id ≡ workspace) × (c.flow_id ≡ id)

  load_conversation-Steps :
      (late : Option Text) (d : Context) → Steps idle (load_conversation o t late d) (λ d. idle)
  load_conversation-Steps (some late) d = returns_idle d
  load_conversation-Steps none d =
      Steps-bind idle (λ answer. idle) _ _ _ (single-idle _) (λ answer. returns_idle _)

  load_channel-Steps : (c : Context) → IsIt c → Steps idle (load_channel o t c) (λ d. idle)
  unfolding load_channel
  load_channel-Steps c it =
      Steps-bind idle (λ answer. idle) _ _ _ (single-idle _) (λ answer. load_conversation-Steps _ _)

  node-Exhausts :
      (run : Context → M (Unit {0})) (session : ℕ) (c : Context)
      → ((d : Context) → IsIt d → Exhausts idle (run d))
      → IsIt c
      → Exhausts idle (
          start_at o t run session
            (self_flow id workspace)
            c
            (start_node (self_flow id workspace).nodes (self_flow id workspace).edges))
  unfolding start_node next_node traverse_nodes execute_node execute_data update_session track
  node-Exhausts run session c again it =
      Steps-then idle (λ done. idle) _ _
        (write-Steps _ (λ w h. (update_where-NoneWaits _ 1 w.sessions h.0, h.1)))
        (λ updated.
          Steps-then idle (λ done. idle) _ _ (write-Steps _ (λ w h. h))
            (λ tracked. Exhausts-first idle _ _ (Exhausts-first idle _ _ (again _ (it.0, refl)))))

  start_in-Exhausts :
      (run : Context → M (Unit {0})) (c : Context) (session : Option ℕ)
      → ((d : Context) → IsIt d → Exhausts idle (run d))
      → IsIt c
      → session ≢ none
      → Exhausts idle (start_in o t run (self_flow id workspace) c session)
  unfolding track
  start_in-Exhausts run c none again it given = absurd (given refl)
  start_in-Exhausts run c (some session) again it given =
      Steps-then idle (λ done. idle) _ _ (write-Steps _ (λ w h. h))
        (λ tracked. node-Exhausts run session c again it)

  start_flow-Exhausts :
      (run : Context → M (Unit {0})) (c : Context) (answer : Answer Flow)
      → ((d : Context) → IsIt d → Exhausts idle (run d))
      → IsIt c
      → answer ≡ row (self_flow id workspace)
      → Exhausts idle (start_flow o t run c answer)
  unfolding insert_session
  start_flow-Exhausts run c answer again it e = rw e (
      Steps-then idle (λ d s e f. idle s e f × IsLoaded o t c d) _ _
        (Steps-with idle (IsLoaded o t c) _ (load_channel-Steps c it) (load_channel-Returns o t c))
        (λ d w h.
          Steps-then idle (λ session s e f. idle s e f × (session ≢ none)) _ _
            (write_returning-Steps _ (λ v k. (((refl, k.0), k.1), refl)))
            (λ session v k.
              start_in-Exhausts run d session again (h.1.0 ∙ it.0, h.1.1 ∙ it.1) k.1 v k.0)
            w h.0))

  runnable_only :
      (c : Context) → IsIt c → filter (is_runnable c) t.flows ≡ self_flow id workspace ∷ []
  runnable_only c it = rw (it.0, it.1) only

  start_new-Exhausts :
      (run : Context → M (Unit {0})) (c : Context)
      → ((d : Context) → IsIt d → Exhausts idle (run d))
      → IsIt c
      → Exhausts idle (single (λ w. filter (is_runnable c) t.flows) >>= start_flow o t run c)
  start_new-Exhausts run c again it =
      Steps-then idle (λ a s e f. idle s e f × (a ≡ row (self_flow id workspace))) _ _
        (single-Steps _ (λ a. a ≡ row (self_flow id workspace))
          (λ w h. ap single_of (runnable_only c it)))
        (λ answer w h. start_flow-Exhausts run c answer again it h.1 w h.0)

  choose-Exhausts :
      (run : Context → M (Unit {0})) (c : Context) (answer : Answer Session)
      → ((d : Context) → IsIt d → Exhausts idle (run d))
      → IsIt c
      → answer ≡ no_row
      → Exhausts idle (choose o t run c answer)
  choose-Exhausts run c answer again it e = rw e (start_new-Exhausts run c again it)

  exhausts : (fuel : ℕ) (c : Context) → IsIt c → Exhausts idle (execute_flow o t fuel c)
  unfolding execute_flow start_or_resume throw
  exhausts zero c it = λ w h. refl
  exhausts (suc fuel) c it =
      Steps-then idle (λ a s e f. idle s e f × (a ≡ no_row)) _ _
        (single-Steps _ (λ a. a ≡ no_row)
          (λ w h. ap single_of (nobody_waits (seed c) w.sessions h.0)))
        (λ answer w h.
          choose-Exhausts (execute_flow o t fuel) (seed c) answer (exhausts fuel) it h.1 w h.0)

-- A flow whose first node goes to the flow itself runs for ever: where no call of the database fails
-- and no session waits for a message, the run uses up every fuel.
pub execute_flow-exhausts :
    (o : Outside) (t : Tables) (fuel : ℕ) (c : Context) (w : World)
    → published_as c.flow_id c.workspace_id t ≡ self_flow c.flow_id c.workspace_id ∷ []
    → NoneWaits w.sessions
    → w.faults ≡ []
    → (execute_flow o t fuel c w).1 ≡ err out_of_fuel
execute_flow-exhausts o t fuel c w only nobody works =
    exhausts o t c.flow_id c.workspace_id only fuel c (refl, refl) w (nobody, works)
