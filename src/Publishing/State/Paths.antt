-- ===== src/Publishing/State/Paths.antt =====
-- `publish_path` finds a shortest legal path, exactly when there is one.
use zernflow.Base.{
  ℕ, ◌+◌, ◌≤◌, ◌≡◌, ◌≢◌, refl, inl, inr, Bool, true, false, none, some, List, [], ◌∷◌, arith,
  length, ◌&&◌, ◌||◌, leb, not, Bool-cases, Option-cases, is_some,
}
use zernflow.Publishing.State.{
  PublishState, draft, scheduled, queued, publishing, published, failed, cancelled, same, includes,
  legal, publish_path, path_search, out_of_fuel, variant_guard, is_waypoint,
}

-- A table of all states decides a property of every state.
abbrev is_nil : List PublishState → Bool
is_nil [] = true
is_nil (_ ∷ _) = false

for_all : (PublishState → Bool) → Bool
for_all p =
    p draft && p scheduled && p queued && p publishing && p published && p failed && p cancelled

for_all_sound : (p : PublishState → Bool) → for_all p ≡ true → (s : PublishState) → p s ≡ true
unfolding for_all
for_all_sound p h draft = ground arith
for_all_sound p h scheduled = ground arith
for_all_sound p h queued = ground arith
for_all_sound p h publishing = ground arith
for_all_sound p h published = ground arith
for_all_sound p h failed = ground arith
for_all_sound p h cancelled = ground arith

-- A legal path that passes through `scheduled` and `publishing` only.
pub data Route : PublishState → PublishState → List PublishState → Type 0 where
  stay : {s : PublishState} → Route s s []
  last : {s t : PublishState} → includes (legal s) t ≡ true → Route s t (t ∷ [])
  via_scheduled :
      {s t : PublishState} {p : List PublishState}
      → includes (legal s) scheduled ≡ true
      → Route scheduled t p
      → Route s t (scheduled ∷ p)
  via_publishing :
      {s t : PublishState} {p : List PublishState}
      → includes (legal s) publishing ≡ true
      → Route publishing t p
      → Route s t (publishing ∷ p)

-- The length of the path that is found; 9 stands for none.
steps : PublishState → PublishState → ℕ
steps s t = elim (publish_path s t) [ none ↦ 9 | some p ↦ length p ]

steps_table :
    for_all (λ s. for_all (λ t.
      (leb (steps s t) 1 || not (includes (legal s) t))
      && (leb (steps s t) (steps scheduled t + 1) || not (includes (legal s) scheduled))
      && (leb (steps s t) (steps publishing t + 1) || not (includes (legal s) publishing))))
    ≡ true
unfolding steps for_all publish_path
steps_table = refl

module _ (s t : PublishState) where
  steps_facts :
      (includes (legal s) t ≡ true → steps s t ≤ 1)
      × (includes (legal s) scheduled ≡ true → steps s t ≤ steps scheduled t + 1)
      × (includes (legal s) publishing ≡ true → steps s t ≤ steps publishing t + 1)
  steps_facts =
      let row = for_all_sound _ (for_all_sound _ steps_table s) t in
      (λ h. ground arith, λ h. ground arith, λ h. ground arith)

steps_self : (s : PublishState) → steps s s ≡ 0
unfolding steps publish_path
steps_self draft = refl
steps_self _ = refl

steps-Route : {s t : PublishState} {p : List PublishState} → Route s t p → steps s t ≤ length p
steps-Route (stay {s}) = omega (arith, steps_self s)
steps-Route (last {s} {t} h) = (steps_facts s t).0 h
steps-Route (via_scheduled {s} {t} h r) = omega (arith, (steps_facts s t).1 h, steps-Route r)
steps-Route (via_publishing {s} {t} h r) = omega (arith, (steps_facts s t).2 h, steps-Route r)

pub same_sound : (s t : PublishState) → same s t ≡ true → s ≡ t
same_sound s t h = ground arith

is_route : PublishState → PublishState → List PublishState → Bool
is_route s t [] = same s t
is_route s t (x ∷ p) =
    includes (legal s) x && ((same x t && is_nil p) || (is_waypoint x && is_route x t p))

last-Route :
    (s t x : PublishState) (p : List PublishState)
    → includes (legal s) x ≡ true
    → same x t && is_nil p ≡ true
    → Route s t (x ∷ p)
last-Route s t x [] l h = let e = same_sound x t (ground arith) in rw (← e) (last l)
last-Route s t x (_ ∷ _) l h = absurd (ground arith)

is_route-Route : (s t : PublishState) (p : List PublishState) → is_route s t p ≡ true → Route s t p
unfolding is_route
is_route-Route s t [] h = rw (same_sound s t h) stay
is_route-Route s t (scheduled ∷ p) h = elim (Bool-cases (is_route scheduled t p)) [
  | inl more ↦ via_scheduled (ground arith) (is_route-Route scheduled t p more)
  | inr less ↦ last-Route s t scheduled p (ground arith) (ground arith)
]
is_route-Route s t (publishing ∷ p) h = elim (Bool-cases (is_route publishing t p)) [
  | inl more ↦ via_publishing (ground arith) (is_route-Route publishing t p more)
  | inr less ↦ last-Route s t publishing p (ground arith) (ground arith)
]
is_route-Route s t (x ∷ p) h = last-Route s t x p (ground arith) (ground arith)

is_found_route : PublishState → PublishState → Bool
is_found_route s t = elim (publish_path s t) [ none ↦ true | some p ↦ is_route s t p ]

routes_table : for_all (λ s. for_all (λ t. is_found_route s t)) ≡ true
unfolding is_found_route for_all publish_path is_route
routes_table = refl

found-Route : (s t : PublishState) (p : List PublishState) → publish_path s t ≡ some p → Route s t p
unfolding is_found_route
found-Route s t p h =
    let row = for_all_sound _ (for_all_sound _ routes_table s) t in
    is_route-Route s t p (ground arith)

reaches : PublishState → PublishState → Bool
reaches s t = is_some (publish_path s t)

reaches_table :
    for_all (λ s. for_all (λ t.
      (reaches s t || not (includes (legal s) t))
      && (reaches s t || not (includes (legal s) scheduled && reaches scheduled t))
      && (reaches s t || not (includes (legal s) publishing && reaches publishing t))))
    ≡ true
unfolding reaches for_all publish_path
reaches_table = refl

reaches_self : (s : PublishState) → reaches s s ≡ true
unfolding reaches publish_path
reaches_self draft = refl
reaches_self _ = refl

reaches_row :
    (s t : PublishState)
    → (reaches s t || not (includes (legal s) t))
        && (reaches s t || not (includes (legal s) scheduled && reaches scheduled t))
        && (reaches s t || not (includes (legal s) publishing && reaches publishing t))
      ≡ true
reaches_row s t = for_all_sound _ (for_all_sound _ reaches_table s) t

reaches-Route : {s t : PublishState} {p : List PublishState} → Route s t p → reaches s t ≡ true
reaches-Route (stay {s}) = reaches_self s
reaches-Route (last {s} {t} h) = ground (arith, reaches_row s t)
reaches-Route (via_scheduled {s} {t} h r) = ground (arith, reaches_row s t, reaches-Route r)
reaches-Route (via_publishing {s} {t} h r) = ground (arith, reaches_row s t, reaches-Route r)

-- The path that is found is a legal one through the two waypoints, no such path is shorter, and one
-- is found wherever there is such a path.
pub publish_path-shortest :
    (s t : PublishState) (q : List PublishState)
    → Route s t q
    → (p : List PublishState) × (publish_path s t ≡ some p) × Route s t p × (length p ≤ length q)
unfolding reaches steps
publish_path-shortest s t q r = elim (Option-cases (publish_path s t)) [
  | inl e ↦ absurd (ground (arith, reaches-Route r))
  | inr (p, e) ↦ (p, e, found-Route s t p e, ground (arith, steps-Route r))
]

search_ended : PublishState → PublishState → Bool
search_ended s t = elim (path_search s t) [ out_of_fuel ↦ false | _ ↦ true ]

ended_table : for_all (λ s. for_all (λ t. search_ended s t)) ≡ true
unfolding search_ended for_all path_search
ended_table = refl

-- The fuel of the search suffices, from every state to every state.
pub path_search-ends : (s t : PublishState) → path_search s t ≢ out_of_fuel
unfolding search_ended
path_search-ends s t h = let row = for_all_sound _ (for_all_sound _ ended_table s) t in ground arith

abbrev same_test : Bool → Bool → Bool
same_test a b = (a && b) || (not a && not b)

eq_of_test : (a b : Bool) → same_test a b ≡ true → a ≡ b
eq_of_test a b h = ground arith

guard_table :
    for_all
      (λ s. for_all (λ t. same_test (includes (legal s) t) (variant_guard s t && not (same s t))))
    ≡ true
unfolding variant_guard for_all
guard_table = refl

-- `LEGAL` admits exactly the transitions that the trigger on the table of variants admits.
pub legal-variant_guard :
    (s t : PublishState) → includes (legal s) t ≡ (variant_guard s t && not (same s t))
legal-variant_guard s t = eq_of_test _ _ (for_all_sound _ (for_all_sound _ guard_table s) t)
