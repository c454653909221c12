-- ===== src/Publishing/State.antt =====
-- The publish states of a variant: `PublishState` of lib/product/types.ts, `LEGAL` and
-- `publishPath` of lib/publishing/engine.ts, `summarizePublishState` of lib/publishing/compose.ts.
pub mod Paths
pub mod Summary
use zernflow.Base.{
  ℕ, zero, suc, ◌+◌, Bool, true, false, ◌&&◌, ◌||◌, Option, none, some, List, [], ◌∷◌, ◌++◌,
  if◌then◌else◌, ◌==◌, any, all,
}

pub data PublishState : Type 0 where
  draft scheduled queued publishing published failed cancelled : PublishState

abbrev pub state_number : PublishState → ℕ
state_number draft = 0
state_number scheduled = 1
state_number queued = 2
state_number publishing = 3
state_number published = 4
state_number failed = 5
state_number cancelled = 6

-- `===` on states, `includes` and `Set.has` on lists of them.
abbrev pub same : PublishState → PublishState → Bool
same s t = state_number s == state_number t

abbrev pub includes : List PublishState → PublishState → Bool
includes states s = any (same s) states

abbrev pub legal : PublishState → List PublishState
legal draft = scheduled ∷ []
legal scheduled = draft ∷ queued ∷ publishing ∷ cancelled ∷ failed ∷ []
legal queued = draft ∷ publishing ∷ cancelled ∷ failed ∷ []
legal publishing = published ∷ failed ∷ queued ∷ cancelled ∷ []
legal published = []
legal failed = draft ∷ scheduled ∷ cancelled ∷ []
legal cancelled = draft ∷ scheduled ∷ []

-- The transitions of `variant_publish_guard` (supabase/migrations/00033_campaigns_publishing.sql);
-- an update that leaves the state alone is not checked.
unfoldable pub variant_guard : PublishState → PublishState → Bool
variant_guard old new = if same new old then true else elim old [
  | draft ↦ same new scheduled
  | scheduled ↦
      same new draft
      || same new queued
      || same new publishing
      || same new cancelled
      || same new failed
  | queued ↦ same new draft || same new publishing || same new cancelled || same new failed
  | publishing ↦ same new published || same new failed || same new queued || same new cancelled
  | failed ↦ same new draft || same new scheduled || same new cancelled
  | cancelled ↦ same new draft || same new scheduled
  | published ↦ false
]

-- An entry of the queue: a state and the path to it.
abbrev pub Entry : Type 0
Entry = PublishState × List PublishState

abbrev pub is_waypoint : PublishState → Bool
is_waypoint s = same s scheduled || same s publishing

-- The loop over `LEGAL[s]`: the path to the goal, or the states seen and the entries to append.
pub data Scan : Type 0 where
  reached : List PublishState → Scan
  grown : List PublishState → List Entry → Scan

scan : PublishState → List PublishState → List PublishState → List PublishState → List Entry → Scan
scan to path [] seen added = grown seen added
scan to path (n ∷ ns) seen added =
    let next = path ++ n ∷ [] in
    let skipped = scan to path ns seen added in
    let pushed = scan to path ns (n ∷ seen) (added ++ (n, next) ∷ []) in
    if includes seen n
    then skipped
    else if same n to
    then reached next
    else if is_waypoint n
    then pushed
    else skipped

-- `while (queue.length)`, on fuel.
pub data Search : Type 0 where
  path_found : List PublishState → Search
  no_path : Search
  out_of_fuel : Search

search_path : ℕ → PublishState → List Entry → List PublishState → Search
search_path zero to queue seen = out_of_fuel
search_path (suc fuel) to [] seen = no_path
search_path (suc fuel) to ((s, path) ∷ queue) seen = elim (scan to path (legal s) seen []) [
  | reached found ↦ path_found found
  | grown seen' added ↦ search_path fuel to (queue ++ added) seen'
]

abbrev pub found : Search → Option (List PublishState)
found (path_found path) = some path
found no_path = none
found out_of_fuel = none

-- Besides `from` only the two waypoints enter the queue, each once: four turns are enough.
abbrev pub path_fuel : ℕ
path_fuel = 4

unfoldable pub path_search : PublishState → PublishState → Search
unfolding scan search_path
path_search from to = search_path path_fuel to ((from, []) ∷ []) (from ∷ [])

unfoldable pub publish_path : PublishState → PublishState → Option (List PublishState)
unfolding path_search
publish_path from to = if same from to then some [] else found (path_search from to)

pub data ContentSummary : Type 0 where
  of_state : PublishState → ContentSummary
  partially_published : ContentSummary

unfoldable pub summarize_publish_state : List PublishState → ContentSummary
summarize_publish_state [] = of_state draft
summarize_publish_state (first ∷ rest) =
    let states = first ∷ rest in
    let every = λ (s : PublishState). all (λ x. same x s) states in
    let settled = all (λ s. same s published || same s failed || same s cancelled) states in
    if every published
    then of_state published
    else if includes states published && settled
    then partially_published
    else if includes states publishing
    then of_state publishing
    else if includes states queued
    then of_state queued
    else if includes states scheduled
    then of_state scheduled
    else if every failed
    then of_state failed
    else if every cancelled
    then of_state cancelled
    else if includes states published
    then partially_published
    else if includes states failed
    then of_state failed
    else of_state draft
