-- ===== src/Runtime/RateLimit.antt =====
-- lib/security/rate-limit.ts: a limiter of fixed windows, by key. The `Map` is a list of its entries
-- in the order of insertion; a key has one entry at most. The clock is an argument, and never goes
-- back.
pub mod Laws
use zernflow.Base.{
  ℕ, ◌+◌, ◌-◌, ◌≤◌, Bool, true, false, not, Option, none, some, List, [], ◌∷◌, ◌++◌, if◌then◌else◌,
  leb, length, filter,
}
use zernflow.Base.Json.{Text, text_eq}

pub record Window : Type 0 where
  pub key : Text
  pub start : ℕ
  pub count : ℕ

pub record Limiter : Type 0 where
  pub limit : ℕ
  pub window_ms : ℕ
  pub max_keys : ℕ
  pub windows : List Window

-- `this.windows.get(key)`
unfoldable pub lookup : Text → List Window → Option Window
lookup key [] = none
lookup key (w ∷ ws) = if text_eq w.key key then some w else lookup key ws

-- `this.windows.set(key, …)`, at its place if the key is there.
unfoldable pub set : Window → List Window → List Window
set v [] = v ∷ []
set v (w ∷ ws) = let rest = set v ws in if text_eq w.key v.key then v ∷ ws else w ∷ rest

abbrev pub is_over : ℕ → ℕ → Window → Bool
is_over window_ms now w = leb window_ms (now - w.start)

unfoldable pub prune : ℕ → Limiter → Limiter
prune now l =
    let kept = filter (λ w. not (is_over l.window_ms now w)) l.windows in
    if leb l.max_keys (length kept) then record l { windows = [] } else record l { windows = kept }

-- `if (this.windows.size >= this.maxKeys) this.prune(now)`
unfoldable pub make_room : ℕ → Limiter → Limiter
make_room now l = if leb l.max_keys (length l.windows) then prune now l else l

unfoldable pub open_window : Text → ℕ → Limiter → Limiter × ℕ
open_window key now l =
    let pruned = make_room now l in
    (
      record pruned { windows = set (record { key = key; start = now; count = 1 }) pruned.windows },
      0,
    )

-- The milliseconds to wait, 0 when the call is allowed. The count changes the entry itself.
unfoldable pub take : Text → ℕ → Limiter → Limiter × ℕ
take key now l = elim (lookup key l.windows) [
  | none ↦ open_window key now l
  | some w ↦
      if is_over l.window_ms now w
      then open_window key now l
      else if leb l.limit w.count
      then (l, l.window_ms - (now - w.start))
      else (record l { windows = set (record w { count = w.count + 1 }) l.windows }, 0)
]
