-- ===== src/Runtime/RateLimit/Laws.antt =====
-- What the limiter promises.
use zernflow.Base.{
  ℕ, suc, ◌+◌, ◌-◌, ◌≤◌, ◌<◌, ◌≡◌, refl, sym, Bool, true, false, ◌∙◌, ◌&&◌, ◌==◌, some, List, [],
  ◌∷◌, arith, leb, length, filter, All, Bool-cases, Option-cases, ◌⊎◌, inl, inr, if◌then◌else◌,
}
use mathlib.Core.Path.{subst}
use zernflow.Base.Json.{Text, text_eq, text_eq_refl, text_eq-eq}
use zernflow.Runtime.RateLimit.{
  Window, Limiter, lookup, set, is_over, prune, make_room, open_window, take,
}

length-filter-le : (p : Window → Bool) (ws : List Window) → length (filter p ws) ≤ length ws
length-filter-le p [] = omega arith
length-filter-le p (w ∷ ws) = let rest = length-filter-le p ws in ground arith

length-set : (v : Window) (ws : List Window) → length (set v ws) ≤ length ws + 1
unfolding set
length-set v [] = omega arith
length-set v (w ∷ ws) = let rest = length-set v ws in ground arith

length-set-found :
    (v w : Window) (ws : List Window) → lookup v.key ws ≡ some w → length (set v ws) ≡ length ws
unfolding set lookup
length-set-found v w [] e = absurd (ground arith)
length-set-found v w (x ∷ ws) e = elim (Bool-cases (text_eq x.key v.key)) [
  | inl hit ↦ rw hit refl
  | inr miss ↦ let rest = length-set-found v w ws (ground arith) in rw miss (omega (arith, rest))
]

lookup-key :
    (key : Text) (w : Window) (ws : List Window) → lookup key ws ≡ some w → text_eq w.key key ≡ true
unfolding lookup
lookup-key key w [] e = absurd (ground arith)
lookup-key key w (x ∷ ws) e = elim (Bool-cases (text_eq x.key key)) [
  | inl hit ↦ let same : x ≡ w = ground arith in rw (← same) hit
  | inr miss ↦ lookup-key key w ws (ground arith)
]

lookup-set : (v : Window) (ws : List Window) → lookup v.key (set v ws) ≡ some v
unfolding lookup set
lookup-set v [] = rw (text_eq_refl v.key) refl
lookup-set v (w ∷ ws) = elim (Bool-cases (text_eq w.key v.key)) [
  | inl hit ↦ rw (hit, text_eq_refl v.key) refl
  | inr miss ↦ rw (miss, miss) (lookup-set v ws)
]

-- The windows are no more than the limiter keeps.
abbrev pub IsSmall : Limiter → Type 0
IsSmall l = length l.windows ≤ l.max_keys

make_room-room :
    (now : ℕ) (l : Limiter)
    → 0 < l.max_keys
    → (length (make_room now l).windows < l.max_keys) × ((make_room now l).max_keys ≡ l.max_keys)
unfolding make_room prune
make_room-room now l h = (ground arith, ground arith)

open_window-IsSmall :
    (key : Text) (now : ℕ) (l : Limiter) → 0 < l.max_keys → IsSmall (open_window key now l).0
unfolding open_window
open_window-IsSmall key now l h =
    let room = make_room-room now l h in
    omega (
      arith,
      room.0,
      room.1,
      length-set (record { key = key; start = now; count = 1 }) (make_room now l).windows,
    )

-- What a call does: it opens a window, is refused, or is counted.
pub data Taken (key : Text) (now : ℕ) (l : Limiter) : Type 0 where
  opened :
      ((w : Window) → lookup key l.windows ≡ some w → l.window_ms ≤ now - w.start)
      → take key now l ≡ open_window key now l
      → Taken key now l
  refused :
      (w : Window)
      → lookup key l.windows ≡ some w
      → now - w.start < l.window_ms
      → l.limit ≤ w.count
      → take key now l ≡ (l, l.window_ms - (now - w.start))
      → Taken key now l
  counted :
      (w : Window)
      → lookup key l.windows ≡ some w
      → now - w.start < l.window_ms
      → w.count < l.limit
      → take key now l
        ≡ (record l { windows = set (record w { count = w.count + 1 }) l.windows }, 0)
      → Taken key now l

pub taken : (key : Text) (now : ℕ) (l : Limiter) → Taken key now l
unfolding take
taken key now l = elim (Option-cases (lookup key l.windows)) [
  | inl none' ↦ opened (λ v e. absurd (ground arith)) (rw (none', take) refl)
  | inr (w, some') ↦ elim (Bool-cases (is_over l.window_ms now w)) [
    | inl over ↦
        opened
          (λ v e.
            let same : w ≡ v = ground arith in
            subst (λ x. l.window_ms ≤ now - x.start) same (ground arith))
          (rw (some', over, take) refl)
    | inr within ↦ elim (Bool-cases (leb l.limit w.count)) [
      | inl full ↦
          refused w some' (ground arith) (ground arith) (rw (some', within, full, take) refl)
      | inr room ↦
          counted w some' (ground arith) (ground arith) (rw (some', within, room, take) refl)
    ]
  ]
]

counted-IsSmall :
    (key : Text) (l : Limiter) (w : Window)
    → lookup key l.windows ≡ some w
    → IsSmall l
    → IsSmall (record l { windows = set (record w { count = w.count + 1 }) l.windows })
counted-IsSmall key l w e k =
    let same = text_eq-eq w.key key (lookup-key key w l.windows e) in
    omega (
      arith,
      k,
      length-set-found (record w { count = w.count + 1 }) w l.windows
          (subst (λ x. lookup x l.windows ≡ some w) (sym same) e),
    )

-- A limiter that may keep a window keeps no more windows than it may, a call waits no longer than a
-- window, and a call that is refused changes nothing.
pub take-IsSmall :
    (key : Text) (now : ℕ) (l : Limiter)
    → 0 < l.max_keys
    → IsSmall l
    → IsSmall (take key now l).0
      × ((take key now l).1 ≤ l.window_ms)
      × (((take key now l).1 ≡ 0) ⊎ ((take key now l).0 ≡ l))
unfolding open_window
take-IsSmall key now l h k = elim (taken key now l) [
  | opened late e ↦ rw e (open_window-IsSmall key now l h, omega arith, inl refl)
  | refused w found within full e ↦ rw e (k, omega arith, inr refl)
  | counted w found within room e ↦ rw e (counted-IsSmall key l w found k, omega arith, inl refl)
]

lookup-set-other :
    (key : Text) (v : Window) (ws : List Window)
    → text_eq v.key key ≡ false
    → lookup key (set v ws) ≡ lookup key ws
unfolding lookup set
lookup-set-other key v [] other = rw other refl
lookup-set-other key v (w ∷ ws) other = elim (Bool-cases (text_eq w.key v.key)) [
  | inl hit ↦
      let same = text_eq-eq w.key v.key hit in
      let w_other : text_eq w.key key ≡ false = rw same other in rw (hit, other, w_other) refl
  | inr miss ↦ elim (Bool-cases (text_eq w.key key)) [
    | inl here ↦ rw (miss, here) refl
    | inr gone ↦ rw (miss, gone) (lookup-set-other key v ws other)
  ]
]

-- What a call of another key leaves of the window of a key, while there is room for one more.
record Spares (key : Text) (l l' : Limiter) : Type 0 where
  found : lookup key l'.windows ≡ lookup key l.windows
  grown : length l'.windows ≤ length l.windows + 1
  same_limit : l'.limit ≡ l.limit
  same_ms : l'.window_ms ≡ l.window_ms
  same_max : l'.max_keys ≡ l.max_keys

set-Spares :
    (key : Text) (v : Window) (l : Limiter)
    → text_eq v.key key ≡ false
    → Spares key l (record l { windows = set v l.windows })
set-Spares key v l other = record {
  found = lookup-set-other key v l.windows other;
  grown = length-set v l.windows;
  same_limit = refl;
  same_ms = refl;
  same_max = refl;
}

take-Spares :
    (key other : Text) (now : ℕ) (l : Limiter)
    → text_eq other key ≡ false
    → length l.windows < l.max_keys
    → Spares key l (take other now l).0
unfolding open_window make_room
take-Spares key other now l differs room = elim (taken other now l) [
  | opened late e ↦
      let no_prune : leb l.max_keys (length l.windows) ≡ false = ground arith in
      rw (e, no_prune) (set-Spares key (record { key = other; start = now; count = 1 }) l differs)
  | refused w found within full e ↦ rw e (record {
    found = refl;
    grown = omega arith;
    same_limit = refl;
    same_ms = refl;
    same_max = refl;
  })
  | counted w found within below e ↦
      let named = text_eq-eq w.key other (lookup-key other w l.windows found) in
      let w_differs : text_eq w.key key ≡ false = rw named differs in
      rw e (set-Spares key (record w { count = w.count + 1 }) l w_differs)
]

-- The calls of a key that are allowed, among calls of any keys at their instants.
unfoldable pub allowed : Text → List (Text × ℕ) → Limiter → ℕ
allowed key [] l = 0
allowed key ((k, now) ∷ later) l =
    let rest = allowed key later (take k now l).0 in
    if text_eq k key && (take k now l).1 == 0 then suc rest else rest

-- Any calls while the window of a key lasts, at instants before its end, of this and of other keys,
-- as long as the limiter has room for a window for each of them: the calls of the key that were
-- counted when they start and those that are allowed then are no more than the limit, if no more
-- than the limit were counted.
pub allowed-limit :
    (key : Text) (calls : List (Text × ℕ)) (l : Limiter) (w : Window)
    → lookup key l.windows ≡ some w
    → w.count ≤ l.limit
    → All (λ call. call.1 < w.start + l.window_ms) calls
    → length l.windows + length calls ≤ l.max_keys
    → 0 < l.window_ms
    → w.count + allowed key calls l ≤ l.limit
unfolding allowed
allowed-limit key [] l w e h k room p = omega (arith, h)
allowed-limit key ((other, now) ∷ later) l w e h k room p = elim (Bool-cases (text_eq other key)) [
  | inr differs ↦
      let spared = take-Spares key other now l differs (omega (arith, room)) in
      let l' = (take other now l).0 in
      let rest =
        allowed-limit key later l' w (spared.found ∙ e) (rw spared.same_limit h)
          (rw spared.same_ms k.1) (rw spared.same_max (omega (arith, room, spared.grown)))
          (rw spared.same_ms p) in
      rw differs (omega (arith, rest, spared.same_limit))
  | inl is_key ↦
      rw (text_eq-eq other key is_key, text_eq_refl key)
        (elim (taken key now l) [
          | opened late o ↦ absurd (omega (arith, late w e, k.0, p))
          | refused v found within full o ↦
              let same : v ≡ w = ground arith in
              let rest = allowed-limit key later l w e h k.1 (omega (arith, room)) p in
              rw o (ground arith)
          | counted v found within below o ↦
              let same : v ≡ w = ground arith in
              let u : Window = record w { count = w.count + 1 } in
              let named = text_eq-eq w.key key (lookup-key key w l.windows e) in
              let l' : Limiter = record l { windows = set u l.windows } in
              let there : lookup key l'.windows ≡ some u =
                subst (λ x. lookup x l'.windows ≡ some u) named (lookup-set u l.windows) in
              let under : w.count < l.limit = subst (λ x. x.count < l.limit) same below in
              let size =
                length-set-found u w l.windows
                  (subst (λ x. lookup x l.windows ≡ some w) (sym named) e) in
              let rest =
                allowed-limit key later l' u there (omega (arith, under)) k.1
                  (omega (arith, room, size)) p in
              let o' : take key now l ≡ (l', 0) =
                subst
                  (λ x.
                    take key now l
                    ≡ (record l { windows = set (record x { count = x.count + 1 }) l.windows }, 0))
                  same o in
              rw o' (omega (arith, rest))
        ])
]
