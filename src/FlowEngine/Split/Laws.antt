-- ===== src/FlowEngine/Split/Laws.antt =====
-- The share of the weights that a path of a split has.
use zernflow.Base.{
  ℕ, ◌+◌, ◌*◌, ◌≤◌, ◌<◌, ◌≡◌, refl, sym, ◌∙◌, ◌⊎◌, inl, inr, some, List, [], ◌∷◌, ◌++◌, arith, leb,
  Bool-cases, leb→le,
}
use mathlib.Core.List.{append_assoc}
use zernflow.FlowEngine.Types.{SplitPath}
use zernflow.FlowEngine.Split.{sum_weights, select_path, split}

-- The paths around one, where the random number lies in its share of the weights.
pub record IsShare (r d : ℕ) (paths : List SplitPath) (p : SplitPath) : Type 0 where
  pub before : List SplitPath
  pub after : List SplitPath
  pub parts : paths ≡ before ++ p ∷ after
  pub within : r * sum_weights 0 paths ≤ sum_weights 0 (before ++ p ∷ []) * d
  pub beyond : (before ≡ []) ⊎ (sum_weights 0 before * d < r * sum_weights 0 paths)

sum_weights-append :
    (s : ℕ) (ps qs : List SplitPath) → sum_weights s (ps ++ qs) ≡ sum_weights (sum_weights s ps) qs
sum_weights-append s [] qs = refl
sum_weights-append s (p ∷ ps) qs = sum_weights-append (s + p.weight) ps qs

-- The cumulative weight behind one more path.
sum_weights-snoc :
    (ps : List SplitPath) (p : SplitPath)
    → sum_weights 0 (ps ++ p ∷ []) ≡ sum_weights 0 ps + p.weight
sum_weights-snoc ps p = sum_weights-append 0 ps (p ∷ [])

mul_share : (r d total : ℕ) → r ≤ d → r * total ≤ total * d
mul_share r d total h = grind arith

module _ (r d : ℕ) (paths : List SplitPath) where
  select_path-IsShare :
      (before ps : List SplitPath) {p : SplitPath}
      → paths ≡ before ++ ps
      → (before ≡ []) ⊎ (sum_weights 0 before * d < r * sum_weights 0 paths)
      → select_path r d (sum_weights 0 paths) (sum_weights 0 before) ps ≡ some p
      → IsShare r d paths p
  unfolding select_path
  select_path-IsShare before [] parts beyond e = cc
  select_path-IsShare before (q ∷ qs) {p} parts beyond e =
      elim (Bool-cases (leb (r * sum_weights 0 paths) ((sum_weights 0 before + q.weight) * d))) [
        | inl fits ↦
            let same : q ≡ p = ground arith in
            record {
              before = before;
              after = qs;
              parts = rw (← same) parts;
              within = rw (← same) (rw (sum_weights-snoc before q) (leb→le _ _ fits));
              beyond = beyond;
            }
        | inr past ↦
            select_path-IsShare (before ++ q ∷ []) qs
              (parts ∙ sym (append_assoc before (q ∷ []) qs))
              (inr (rw (sum_weights-snoc before q) (ground arith)))
              (rw (sum_weights-snoc before q) (ground arith))
      ]

  select_path-selects :
      (q : SplitPath) (cumulative : ℕ) (qs : List SplitPath)
      → r * sum_weights 0 paths ≤ sum_weights cumulative (q ∷ qs) * d
      → (p : SplitPath) × (select_path r d (sum_weights 0 paths) cumulative (q ∷ qs) ≡ some p)
  unfolding select_path
  select_path-selects q cumulative [] h = (q, ground arith)
  select_path-selects q cumulative (q' ∷ qs) h =
      elim (Bool-cases (leb (r * sum_weights 0 paths) ((cumulative + q.weight) * d))) [
        | inl fits ↦ (q, rw fits)
        | inr past ↦ rw past (select_path-selects q' (cumulative + q.weight) qs h)
      ]

-- For every random number that is at most one and every node with a path: a path is taken, the
-- random share of the total weight is at most the weights up to it, and, unless it is the first
-- one, more than the weights before it.
pub split-IsShare :
    (r d : ℕ) (q : SplitPath) (qs : List SplitPath)
    → r ≤ d
    → (p : SplitPath) × (split r d (q ∷ qs) ≡ some p) × IsShare r d (q ∷ qs) p
unfolding split
split-IsShare r d q qs h =
    let total = sum_weights 0 (q ∷ qs) in
    let (p, e) = select_path-selects r d (q ∷ qs) q 0 qs (mul_share r d total h) in
    (p, rw e, select_path-IsShare r d (q ∷ qs) [] (q ∷ qs) refl (inl refl) e)
