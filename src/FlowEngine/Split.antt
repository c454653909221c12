-- ===== src/FlowEngine/Split.antt =====
-- The split of the visitors: `executeABSplit` of lib/flow-engine/engine.ts and the case `abSplit` of
-- simulator.ts. A random number is a fraction `r / d` of naturals; the weights are whole.
pub mod Laws
use zernflow.Base.{ℕ, ◌+◌, ◌*◌, Option, none, some, List, [], ◌∷◌, if◌then◌else◌, leb}
use zernflow.FlowEngine.Types.{SplitPath}

-- `data.paths.reduce((sum, p) => sum + p.weight, 0)`
abbrev pub sum_weights : ℕ → List SplitPath → ℕ
sum_weights sum [] = sum
sum_weights sum (p ∷ ps) = sum_weights (sum + p.weight) ps

-- The first path whose cumulative weight is not less than `r / d * total`.
unfoldable pub select_path : ℕ → ℕ → ℕ → ℕ → List SplitPath → Option SplitPath
select_path r d total cumulative [] = none
select_path r d total cumulative (p ∷ ps) =
    let rest = select_path r d total (cumulative + p.weight) ps in
    if leb (r * total) ((cumulative + p.weight) * d) then some p else rest

-- `paths[0]` where none is selected; a node without paths has no first one.
abbrev pub or_first : Option SplitPath → List SplitPath → Option SplitPath
or_first (some p) ps = some p
or_first none [] = none
or_first none (p ∷ ps) = some p

unfoldable pub split : ℕ → ℕ → List SplitPath → Option SplitPath
unfolding select_path
split r d paths = or_first (select_path r d (sum_weights 0 paths) 0 paths) paths
