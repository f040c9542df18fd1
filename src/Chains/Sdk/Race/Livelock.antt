-- ===== src/Chains/Sdk/Race/Livelock.antt =====
-- Two calls of `Select` that keep each other from returning, although there are eligible nodes, and
-- `updateSelection` from its lock.
use bridge_common.Prelude.{◌≡◌, Bool, true, false, List, [], ◌∷◌}
use bridge_common.Chains.Sdk.Race.{entered}
use bridge_common.Chains.Sdk.Race.Locked.{Shared}

-- Of four nodes the second and the fourth.
abbrev pub half_eligible : List Bool
half_eligible = false ∷ true ∷ false ∷ true ∷ []

-- The first two calls are both before `s.cursor++`, and began at the fourth node.
-- The writer waits.
pub record BothLoop (s : Shared) : Type 0 where
  pub first : s.pc 0 ≡ entered 3
  pub second : s.pc 1 ≡ entered 3
  pub starved : s.waiting ≡ true
  pub stale : s.flags ≡ half_eligible
