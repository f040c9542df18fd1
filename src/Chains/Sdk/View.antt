-- ===== src/Chains/Sdk/View.antt =====
-- The interface `Nodes` of `chains/chain.go`, as a `ChainSDK` keeps it, and what it promises: it shows
-- what the nodes reported in one round. `WaitTillHeight` is in Sdk/Wait.
pub mod Latest
use bridge_common.Prelude.{
  ℕ, ◌+◌, ◌≡◌, Bool, List, [], ◌∷◌, Option, none, some, if◌then◌else◌, ltb, ◌==◌,
}
use bridge_common.Chains.Sdk.{Answer, ChainSdk, available, init, update_selection, select}
use bridge_common.Chains.Sdk.Polling.{reported}
use bridge_common.Chains.Sdk.Life.{Step, polls, selects, Reach, here, next}

-- Over the state `S` of an implementation.
pub record Nodes (S N : Type 0) : Type 0 where
  pub height : S → ℕ
  pub available : S → Bool
  pub node : S → Option N

-- `Height`, `Available` and `Node` of `ChainSDK`.
unfoldable pub chain_nodes : {N : Type 0} → Nodes (ChainSdk N) N
chain_nodes = record { height = λ s. s.height; available = available; node = λ s. s.sdk }

-- The specification: each node with what it reported in a round, 0 if it failed.
abbrev pub View : Type 0 → Type 0
View N = List (N × ℕ)

module _ {N : Type 0} where
  abbrev pub view_from : (ℕ → Answer) → ℕ → List N → View N
  view_from answer i [] = []
  view_from answer i (n ∷ ns) = (n, reported (answer i)) ∷ view_from answer (i + 1) ns

  abbrev pub greatest : View N → ℕ
  greatest [] = 0
  greatest ((n, h) ∷ v) = let m = greatest v in if ltb m h then h else m

  -- The first node that reported the height.
  abbrev pub first_at : ℕ → View N → Option N
  first_at m [] = none
  first_at m ((n, h) ∷ v) = let rest = first_at m v in if h == m then some n else rest

  -- The greatest height, and the first node that reported it; that is the first node of all if none
  -- reported a positive height.
  unfoldable pub view_nodes : Nodes (View N) N
  view_nodes = record {
    height = greatest;
    available = λ v. ltb 0 (greatest v);
    node = λ v. first_at (greatest v) v;
  }

  -- The implementation shows this view.
  pub record Shows {S : Type 0} (nodes : Nodes S N) (s : S) (v : View N) : Type 0 where
    pub height : nodes.height s ≡ view_nodes.height v
    pub available : nodes.available s ≡ view_nodes.available v
    pub node : nodes.node s ≡ view_nodes.node v

  -- What the nodes answered in the last round of a life.
  unfoldable pub last_round : {s t : ChainSdk N} → Reach s t → (ℕ → Answer) → ℕ → Answer
  last_round here first = first
  last_round (next r (polls answer s)) first = answer
  last_round (next r (selects s s' c e)) first = last_round r first
