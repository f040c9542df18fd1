-- ===== src/Chains/Sdk.antt =====
-- `chains/chain.go`: the SDK that watches the nodes of one chain, picks the highest one and hands
-- out eligible ones round robin. A round of polling is an argument: `answer i` is what
-- `nodes[i].GetLatestHeight()` returns in that round.
pub mod Polling
pub mod Selection
pub mod RoundRobin
pub mod Life
pub mod Race
pub mod Fairness
pub mod Wait
pub mod View
use bridge_common.Prelude.{
  ℕ, zero, suc, ◌+◌, ◌%◌, Bool, true, false, List, [], ◌∷◌, map, Option, none, some, length,
  get_elem?, replicate, if◌then◌else◌, ltb, leb, ◌==◌, sub64,
}

-- What `GetLatestHeight` returns: a height, or a value beside an error.
pub data Answer : Type 0 where
  height : ℕ → Answer
  failed : ℕ → Answer

module _ (N : Type 0) where
  -- `N` is the type of the node clients, the interface `SDK` of the source.
  pub record ChainSdk : Type 0 where
    pub sdk : Option N
    pub chain_id : ℕ
    pub nodes : List N
    pub state : List Bool
    pub index : ℕ
    pub cursor : ℕ
    pub status : ℕ
    pub height : ℕ
    pub interval : ℕ
    pub max_gap : ℕ

  -- The locals `height`, `sdk` and `index` of `updateSelection`.
  pub record Best : Type 0 where
    pub height : ℕ
    pub sdk : Option N
    pub index : ℕ

-- The loop of `Select`, entered with `s.cursor` at `cursor`; `none` is a read out of range, or the
-- end of the fuel.
unfoldable pub seek : ℕ → List Bool → ℕ → ℕ → ℕ → Option ℕ
seek zero state len start cursor = none
seek (suc fuel) state len start cursor =
    let c = cursor % len in
    let rest = seek fuel state len start (cursor + 1) in
    if c == start
    then some c
    else elim (get_elem? state c) [ none ↦ none | some true ↦ some c | some false ↦ rest ]

module _ {N : Type 0} where
  abbrev pub nothing_yet : Best N
  nothing_yet = record { height = 0; sdk = none; index = 0 }

  -- One round of the polling loop: the new best node, and the entry of `state`.
  unfoldable pub ping : Answer → N → ℕ → Best N → Best N × ℕ
  ping (failed v) n i b = (b, 0)
  ping (height h) n i b =
      (if ltb b.height h then record { height = h; sdk = some n; index = i } else b, h)

  unfoldable pub ping_all : (ℕ → Answer) → ℕ → List N → Best N → Best N × List ℕ
  ping_all answer i [] b = (b, [])
  ping_all answer i (n ∷ ns) b =
      let (b', h) = ping (answer i) n i b in
      let (b'', hs) = ping_all answer (i + 1) ns b' in (b'', h ∷ hs)

  -- What `updateSelection` does under the lock. `state` has one flag for each node, so the last loop
  -- rewrites the whole of it.
  unfoldable pub apply_selection : ChainSdk N → Best N → List ℕ → ChainSdk N
  apply_selection s best heights = record s {
    sdk = elim best.sdk [ some n ↦ some n | none ↦ get_elem? s.nodes 0 ];
    status = elim best.sdk [ some n ↦ 1 | none ↦ 0 ];
    height = best.height;
    index = best.index;
    state = map (λ h. leb (sub64 best.height s.max_gap) h) heights;
  }

  unfoldable pub update_selection : (ℕ → Answer) → ChainSdk N → ChainSdk N
  unfolding apply_selection
  update_selection answer s =
      let (best, heights) = ping_all answer 0 s.nodes nothing_yet in apply_selection s best heights

  unfoldable pub available : ChainSdk N → Bool
  available s = ltb 0 s.status

  -- `none` is the panic of `% 0`, when there are no nodes. The number of nodes is fuel enough.
  unfoldable pub select : ChainSdk N → Option (ℕ × ChainSdk N)
  select s =
      let len = length s.nodes in
      if len == 0 then none else elim (seek len s.state len (s.cursor % len) (s.cursor + 1)) [
        | none ↦ none
        | some c ↦ some (c, record s { cursor = c })
      ]

  unfoldable pub new_chain_sdk : ℕ → List N → ℕ → ℕ → ChainSdk N
  new_chain_sdk chain_id nodes interval max_gap = record {
    sdk = none;
    chain_id = chain_id;
    nodes = nodes;
    state = replicate (length nodes) false;
    index = 0;
    cursor = 0;
    status = 0;
    height = 0;
    interval = interval;
    max_gap = max_gap;
  }

  -- `Init`: the state after the first round, and whether it returns no error.
  unfoldable pub init : (ℕ → Answer) → ChainSdk N → ChainSdk N × Bool
  unfolding available
  init answer s = let s' = update_selection answer s in (s', available s')

  -- `New`, with the URLs and the function that makes a node of one: the SDK, and whether no error is
  -- returned. Beside an error the SDK is returned too.
  unfoldable pub new :
      {U : Type 0} → (ℕ → Answer) → ℕ → List U → ℕ → ℕ → (U → N) → ChainSdk N × Bool
  unfolding init new_chain_sdk
  new answer chain_id urls interval max_gap f =
      init answer (new_chain_sdk chain_id (map f urls) interval max_gap)
