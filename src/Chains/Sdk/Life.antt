-- ===== src/Chains/Sdk/Life.antt =====
-- The life of a `ChainSDK` of `chains/chain.go`: `NewChainSDK`, then rounds of `monitor` and calls
-- of `Select` in any order. The locks make each of these one step.
use bridge_common.Prelude.{
  ℕ, ◌<◌, ◌≡◌, refl, sym, ap, ◌∙◌, ◌⊎◌, inl, inr, true, List, ltb, some, ◌↔◌, subst, length,
  get_elem?, arith, length-map,
}
use bridge_common.Chains.Sdk.{
  Answer, ChainSdk, nothing_yet, update_selection, select, new_chain_sdk, init,
}
use bridge_common.Chains.Sdk.Selection.{update_selection_lem}
use bridge_common.Chains.Sdk.Polling.{reported, length-ping_all}
use bridge_common.Chains.Sdk.RoundRobin.{select_lem}

module _ {N : Type 0} where
  pub record IsValid (s : ChainSdk N) : Type 0 where
    pub flags : length s.state ≡ length s.nodes
    pub cursor_in : (s.cursor < length s.nodes) ⊎ (s.cursor ≡ 0)
    -- `s.nodes[s.Index()]`, which the chain packages use, is the node that `s.Node()` returns.
    pub node_at_index : s.sdk ≡ get_elem? s.nodes s.index
    pub up_or_down :
        (s.status ≡ 1) × (0 < s.height) × (s.index < length s.nodes)
        ⊎ (s.status ≡ 0) × (s.height ≡ 0) × (s.index ≡ 0)

  pub data Step : ChainSdk N → ChainSdk N → Type 0 where
    polls : (answer : ℕ → Answer) (s : ChainSdk N) → Step s (update_selection answer s)
    selects : (s s' : ChainSdk N) (c : ℕ) → select s ≡ some (c, s') → Step s s'

  pub data Reach (s : ChainSdk N) : ChainSdk N → Type 0 where
    here : Reach s s
    next : {t u : ChainSdk N} → Reach s t → Step t u → Reach s u

  -- What a round leaves alone.
  fixed : (answer : ℕ → Answer) (s : ChainSdk N) → (update_selection answer s).nodes ≡ s.nodes
  unfolding update_selection
  fixed answer s = refl

  length-state :
      (answer : ℕ → Answer) (s : ChainSdk N)
      → length (update_selection answer s).state ≡ length s.nodes
  unfolding update_selection
  length-state answer s = length-map _ _ ∙ length-ping_all answer 0 s.nodes nothing_yet

  cursor-update_selection :
      (answer : ℕ → Answer) (s : ChainSdk N) → (update_selection answer s).cursor ≡ s.cursor
  unfolding update_selection
  cursor-update_selection answer s = refl

  -- A round makes everything but the cursor valid, whatever the state before.
  pub update_selection-IsValid :
      (answer : ℕ → Answer) (s : ChainSdk N)
      → (s.cursor < length s.nodes) ⊎ (s.cursor ≡ 0)
      → IsValid (update_selection answer s)
  unfolding update_selection
  update_selection-IsValid answer s c = elim (update_selection_lem answer s) [
    | inl (up, w) ↦ record {
      flags = length-state answer s;
      cursor_in = c;
      node_at_index = w.node;
      up_or_down = inl (up, w.positive, w.in_range);
    }
    | inr (down, w) ↦ record {
      flags = length-state answer s;
      cursor_in = c;
      node_at_index = w.fallback ∙ ap (get_elem? s.nodes) (sym w.first_index);
      up_or_down = inr (down, w.no_height, w.first_index);
    }
  ]

  select-pos : (s : ChainSdk N) {r : ℕ × ChainSdk N} → select s ≡ some r → 0 < length s.nodes
  unfolding select
  select-pos s e = ground arith

  -- `Select` keeps all but the cursor, which it moves to the index that it returns.
  pub select-IsValid :
      (s s' : ChainSdk N) (c : ℕ) → select s ≡ some (c, s') → IsValid s → IsValid s'
  select-IsValid s s' c e v =
      let (c₀, found, w) = select_lem s (select-pos s e) v.flags in
      let same : record s { cursor = c₀ } ≡ s' = cc (sym found ∙ e) in
      subst IsValid same (record {
        flags = v.flags;
        cursor_in = inl (omega (arith, w.place, select-pos s e));
        node_at_index = v.node_at_index;
        up_or_down = v.up_or_down;
      })

  Step-IsValid : {s s' : ChainSdk N} → Step s s' → IsValid s → IsValid s'
  Step-IsValid (polls answer s) v = update_selection-IsValid answer s v.cursor_in
  Step-IsValid (selects s s' c e) v = select-IsValid s s' c e v

  Reach-IsValid : {s s' : ChainSdk N} → Reach s s' → IsValid s → IsValid s'
  Reach-IsValid here v = v
  Reach-IsValid (next r st) v = Step-IsValid st (Reach-IsValid r v)

  select-nodes : (s s' : ChainSdk N) (c : ℕ) → select s ≡ some (c, s') → s'.nodes ≡ s.nodes
  unfolding select
  select-nodes s s' c e = ground arith

  Step-nodes : {s s' : ChainSdk N} → Step s s' → s'.nodes ≡ s.nodes
  Step-nodes (polls answer s) = fixed answer s
  Step-nodes (selects s s' c e) = select-nodes s s' c e

  pub Reach-nodes : {s s' : ChainSdk N} → Reach s s' → s'.nodes ≡ s.nodes
  Reach-nodes here = refl
  Reach-nodes (next r st) = Step-nodes st ∙ Reach-nodes r

  new-cursor :
      (chain_id : ℕ) (nodes : List N) (interval max_gap : ℕ)
      → (new_chain_sdk chain_id nodes interval max_gap).cursor ≡ 0
  unfolding new_chain_sdk
  new-cursor chain_id nodes interval max_gap = refl

  -- Whatever the nodes answer, and in whatever order rounds and calls of `Select` follow
  -- `NewChainSDK`: there is a flag for each node, the cursor is in range, the node that `Node`
  -- returns is the one at `Index`, and the status tells whether a node reported a height.
  pub Reach-new_chain_sdk :
      (chain_id : ℕ) (nodes : List N) (interval max_gap : ℕ) (answer : ℕ → Answer) (s : ChainSdk N)
      → Reach (init answer (new_chain_sdk chain_id nodes interval max_gap)).0 s
      → IsValid s
  unfolding init
  Reach-new_chain_sdk chain_id nodes interval max_gap answer s r =
      Reach-IsValid r
        (update_selection-IsValid answer _ (inr (new-cursor chain_id nodes interval max_gap)))

  -- `NewChainSDK` reports no error exactly when some node reported a positive height.
  pub init_ok :
      (answer : ℕ → Answer) (s : ChainSdk N)
      → ((init answer s).1 ≡ true) ↔ ((k : ℕ) × (k < length s.nodes) × (0 < reported (answer k)))
  unfolding init update_selection
  init_ok answer s = elim (update_selection_lem answer s) [
    | inl (up, w) ↦ (
      (λ h. (_, w.in_range, omega (arith, w.positive, ap reported w.reports))),
      (λ h. ap (λ (k : ℕ). ltb 0 k) up),
    )
    | inr (off, w) ↦ (
      (λ h. cc (sym (ap (λ (k : ℕ). ltb 0 k) off) ∙ h)),
      (λ h. absurd (omega (arith, w.silent h.0 h.1, h.2))),
    )
  ]
