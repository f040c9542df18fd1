-- ===== src/Chains/Sdk/Selection.antt =====
-- `updateSelection` of `chains/chain.go`: which node a round of polling selects.
use bridge_common.Prelude.{
  ℕ, ◌+◌, ◌≤◌, ◌<◌, ◌≡◌, sym, ap, ◌∙◌, ◌⊎◌, inl, inr, true, false, List, some, length, get_elem?,
  get_or, leb, arith, sub64, get_elem?_of_lt, get_or-map, ◌^◌, ◌↔◌,
}
use bridge_common.Chains.Sdk.{
  Answer, ChainSdk, Best, nothing_yet, ping_all, apply_selection, update_selection,
}
use bridge_common.Chains.Sdk.Polling.{
  reported, length-ping_all, ping_all-reported, ping_all-ge, IsFirstBest, ping_all-IsFirstBest,
}

module _ {N : Type 0} (answer : ℕ → Answer) where
  -- The selected node is the first of those that report the greatest height.
  pub record IsSelected (s : ChainSdk N) : Type 0 where
    pub in_range : s.index < length s.nodes
    pub node : s.sdk ≡ get_elem? s.nodes s.index
    pub reports : answer s.index ≡ Answer.height s.height
    pub positive : 0 < s.height
    pub highest : (k : ℕ) → k < length s.nodes → reported (answer k) ≤ s.height
    pub first : (k : ℕ) → k < s.index → reported (answer k) < s.height

  -- No node reports a height; the first one, if there is any, stands in.
  pub record IsDown (s : ChainSdk N) : Type 0 where
    pub silent : (k : ℕ) → k < length s.nodes → reported (answer k) ≡ 0
    pub no_height : s.height ≡ 0
    pub first_index : s.index ≡ 0
    pub fallback : s.sdk ≡ get_elem? s.nodes 0

  selected :
      (s : ChainSdk N) (hs : List ℕ) (b : Best N) (n : N) (j : ℕ)
      → b.sdk ≡ some n
      → IsFirstBest answer 0 s.nodes 0 b j
      → ((k : ℕ) → k < length s.nodes → reported (answer k) ≤ b.height)
      → ((apply_selection s b hs).status ≡ 1) × IsSelected (apply_selection s b hs)
  unfolding apply_selection
  selected s hs b n j e w top = (
    rw e,
    record {
      in_range = omega (arith, w.index, w.in_range);
      node = rw e (sym e ∙ sym w.found ∙ ap (get_elem? s.nodes) (omega (arith, w.index)));
      reports = ap answer w.index ∙ w.reports;
      positive = w.higher;
      highest = top;
      first = λ k l.
          let at : reported (answer (0 + k)) ≡ reported (answer k) =
            ap (λ m. reported (answer m)) (omega arith) in
          omega (arith, w.first k (omega (arith, w.index)));
    },
  )

  down :
      (s : ChainSdk N) (hs : List ℕ) (b : Best N)
      → b ≡ nothing_yet
      → ((k : ℕ) → k < length s.nodes → reported (answer k) ≤ b.height)
      → ((apply_selection s b hs).status ≡ 0) × IsDown (apply_selection s b hs)
  unfolding apply_selection
  down s hs b e top = (
    rw e,
    record {
      silent = λ k l. omega (arith, top k l, ap (λ (c : Best N). c.height) e);
      no_height = ap (λ (c : Best N). c.height) e;
      first_index = ap (λ (c : Best N). c.index) e;
      fallback = rw e;
    },
  )

  -- After `updateSelection` either the status is 1 and the selected node is the first of those that
  -- report the greatest height, which is positive, or the status is 0, no node reports a positive
  -- height, and the first node stands in.
  pub update_selection_lem :
      (s : ChainSdk N)
      → let s' = update_selection answer s in
        ((s'.status ≡ 1) × IsSelected s') ⊎ ((s'.status ≡ 0) × IsDown s')
  unfolding update_selection
  update_selection_lem s = elim (ping_all-IsFirstBest answer 0 s.nodes nothing_yet) [
    | inl (j, w) ↦
        let (n, at) = get_elem?_of_lt s.nodes j w.in_range in
        inl (selected s _ _ n j (sym w.found ∙ at) w top)
    | inr e ↦ inr (down s _ _ e top)
  ]
    where
      top :
          (k : ℕ)
          → k < length s.nodes
          → reported (answer k) ≤ (ping_all answer 0 s.nodes nothing_yet).0.height
      top k l = ping_all-ge answer 0 s.nodes nothing_yet k k (omega arith) l

  flag :
      (s : ChainSdk N) (k : ℕ)
      → k < length s.nodes
      → let s' = update_selection answer s in
        get_or s'.state k false ≡ leb (sub64 s'.height s.max_gap) (reported (answer k))
  unfolding update_selection
  flag s k h =
      let (b, hs) = ping_all answer 0 s.nodes nothing_yet in
      let inside : k < length hs = omega (arith, length-ping_all answer 0 s.nodes nothing_yet, h) in
      get_or-map (λ (r : ℕ). leb (sub64 b.height s.max_gap) r) hs k 0 false inside
      ∙ ap (leb (sub64 b.height s.max_gap))
          (ping_all-reported answer 0 s.nodes nothing_yet k k (omega arith) h)

  highest :
      (s : ChainSdk N) (k : ℕ)
      → k < length s.nodes
      → reported (answer k) ≤ (update_selection answer s).height
  unfolding update_selection
  highest s k h = ping_all-ge answer 0 s.nodes nothing_yet k k (omega arith) h

  -- Once the best height has reached the gap, a node is eligible exactly when it is at most the gap
  -- behind. Heights are `uint64` values.
  pub update_selection-state :
      (s : ChainSdk N) (k : ℕ)
      → k < length s.nodes
      → (update_selection answer s).height < 2 ^ 64
      → s.max_gap ≤ (update_selection answer s).height
      → let s' = update_selection answer s in
        (get_or s'.state k false ≡ true) ↔ (s'.height ≤ reported (answer k) + s.max_gap)
  update_selection-state s k h small old = rw (flag s k h) (ground arith)

  -- While the best height is below the gap the subtraction wraps, and no node is eligible, not even
  -- the best one.
  pub update_selection-state_wraps :
      (s : ChainSdk N) (k : ℕ)
      → k < length s.nodes
      → s.max_gap < 2 ^ 64
      → (update_selection answer s).height < s.max_gap
      → get_or (update_selection answer s).state k false ≡ false
  update_selection-state_wraps s k h small young = rw (flag s k h) (ground (arith, highest s k h))
