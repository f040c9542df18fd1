-- ===== src/Chains/Sdk/View/Latest.antt =====
-- A `ChainSDK` of `chains/chain.go` shows the last round of polling.
use bridge_common.Prelude.{
  ℕ, zero, suc, ◌+◌, ◌≤◌, ◌<◌, ◌≡◌, ◌≢◌, refl, sym, ap, ◌∙◌, some, inl, inr, List, [], ◌∷◌, length,
  get_elem?, ltb, arith, subst,
}
use bridge_common.Chains.Sdk.{
  Answer, ChainSdk, available, update_selection, select, new_chain_sdk, init,
}
use bridge_common.Chains.Sdk.Polling.{reported}
use bridge_common.Chains.Sdk.Selection.{update_selection_lem, IsSelected, IsDown}
use bridge_common.Chains.Sdk.Life.{polls, selects, Reach, here, next, Reach-nodes}
use bridge_common.Chains.Sdk.View.{
  chain_nodes, View, view_from, greatest, first_at, view_nodes, Shows, last_round,
}

module _ (answer : ℕ → Answer) where
  same_place : {m n : ℕ} → m ≡ n → reported (answer m) ≡ reported (answer n)
  same_place e = ap (λ k. reported (answer k)) e

module _ {N : Type 0} (answer : ℕ → Answer) where
  greatest-ge :
      (i : ℕ) (ns : List N) (j k : ℕ)
      → k ≡ i + j
      → j < length ns
      → reported (answer k) ≤ greatest (view_from answer i ns)
  greatest-ge i [] j k e h = elim h [ ]
  greatest-ge i (n ∷ ns) zero k e h =
      let at = same_place answer {m = k} {n = i} (omega arith) in ground (arith, at)
  greatest-ge i (n ∷ ns) (suc j) k e h =
      let rest = greatest-ge (i + 1) ns j k (omega arith) (omega arith) in ground (arith, rest)

  greatest-le :
      (i : ℕ) (ns : List N) (m : ℕ)
      → ((j : ℕ) → j < length ns → reported (answer (i + j)) ≤ m)
      → greatest (view_from answer i ns) ≤ m
  greatest-le i [] m h = omega arith
  greatest-le i (n ∷ ns) m h =
      let first : reported (answer i) ≤ m =
        omega (arith, h 0 (omega arith), same_place answer {m = i + 0} {n = i} (omega arith)) in
      let rest = greatest-le (i + 1) ns m (λ j l. omega (
        arith,
        h (suc j) (omega arith),
        same_place answer {m = i + suc j} {n = i + 1 + j} (omega arith),
      )) in
      ground (arith, first, rest)

  first_at_lem :
      (i : ℕ) (ns : List N) (m j : ℕ)
      → j < length ns
      → reported (answer (i + j)) ≡ m
      → ((k : ℕ) → k < j → reported (answer (i + k)) ≢ m)
      → first_at m (view_from answer i ns) ≡ get_elem? ns j
  first_at_lem i [] m j l e h = elim l [ ]
  first_at_lem i (n ∷ ns) m zero l e h =
      let at = same_place answer {m = i + 0} {n = i} (omega arith) in ground (arith, at, e)
  first_at_lem i (n ∷ ns) m (suc j) l e h =
      let other : reported (answer i) ≢ m =
        λ f. h 0 (omega arith) (same_place answer {m = i + 0} {n = i} (omega arith) ∙ f) in
      let rest =
        first_at_lem (i + 1) ns m j (omega (arith, l))
          (same_place answer {m = i + 1 + j} {n = i + suc j} (omega arith) ∙ e)
          (λ k b f.
            h (suc k) (omega (arith, b))
              (same_place answer {m = i + suc k} {n = i + 1 + k} (omega arith) ∙ f)) in
      ground (arith, other, rest)

  selected-Shows :
      (s : ChainSdk N)
      → s.status ≡ 1
      → IsSelected answer s
      → Shows chain_nodes s (view_from answer 0 s.nodes)
  unfolding chain_nodes view_nodes available
  selected-Shows s up w =
      let at : reported (answer s.index) ≡ s.height = ap reported w.reports in
      let high : greatest (view_from answer 0 s.nodes) ≡ s.height = omega (
        arith,
        at,
        greatest-ge 0 s.nodes s.index s.index (omega arith) w.in_range,
        greatest-le 0 s.nodes s.height (λ j l.
            omega (arith, w.highest j l, same_place answer {m = 0 + j} {n = j} (omega arith))),
      ) in
      record {
        height = sym high;
        available = ap (ltb 0) up ∙ ground (arith, high, w.positive);
        node =
            w.node
            ∙ sym (
                first_at_lem 0 s.nodes s.height s.index w.in_range
                  (same_place answer {m = 0 + s.index} {n = s.index} (omega arith) ∙ at)
                  (λ k l e.
                    omega
                      (arith, w.first k l, e, same_place answer {m = 0 + k} {n = k} (omega arith))))
            ∙ ap (λ m. first_at m (view_from answer 0 s.nodes)) (sym high);
      }

  first_of_all :
      (ns : List N)
      → ((k : ℕ) → k < length ns → reported (answer k) ≡ 0)
      → first_at 0 (view_from answer 0 ns) ≡ get_elem? ns 0
  first_of_all [] silent = refl
  first_of_all (n ∷ ns) silent = let at = silent 0 (omega arith) in ground (arith, at)

  down-Shows :
      (s : ChainSdk N)
      → s.status ≡ 0
      → IsDown answer s
      → Shows chain_nodes s (view_from answer 0 s.nodes)
  unfolding chain_nodes view_nodes available
  down-Shows s off w =
      let high : greatest (view_from answer 0 s.nodes) ≡ 0 = omega (
        arith,
        greatest-le 0 s.nodes 0 (λ j l.
            omega (arith, w.silent j l, same_place answer {m = 0 + j} {n = j} (omega arith))),
      ) in
      record {
        height = w.no_height ∙ sym high;
        available = ap (ltb 0) off ∙ ground (arith, high);
        node =
            w.fallback
            ∙ sym (first_of_all s.nodes w.silent)
            ∙ ap (λ m. first_at m (view_from answer 0 s.nodes)) (sym high);
      }

module _ {N : Type 0} where
  update_selection-Shows :
      (answer : ℕ → Answer) (s : ChainSdk N)
      → Shows chain_nodes (update_selection answer s) (view_from answer 0 s.nodes)
  unfolding update_selection
  update_selection-Shows answer s = elim (update_selection_lem answer s) [
    | inl (up, w) ↦ selected-Shows answer (update_selection answer s) up w
    | inr (off, w) ↦ down-Shows answer (update_selection answer s) off w
  ]

  -- `Select` moves the cursor alone.
  select-kept :
      (s s' : ChainSdk N) (c : ℕ)
      → select s ≡ some (c, s')
      → (s'.height ≡ s.height) × (s'.status ≡ s.status) × (s'.sdk ≡ s.sdk)
  unfolding select
  select-kept s s' c e = (ground arith, ground arith, ground arith)

  select-Shows :
      (s s' : ChainSdk N) (c : ℕ) (v : View N)
      → select s ≡ some (c, s')
      → Shows chain_nodes s v
      → Shows chain_nodes s' v
  unfolding chain_nodes available
  select-Shows s s' c v e w =
      let (height, status, node) = select-kept s s' c e in
      record {
        height = height ∙ w.height;
        available = ap (ltb 0) status ∙ w.available;
        node = node ∙ w.node;
      }

  Reach-last_round :
      (answer : ℕ → Answer) (s t : ChainSdk N) (r : Reach s t)
      → Shows chain_nodes s (view_from answer 0 s.nodes)
      → Shows chain_nodes t (view_from (last_round r answer) 0 s.nodes)
  unfolding last_round
  Reach-last_round answer s t here w = w
  Reach-last_round answer s t (next r (polls later u)) w =
      subst (λ ns. Shows chain_nodes (update_selection later u) (view_from later 0 ns))
        (Reach-nodes r) (update_selection-Shows later u)
  Reach-last_round answer s t (next r (selects u u' c e)) w =
      select-Shows u u' c _ e (Reach-last_round answer s u r w)

  -- However a `ChainSDK` goes on after `NewChainSDK`, its `Height`, `Available` and `Node` at any
  -- moment are those of one round of polling, the last: the greatest height that a node reported in
  -- it, whether that is positive, and the first node that reported it, or the first of all if none
  -- reported a height.
  pub Reach-Shows :
      (chain_id : ℕ) (nodes : List N) (interval max_gap : ℕ) (answer : ℕ → Answer) (t : ChainSdk N)
      (r : Reach (init answer (new_chain_sdk chain_id nodes interval max_gap)).0 t)
      → Shows chain_nodes t (view_from (last_round r answer) 0 nodes)
  unfolding init update_selection new_chain_sdk
  Reach-Shows chain_id nodes interval max_gap answer t r =
      Reach-last_round answer _ t r
        (update_selection-Shows answer (new_chain_sdk chain_id nodes interval max_gap))
