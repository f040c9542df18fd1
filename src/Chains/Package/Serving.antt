-- ===== src/Chains/Package/Serving.antt =====
-- `NewSDK` of the packages under `chains`, with the first round of polling that `chains/chain.go` runs
-- for it: which client `Node` then returns.
use bridge_common.Prelude.{
  ℕ, ◌≤◌, ◌<◌, ◌≡◌, refl, sym, ap, ◌∙◌, ◌⊎◌, inl, inr, true, false, List, map, none, some, length,
  length-map, get_elem?, get_elem?_of_lt, get_elem?-map, arith,
}
use bridge_common.Prelude.Text.{Text}
use bridge_common.Chains.Sdk.{Answer, ChainSdk, new_chain_sdk, update_selection, init, available}
use bridge_common.Chains.Sdk.Polling.{reported}
use bridge_common.Chains.Sdk.Selection.{IsSelected, update_selection_lem}
use bridge_common.Chains.Package.{PackageSdk, PackageConfig, new_sdk, node}

module _ {C : Type 0} (config : PackageConfig C) (answer : ℕ → Answer) (urls : List Text) where
  -- The client that `Node` returns is made from the first of the URLs whose nodes report the greatest
  -- height.
  pub record Serves (s : PackageSdk C) : Type 0 where
    pub index : ℕ
    pub url : Text
    pub at : get_elem? urls index ≡ some url
    pub serving : node s ≡ some (config.new_client url)
    pub alive : 0 < reported (answer index)
    pub highest : (k : ℕ) → k < length urls → reported (answer k) ≤ reported (answer index)
    pub first : (k : ℕ) → k < index → reported (answer k) < reported (answer index)

  module _ (chain_id interval max_gap : ℕ) where
    abbrev fresh : ChainSdk C
    fresh = new_chain_sdk chain_id (map config.new_client urls) interval max_gap

    abbrev polled : ChainSdk C
    polled = update_selection answer fresh

    abbrev made : PackageSdk C
    made = record { chain_sdk = some polled; nodes = map config.new_client urls; options = none }

    polled-nodes : polled.nodes ≡ map config.new_client urls
    unfolding update_selection new_chain_sdk
    polled-nodes = refl

    new_sdk-made :
        polled.status ≡ 1
        → new_sdk config answer chain_id urls interval max_gap ≡ (some made, false)
    unfolding new_sdk init available
    new_sdk-made up = ground (arith, up)

    new_sdk-bad :
        polled.status ≡ 0 → (new_sdk config answer chain_id urls interval max_gap).1 ≡ true
    unfolding new_sdk init available
    new_sdk-bad up = ground (arith, up)

    made-Serves : IsSelected answer polled → Serves made
    unfolding node
    made-Serves w =
        let all : length polled.nodes ≡ length urls =
          ap (λ (l : List C). length l) polled-nodes ∙ length-map config.new_client urls in
        let (url, at) = get_elem?_of_lt urls polled.index (omega (arith, w.in_range, all)) in
        let top : polled.height ≡ reported (answer polled.index) = sym (ap reported w.reports) in
        record {
          index = polled.index;
          url = url;
          at = at;
          serving = get_elem?-map config.new_client urls polled.index at;
          alive = omega (arith, top, w.positive);
          highest = λ k l. omega (arith, top, w.highest k (omega (arith, all, l)));
          first = λ k l. omega (arith, top, w.first k l);
        }

    pub new_sdk-Serves :
        ((s : PackageSdk C) × (new_sdk config answer chain_id urls interval max_gap
            ≡ (some s, false))
          × Serves s)
        ⊎ (((new_sdk config answer chain_id urls interval max_gap).1 ≡ true)
            × ((k : ℕ) → k < length urls → reported (answer k) ≡ 0))
    new_sdk-Serves = elim (update_selection_lem answer fresh) [
      | inl (up, w) ↦ inl (made, new_sdk-made up, made-Serves w)
      | inr (off, w) ↦
          let all : length polled.nodes ≡ length urls =
            ap (λ (l : List C). length l) polled-nodes ∙ length-map config.new_client urls in
          inr (new_sdk-bad off, λ k l. w.silent k (omega (arith, all, l)))
    ]
