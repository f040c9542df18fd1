-- ===== src/Chains/Package/Keys.antt =====
-- The SDK that `NewSDK` makes: its key, and its nodes.
use bridge_common.Prelude.{
  ℕ, ◌≡◌, refl, sym, ap, ◌∙◌, false, List, [], ◌∷◌, ◌++◌, map, none, some, get_elem?, arith, subst,
}
use mathlib.Core.Option.{some-injective}
use bridge_common.Prelude.Text.{Text}
use bridge_common.Chains.Sdk.{Answer, ChainSdk, new_chain_sdk, update_selection, init}
use bridge_common.Chains.Sdk.Life.{Reach, Reach-new_chain_sdk, Reach-nodes}
use bridge_common.Chains.Package.{
  Options, PackageSdk, PackageConfig, options_key, chain_sdk_key, key, create, node,
}

module _ {C : Type 0} (config : PackageConfig C) where
  map_address :
      (urls : List Text)
      → ((url : Text) → config.address (config.new_client url) ≡ url)
      → map config.address (map config.new_client urls) ≡ urls
  map_address [] h = refl
  map_address (u ∷ us) h = rw (h u, map_address us h)

  abbrev started : (ℕ → Answer) → Options → ChainSdk C
  started answer o =
      (init answer
        (new_chain_sdk o.chain_id (map config.new_client o.nodes) o.interval o.max_gap)).0

  abbrev made : (ℕ → Answer) → Options → PackageSdk C
  made answer o = record {
    chain_sdk = some (started answer o);
    nodes = map config.new_client o.nodes;
    options = none;
  }

  create-made :
      (answer : ℕ → Answer) (o : Options) (s : PackageSdk C)
      → create config answer o ≡ (some s, false)
      → s ≡ made answer o
  unfolding create
  create-made answer o s e = ground arith

  -- `NewSDK` and the rounds after it leave the nodes and the chain's id as they are given.
  init-kept :
      (answer : ℕ → Answer) (chain_id : ℕ) (nodes : List C) (interval max_gap : ℕ)
      → let s = (init answer (new_chain_sdk chain_id nodes interval max_gap)).0 in
        (s.nodes ≡ nodes) × (s.chain_id ≡ chain_id)
  unfolding init update_selection new_chain_sdk
  init-kept answer chain_id nodes interval max_gap = (refl, refl)

  made-key :
      (answer : ℕ → Answer) (o : Options)
      → ((url : Text) → config.address (config.new_client url) ≡ url)
      → key config (made answer o) ≡ some (config.key_prefix ++ options_key o)
  unfolding key chain_sdk_key options_key
  made-key answer o h =
      let kept = init-kept answer o.chain_id (map config.new_client o.nodes) o.interval o.max_gap in
      rw (kept.0, kept.1, map_address o.nodes h)

  -- An SDK made from options has the key of the options, so that asking for the options again finds
  -- it. A client's address is the URL that it was made from.
  pub create-key :
      (answer : ℕ → Answer) (o : Options) (s : PackageSdk C)
      → ((url : Text) → config.address (config.new_client url) ≡ url)
      → create config answer o ≡ (some s, false)
      → key config s ≡ some (config.key_prefix ++ options_key o)
  create-key answer o s h e = ap (key config) (create-made answer o s e) ∙ made-key answer o h

  -- However the SDK's chain goes on after it was made, the package's `Node` is the client that the
  -- chain's own `Node` returns.
  pub node-Reach :
      (answer : ℕ → Answer) (o : Options) (s : PackageSdk C) (c c' : ChainSdk C)
      → create config answer o ≡ (some s, false)
      → s.chain_sdk ≡ some c
      → Reach c c'
      → node (record s { chain_sdk = some c' }) ≡ c'.sdk
  unfolding node
  node-Reach answer o s c c' e at r =
      let same = create-made answer o s e in
      let first : c ≡ started answer o =
        some-injective _ _ (sym at ∙ ap (λ (t : PackageSdk C). t.chain_sdk) same) in
      let kept = init-kept answer o.chain_id (map config.new_client o.nodes) o.interval o.max_gap in
      let nodes : c'.nodes ≡ s.nodes =
        Reach-nodes r
        ∙ ap (λ (t : ChainSdk C). t.nodes) first
        ∙ kept.0
        ∙ sym (ap (λ (t : PackageSdk C). t.nodes) same) in
      let valid =
        Reach-new_chain_sdk o.chain_id (map config.new_client o.nodes) o.interval o.max_gap answer
          c' (subst (λ t. Reach t c') first r) in
      ap (λ (l : List C). get_elem? l c'.index) (sym nodes) ∙ sym valid.node_at_index
