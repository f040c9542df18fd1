-- ===== src/Chains/Package.antt =====
-- The part that the packages `chains/eth`, `chains/ont`, `chains/neo`, `chains/harmony`,
-- `chains/starcoin`, `chains/switcheo`, `chains/bridge` and `chains/poly` share word for word: the type
-- `SDK`, made by `NewSDK`, and kept as a singleton by `WithOptions`. Also the keys of
-- `chains/chain.go`.
pub mod Keys
pub mod Serving
pub mod Sharing
pub mod Singletons
use bridge_common.Prelude.{
  ℕ, Bool, true, false, List, [], ◌∷◌, ◌++◌, map, Option, none, some, get_elem?, if◌then◌else◌,
}
use bridge_common.Prelude.Text.{Text, codes, decimal, join}
use bridge_common.Util.Singleton.{store_key, single}
use bridge_common.Chains.Sdk.{Answer, ChainSdk, select, new_chain_sdk, init}

pub record Options : Type 0 where
  pub chain_id : ℕ
  pub nodes : List Text
  pub interval : ℕ
  pub max_gap : ℕ

-- `fmt.Sprintf("SDK:%v:%s", id, strings.Join(nodes, ":"))`
abbrev pub key_of : ℕ → List Text → Text
key_of chain_id nodes = codes "SDK:" ++ (decimal chain_id ++ (codes ":" ++ join nodes (codes ":")))

unfoldable pub options_key : Options → Text
options_key o = key_of o.chain_id o.nodes

unfoldable pub chain_sdk_key : {C : Type 0} → (C → Text) → ChainSdk C → Text
chain_sdk_key address s = key_of s.chain_id (map address s.nodes)

-- The `SDK` of a package, over its type of clients.
pub record PackageSdk (C : Type 0) : Type 0 where
  pub chain_sdk : Option (ChainSdk C)
  pub nodes : List C
  pub options : Option Options

-- What differs between the packages: `New`, `Address`, the name of the type, the prefix of the key,
-- and whether `NewSDK` returns the SDK also beside an error.
pub record PackageConfig (C : Type 0) : Type 0 where
  pub new_client : Text → C
  pub address : C → Text
  pub type_name : Text
  pub key_prefix : Text
  pub keeps_failed : Bool

abbrev pub Instances : Type 0 → Type 0
Instances C = List (Text × Option (PackageSdk C))

module _ {C : Type 0} where
  -- `none` is a panic: of the index, or of the embedded nil pointer.
  unfoldable pub node : PackageSdk C → Option C
  node s = elim s.chain_sdk [ none ↦ none | some c ↦ get_elem? s.nodes c.index ]

  unfoldable pub select_node : PackageSdk C → Option (C × PackageSdk C)
  select_node s = elim s.chain_sdk [
    | none ↦ none
    | some c ↦ elim (select c) [
      | none ↦ none
      | some (i, c') ↦ elim (get_elem? s.nodes i) [
        | none ↦ none
        | some n ↦ some (n, record s { chain_sdk = some c' })
      ]
    ]
  ]

module _ {C : Type 0} (config : PackageConfig C) where
  -- The SDK, nil or not, and whether an error is returned.
  unfoldable pub new_sdk : (ℕ → Answer) → ℕ → List Text → ℕ → ℕ → Option (PackageSdk C) × Bool
  new_sdk answer chain_id urls interval max_gap =
      let clients = map config.new_client urls in
      let (s, ok) = init answer (new_chain_sdk chain_id clients interval max_gap) in
      let made : PackageSdk C = record { chain_sdk = some s; nodes = clients; options = none } in
      if ok then (some made, false) else ((if config.keeps_failed then some made else none), true)

  -- `none` is the panic of an SDK with neither nodes nor options.
  unfoldable pub key : PackageSdk C → Option Text
  key s = elim s.chain_sdk [
    | some c ↦ some (config.key_prefix ++ chain_sdk_key config.address c)
    | none ↦ elim s.options [ some o ↦ some (config.key_prefix ++ options_key o) | none ↦ none ]
  ]

  unfoldable pub create : (ℕ → Answer) → Options → Option (PackageSdk C) × Bool
  unfolding new_sdk
  create answer o = new_sdk answer o.chain_id o.nodes o.interval o.max_gap

  -- The key of the SDK that `WithOptions` asks for, which has nothing but its options.
  unfoldable pub request_key : Options → Text
  request_key o = store_key config.type_name (config.key_prefix ++ options_key o)

  unfoldable pub with_options :
      (ℕ → Answer) → Options → Instances C → Option (PackageSdk C) × Bool × Instances C
  with_options answer o state =
      let (ins, bad, state') = single (request_key o) (create answer o) state in
      if bad then (none, true, state') else (ins, false, state')
