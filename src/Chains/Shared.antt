-- ===== src/Chains/Shared.antt =====
-- The one singleton store of `util/single.go` as the packages under `chains` share it: it keeps values
-- of any type, and each package's `WithOptions` asserts that what it finds is its own `SDK`.
pub mod Separate
use bridge_common.Prelude.{ℕ, Bool, true, false, List, [], ◌∷◌, Option, none, some}
use mathlib.Core.Option
use bridge_common.Prelude.Text.{Text}
use bridge_common.Util.Singleton.{single}
use bridge_common.Chains.Sdk.{Answer}
use bridge_common.Chains.Package.{
  Options, PackageSdk, PackageConfig, Instances, create, request_key, with_options,
}
use bridge_common.Chains.Eth
use bridge_common.Chains.Ont
use bridge_common.Chains.Neo
use bridge_common.Chains.Harmony
use bridge_common.Chains.Starcoin
use bridge_common.Chains.Switcheo
use bridge_common.Chains.Bridge
use bridge_common.Chains.Poly

pub data Package : Type 0 where
  eth ont neo harmony starcoin switcheo bridge poly : Package

-- The package's `Client`, over the type `R` of connections.
abbrev pub ClientOf : Type 0 → Package → Type 0
ClientOf R eth = Eth.Client R
ClientOf R ont = Ont.Client R
ClientOf R neo = Neo.Client R
ClientOf R harmony = Harmony.Client R
ClientOf R starcoin = Starcoin.Client R
ClientOf R switcheo = Switcheo.Client R
ClientOf R bridge = Bridge.Client
ClientOf R poly = Poly.Client R

module _ {R : Type 0} (dial : Package → Text → R)
    (dial_rpc dial_raw connect : Text → Option R) where
  abbrev pub config_of : (p : Package) → PackageConfig (ClientOf R p)
  config_of eth = Eth.config dial_rpc dial_raw
  config_of ont = Ont.config (dial ont)
  config_of neo = Neo.config (dial neo)
  config_of harmony = Harmony.config dial_rpc dial_raw connect
  config_of starcoin = Starcoin.config (dial starcoin)
  config_of switcheo = Switcheo.config (dial switcheo)
  config_of bridge = Bridge.config
  config_of poly = Poly.config (dial poly)

-- A value of type `interface{}`: a pointer to the `SDK` of some package, which may be nil.
abbrev pub Any : Type 0 → Type 0
Any R = (p : Package) × Option (PackageSdk (ClientOf R p))

-- `sdk.(*SDK)` in a package; `none` is a panic.
unfoldable pub assert :
    {R : Type 0} (p : Package) → Any R → Option (Option (PackageSdk (ClientOf R p)))
assert eth (eth, s) = some s
assert ont (ont, s) = some s
assert neo (neo, s) = some s
assert harmony (harmony, s) = some s
assert starcoin (starcoin, s) = some s
assert switcheo (switcheo, s) = some s
assert bridge (bridge, s) = some s
assert poly (poly, s) = some s
assert p (q, s) = none

-- A call of a package's `WithOptions`, with what the nodes answer if an SDK is made. Calls that panic
-- while they make their clients or first ask them leave the store as it is, and are left out.
pub record Call : Type 0 where
  pub caller : Package
  pub options : Options
  pub answer : ℕ → Answer

-- What a call of `WithOptions` returns, as the package that it is of has it.
abbrev pub Returned : Type 0 → Type 0
Returned R = (p : Package) × Option (PackageSdk (ClientOf R p)) × Bool

-- A store for each package.
abbrev pub Stores : Type 0 → Type 0
Stores R = (p : Package) → Instances (ClientOf R p)

module _ {R : Type 0} (dial : Package → Text → R)
    (dial_rpc dial_raw connect : Text → Option R) where
  -- What follows `util.Single`; `none` is a panic.
  unfoldable pub unwrap : (p : Package) → Any R → Bool → Option (Returned R)
  unwrap p ins true = some (p, none, true)
  unwrap p ins false = Option.map (λ s. (p, s, false)) (assert p ins)

  -- `WithOptions` over the store that all packages share.
  unfoldable pub ask : Call → List (Text × Any R) → Option (Returned R) × List (Text × Any R)
  unfolding unwrap
  ask c state =
      let config = config_of dial dial_rpc dial_raw connect c.caller in
      let (made, failed) = create config c.answer c.options in
      let (ins, bad, state') =
        single (request_key config c.options) ((c.caller, made), failed) state in
      (unwrap c.caller ins bad, state')

  -- The calls in order, up to one that panics.
  unfoldable pub serve_all : List Call → List (Text × Any R) → Option (List (Returned R))
  serve_all [] state = some []
  serve_all (c ∷ cs) state =
      let (r, state') = ask c state in
      let rest = serve_all cs state' in
      elim r [ none ↦ none | some out ↦ Option.map (λ outs. out ∷ outs) rest ]

  unfoldable pub put_store : (p : Package) → Instances (ClientOf R p) → Stores R → Stores R
  put_store eth m all eth = m
  put_store ont m all ont = m
  put_store neo m all neo = m
  put_store harmony m all harmony = m
  put_store starcoin m all starcoin = m
  put_store switcheo m all switcheo = m
  put_store bridge m all bridge = m
  put_store poly m all poly = m
  put_store p m all q = all q

  -- The calls in order, each over the store of its package.
  unfoldable pub serve_each : List Call → Stores R → List (Returned R)
  unfolding put_store
  serve_each [] all = []
  serve_each (c ∷ cs) all =
      let p = c.caller in
      let (s, bad, m) =
        with_options (config_of dial dial_rpc dial_raw connect p) c.answer c.options (all p) in
      (p, s, bad) ∷ serve_each cs (put_store p m all)
