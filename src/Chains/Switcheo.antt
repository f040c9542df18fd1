-- ===== src/Chains/Switcheo.antt =====
-- The client of `chains/switcheo/switcheo.go` and its `SDK`. What the node replies is an argument.
use bridge_common.Prelude.{ℕ, Bool, true, false, List, [], ◌∷◌, Option, none, some, if◌then◌else◌}
use bridge_common.Prelude.Text.{Text, codes, lookup}
use bridge_common.Chains.Sdk.{Answer, height, failed}
use bridge_common.Chains.Package
use bridge_common.Chains.Package.{Options, PackageSdk, PackageConfig, Instances}

-- `R` is the type of the connections that the package's library makes.
pub record Client (R : Type 0) : Type 0 where
  pub rpc : R
  pub address : Text

module _ {R : Type 0} (connect : Text → R) where
  -- `New`, by whether `tmclient.New` succeeds; the codec, which is the same for all, is left out.
  unfoldable pub new : (Text → Bool) → Text → Option (Client R)
  new dials url = if dials url then some (record { rpc = connect url; address = url }) else none

  abbrev pub config : PackageConfig (Client R)
  config = record {
    new_client = λ url. record { rpc = connect url; address = url };
    address = λ c. c.address;
    type_name = codes "*switcheo.SDK";
    key_prefix = [];
    keeps_failed = false;
  }

  unfoldable pub all_up : (Text → Bool) → List Text → Bool
  all_up dials [] = true
  all_up dials (url ∷ urls) = elim (new dials url) [ none ↦ false | some c ↦ all_up dials urls ]

  -- `NewSDK`. `none` is a panic: a client that `New` did not make is a nil pointer, which the first
  -- round of polling follows.
  unfoldable pub new_sdk :
      (Text → Bool)
      → (ℕ → Answer)
      → ℕ
      → List Text
      → ℕ
      → ℕ
      → Option (Option (PackageSdk (Client R)) × Bool)
  new_sdk dials answer chain_id urls interval max_gap =
      if all_up dials urls
      then some (Package.new_sdk config answer chain_id urls interval max_gap)
      else none

  unfoldable pub create :
      (Text → Bool) → (ℕ → Answer) → Options → Option (Option (PackageSdk (Client R)) × Bool)
  create dials answer o = new_sdk dials answer o.chain_id o.nodes o.interval o.max_gap

  -- `WithOptions`: an SDK that is stored already is found before any client is made.
  unfoldable pub with_options :
      (Text → Bool)
      → (ℕ → Answer)
      → Options
      → Instances (Client R)
      → Option (Option (PackageSdk (Client R)) × Bool × Instances (Client R))
  with_options dials answer o state = elim (lookup (Package.request_key config o) state) [
    | some old ↦ some (Package.with_options config answer o state)
    | none ↦
        if all_up dials o.nodes then some (Package.with_options config answer o state) else none
  ]

  abbrev pub key : PackageSdk (Client R) → Option Text
  key = Package.key config

  abbrev pub node : PackageSdk (Client R) → Option (Client R)
  node = Package.node

  abbrev pub select_node : PackageSdk (Client R) → Option (Client R × PackageSdk (Client R))
  select_node = Package.select_node

-- The reply to `Status`: an error, or the latest height, an `int64` as a 64-bit pattern.
unfoldable pub get_latest_height : Option ℕ → Answer
get_latest_height none = failed 0
get_latest_height (some n) = height n
