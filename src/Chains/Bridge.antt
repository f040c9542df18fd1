-- ===== src/Chains/Bridge.antt =====
-- The client of `chains/bridge/bridge.go` and its `SDK`. What the node replies is an argument.
pub mod Requests
pub mod Messages
use bridge_common.Prelude.{ℕ, Bool, true, false, List, [], Option, none, some, ◌==◌}
use bridge_common.Prelude.Int.{ℤ, pos, negsuc}
use bridge_common.Prelude.Text.{Text, codes}
use bridge_common.Chains.Sdk.{Answer, height}
use bridge_common.Chains.Package
use bridge_common.Chains.Package.{Options, PackageSdk, PackageConfig, Instances}

pub record Client : Type 0 where
  pub address : Text
  pub explorer : Text

unfoldable pub new : Text → Client
new url = record { address = url; explorer = [] }

unfoldable pub set_explorer : Text → Client → Client
set_explorer url c = record c { explorer = url }

-- A node of the bridge is not asked.
abbrev pub get_latest_height : Answer
get_latest_height = height 1

abbrev pub config : PackageConfig Client
config = record {
  new_client = new;
  address = λ c. c.address;
  type_name = codes "*bridge.SDK";
  key_prefix = codes "Bridge-Client";
  keeps_failed = false;
}

abbrev pub new_sdk : (ℕ → Answer) → ℕ → List Text → ℕ → ℕ → Option (PackageSdk Client) × Bool
new_sdk = Package.new_sdk config

abbrev pub with_options :
    (ℕ → Answer) → Options → Instances Client → Option (PackageSdk Client) × Bool × Instances Client
with_options = Package.with_options config

abbrev pub create : (ℕ → Answer) → Options → Option (PackageSdk Client) × Bool
create = Package.create config

abbrev pub key : PackageSdk Client → Option Text
key = Package.key config

abbrev pub node : PackageSdk Client → Option Client
node = Package.node

abbrev pub select_node : PackageSdk Client → Option (Client × PackageSdk Client)
select_node = Package.select_node

-- What `CheckFee` is asked and answers about one transaction, as far as the code reads it; `none` is
-- a nil pointer.
pub record CheckFeeRequest : Type 0 where
  pub chain_id : ℕ
  pub tx_id : Text
  pub poly_hash : Text
  pub status : ℤ

unfoldable pub pass : Option CheckFeeRequest → Bool
pass none = false
pass (some r) = elim r.status [ pos n ↦ n == 1 | negsuc n ↦ false ]

unfoldable pub skip : Option CheckFeeRequest → Bool
skip none = false
skip (some r) = elim r.status [ pos n ↦ false | negsuc n ↦ n == 1 ]

unfoldable pub missing : Option CheckFeeRequest → Bool
missing none = true
missing (some r) = elim r.status [ pos n ↦ n == 0 | negsuc n ↦ false ]
