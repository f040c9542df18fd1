-- ===== src/Chains/Starcoin.antt =====
-- The client of `chains/starcoin/starcoin.go` and its `SDK`. What the node replies is an argument.
pub mod Event
use bridge_common.Prelude.{
  ℕ, zero, suc, ◌+◌, ◌%◌, ◌^◌, Bool, true, false, List, [], ◌∷◌, ◌++◌, Option, none, some, length,
  if◌then◌else◌, ltb, ◌==◌, u32_mod, add64, take, drop,
}
use bridge_common.Prelude.Text.{Text, codes, lookup}
use bridge_common.Util.Bytes.{Bytes, concat, hex_decode}
use bridge_common.Chains.Sdk.{Answer, height, failed}
use bridge_common.Chains.Package
use bridge_common.Chains.Package.{Options, PackageSdk, PackageConfig, Instances}
use bridge_common.Chains.Storage.{Stored, Store, Native}

-- `R` is the type of the connections that the package's library makes.
pub record Client (R : Type 0) : Type 0 where
  pub rpc : R
  pub address : Text

module _ {R : Type 0} (connect : Text → R) where
  unfoldable pub new : Text → Client R
  new url = record { rpc = connect url; address = url }

  abbrev pub config : PackageConfig (Client R)
  config = record {
    new_client = new;
    address = λ c. c.address;
    type_name = codes "*starcoin.SDK";
    key_prefix = [];
    keeps_failed = false;
  }

  abbrev pub new_sdk : (ℕ → Answer) → ℕ → List Text → ℕ → ℕ → Option (PackageSdk (Client R)) × Bool
  new_sdk = Package.new_sdk config

  abbrev pub with_options :
      (ℕ → Answer)
      → Options
      → Instances (Client R)
      → Option (PackageSdk (Client R)) × Bool × Instances (Client R)
  with_options = Package.with_options config

  abbrev pub create : (ℕ → Answer) → Options → Option (PackageSdk (Client R)) × Bool
  create = Package.create config

  abbrev pub key : PackageSdk (Client R) → Option Text
  key = Package.key config

  abbrev pub node : PackageSdk (Client R) → Option (Client R)
  node = Package.node

  abbrev pub select_node : PackageSdk (Client R) → Option ((Client R) × PackageSdk (Client R))
  select_node = Package.select_node

-- The reply to `node.info`: an error, or what `GetBlockNumber` makes of it, a number and whether there
-- is an error.
unfoldable pub get_latest_height : Option (ℕ × Bool) → Answer
get_latest_height none = failed 0
get_latest_height (some (n, false)) = height n
get_latest_height (some (n, true)) = failed n
