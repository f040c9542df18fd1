-- ===== src/Chains/Ont.antt =====
-- The client of `chains/ont/ont.go` and its `SDK`. What the node replies is an argument.
use bridge_common.Prelude.{ℕ, ◌%◌, Bool, true, false, List, [], ◌∷◌, Option, u32_mod}
use bridge_common.Prelude.Text.{Text, codes}
use bridge_common.Util.Bytes.{concat}
use bridge_common.Chains.Sdk.{Answer, height, failed}
use bridge_common.Chains.Package
use bridge_common.Chains.Package.{Options, PackageSdk, PackageConfig, Instances}
use bridge_common.Chains.Storage.{Stored, Store, Native}

-- `R` is the type of the connections that the package's library makes.
pub record Client (R : Type 0) : Type 0 where
  pub rpc : R
  pub address : Text

module _ {R : Type 0} (connect : Text → R) where
  unfoldable pub new : Text → Client R
  new url = record { rpc = connect url; address = url }

  abbrev pub config : PackageConfig (Client R)
  config = record {
    new_client = new;
    address = λ c. c.address;
    type_name = codes "*ont.SDK";
    key_prefix = [];
    keeps_failed = false;
  }

  abbrev pub new_sdk : (ℕ → Answer) → ℕ → List Text → ℕ → ℕ → Option (PackageSdk (Client R)) × Bool
  new_sdk = Package.new_sdk config

  abbrev pub with_options :
      (ℕ → Answer)
      → Options
      → Instances (Client R)
      → Option (PackageSdk (Client R)) × Bool × Instances (Client R)
  with_options = Package.with_options config

  abbrev pub create : (ℕ → Answer) → Options → Option (PackageSdk (Client R)) × Bool
  create = Package.create config

  abbrev pub key : PackageSdk (Client R) → Option Text
  key = Package.key config

  abbrev pub node : PackageSdk (Client R) → Option (Client R)
  node = Package.node

  abbrev pub select_node : PackageSdk (Client R) → Option ((Client R) × PackageSdk (Client R))
  select_node = Package.select_node

-- `GetCurrentBlockHeight` gives a height also beside an error.
unfoldable pub get_latest_height : ℕ × Bool → Answer
get_latest_height (h, false) = height h
get_latest_height (h, true) = failed h

unfoldable pub get_side_chain_header_index : Native → Store → ℕ → ℕ → Stored
get_side_chain_header_index native store chain_id h = store native.header_sync (
    concat
      (native.header_index ∷ native.uint64_bytes chain_id ∷ native.uint32_bytes (h % u32_mod) ∷ []))
