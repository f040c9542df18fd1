-- ===== src/Chains/Harmony.antt =====
-- The client of `chains/harmony/harmony.go` and its `SDK`. What the node replies is an argument.
pub mod Header
pub mod Encoded
use bridge_common.Prelude.{
  ℕ, Bool, false, List, [], ◌∷◌, Option, none, some, length, take, if◌then◌else◌,
}
use bridge_common.Prelude.Text.{Text, codes, lookup}
use bridge_common.Util.Bytes.{Bytes, hex_decode}
use bridge_common.Chains.Sdk.{Answer}
use bridge_common.Chains.Eth
use bridge_common.Chains.Package
use bridge_common.Chains.Package.{Options, PackageSdk, PackageConfig, Instances}

-- `R` is the type of the connections that the package's library makes; one is nil where `Dial` returned
-- an error, which `New` drops.
pub record Client (R : Type 0) : Type 0 where
  -- The embedded client of `chains/eth`, and the `caller`.
  pub eth : Eth.Client R
  pub caller : Option R

module _ {R : Type 0} (dial dial_raw connect : Text → Option R) where
  unfoldable pub new : Text → Client R
  new url = record { eth = Eth.new dial dial_raw url; caller = connect url }

  abbrev pub config : PackageConfig (Client R)
  config = record {
    new_client = new;
    address = λ c. c.eth.address;
    type_name = codes "*harmony.SDK";
    key_prefix = [];
    keeps_failed = false;
  }

  -- `NewSDK`; `none` is a panic of the first round of polling, which calls `GetLatestHeight` of the
  -- embedded clients.
  unfoldable pub new_sdk :
      (ℕ → Option ℕ) → ℕ → List Text → ℕ → ℕ → Option (Option (PackageSdk (Client R)) × Bool)
  new_sdk replies chain_id urls interval max_gap =
      if Eth.all_up dial dial_raw replies 0 urls
      then some (
          Package.new_sdk config (λ k. Eth.latest_height (replies k)) chain_id urls interval
            max_gap)
      else none

  unfoldable pub create : (ℕ → Option ℕ) → Options → Option (Option (PackageSdk (Client R)) × Bool)
  create replies o = new_sdk replies o.chain_id o.nodes o.interval o.max_gap

  -- `WithOptions`: an SDK that is stored already is found before any client is made.
  unfoldable pub with_options :
      (ℕ → Option ℕ)
      → Options
      → Instances (Client R)
      → Option (Option (PackageSdk (Client R)) × Bool × Instances (Client R))
  with_options replies o state =
      let done = Package.with_options config (λ k. Eth.latest_height (replies k)) o state in
      elim (lookup (Package.request_key config o) state) [
        | some old ↦ some done
        | none ↦ if Eth.all_up dial dial_raw replies 0 o.nodes then some done else none
      ]

  abbrev pub key : PackageSdk (Client R) → Option Text
  key = Package.key config

  abbrev pub node : PackageSdk (Client R) → Option (Client R)
  node = Package.node

  abbrev pub select_node : PackageSdk (Client R) → Option ((Client R) × PackageSdk (Client R))
  select_node = Package.select_node

-- `HeaderByNumberRLP` of a client whose `caller` is there, by the JSON text of the result, or an error: the bytes, and whether there is no
-- error; `none` is the panic of slicing off the quotes of a text of less than two bytes.
unfoldable pub header_by_number_rlp : Option Text → Option (Bytes × Bool)
header_by_number_rlp none = some ([], false)
header_by_number_rlp (some []) = none
header_by_number_rlp (some (q ∷ [])) = none
header_by_number_rlp (some (q ∷ c ∷ cs)) = some (hex_decode (take (length cs) (c ∷ cs)))
