-- ===== src/Chains/Neo.antt =====
-- The client of `chains/neo/neo.go` and its `SDK`. What the node replies is an argument.
use bridge_common.Prelude.{ℕ, Bool, true, false, List, [], ◌∷◌, Option, none, some, add64}
use bridge_common.Prelude.Text.{Text, codes}
use bridge_common.Util.Bytes.{Bytes}
use bridge_common.Chains.Sdk.{Answer, height, failed}
use bridge_common.Chains.Package
use bridge_common.Chains.Package.{Options, PackageSdk, PackageConfig, Instances}

-- `R` is the type of the connections that the package's library makes.
pub record Client (R : Type 0) : Type 0 where
  pub rpc : R
  pub address : Text

module _ {R : Type 0} (connect : Text → R) where
  unfoldable pub new : Text → Client R
  new url = record { rpc = connect url; address = url }

  abbrev pub config : PackageConfig (Client R)
  config = record {
    new_client = new;
    address = λ c. c.address;
    type_name = codes "*neo.SDK";
    key_prefix = [];
    keeps_failed = false;
  }

  abbrev pub new_sdk : (ℕ → Answer) → ℕ → List Text → ℕ → ℕ → Option (PackageSdk (Client R)) × Bool
  new_sdk = Package.new_sdk config

  abbrev pub with_options :
      (ℕ → Answer)
      → Options
      → Instances (Client R)
      → Option (PackageSdk (Client R)) × Bool × Instances (Client R)
  with_options = Package.with_options config

  abbrev pub create : (ℕ → Answer) → Options → Option (PackageSdk (Client R)) × Bool
  create = Package.create config

  abbrev pub key : PackageSdk (Client R) → Option Text
  key = Package.key config

  abbrev pub node : PackageSdk (Client R) → Option (Client R)
  node = Package.node

  abbrev pub select_node : PackageSdk (Client R) → Option ((Client R) × PackageSdk (Client R))
  select_node = Package.select_node

-- The reply to `getblockcount`: the message of an error, which is empty if there is none, and the
-- count, a 64-bit pattern.
unfoldable pub get_latest_height : Text × ℕ → Answer
get_latest_height ([], count) = height count
get_latest_height (c ∷ cs, count) = failed 0

-- The reply to `invokefunction`: an error or a fault, or the text of the first value on the stack, if
-- there is a stack.
pub data InvokeReply : Type 0 where
  faulted : InvokeReply
  halted : Option Text → InvokeReply

-- `decode` is the helper `HexToBytes`, `number` is `BytesToUInt64`.
module _ (decode : Text → Bytes) (number : Bytes → ℕ) where
  -- The height after the one in the bytes, if there are any.
  unfoldable pub next_height : Bytes → ℕ
  next_height [] = 0
  next_height (b ∷ bs) = add64 (number (b ∷ bs)) 1

  -- `GetPolyEpochHeight`: the height, and whether an error is returned.
  unfoldable pub get_poly_epoch_height : InvokeReply → ℕ × Bool
  get_poly_epoch_height faulted = (0, true)
  get_poly_epoch_height (halted none) = (0, false)
  get_poly_epoch_height (halted (some t)) = (next_height (decode t), false)
