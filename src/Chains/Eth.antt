-- ===== src/Chains/Eth.antt =====
-- The client of `chains/eth/eth.go` for chains that speak the JSON-RPC of Ethereum, and its `SDK`. What
-- the node replies is an argument.
pub mod Confirms
pub mod Nodes
pub mod Msg
use bridge_common.Prelude.{
  ℕ, zero, suc, ◌+◌, ◌-◌, ◌*◌, ◌%◌, ◌^◌, Bool, true, false, List, [], ◌∷◌, Option, none, some,
  if◌then◌else◌, ltb, leb, ◌==◌,
}
use bridge_common.Prelude.Text.{Text, codes, lookup}
use bridge_common.Util.Bytes.{hex_value}
use bridge_common.Chains.Sdk.{Answer, height, failed}
use bridge_common.Chains.Package
use bridge_common.Chains.Package.{Options, PackageSdk, PackageConfig, Instances}

-- `R` is the type of the two connections that `rpc.Dial` and `ethclient.Dial` make; each is nil where
-- its `Dial` returned an error, which `New` drops.
pub record Client (R : Type 0) : Type 0 where
  pub rpc : Option R
  pub raw : Option R
  pub address : Text

unfoldable pub new : {R : Type 0} → (Text → Option R) → (Text → Option R) → Text → Client R
new dial dial_raw url = record { rpc = dial url; raw = dial_raw url; address = url }

abbrev pub config : {R : Type 0} → (Text → Option R) → (Text → Option R) → PackageConfig (Client R)
config dial dial_raw = record {
  new_client = new dial dial_raw;
  address = λ c. c.address;
  type_name = codes "*eth.SDK";
  key_prefix = [];
  keeps_failed = false;
}

-- The reply to `eth_blockNumber`: an error, or a number, of which `Uint64` keeps the low 64 bits.
unfoldable pub latest_height : Option ℕ → Answer
latest_height none = failed 0
latest_height (some n) = height (n % 2 ^ 64)

-- `GetLatestHeight`, by what the node replies; `none` is the panic of a nil connection.
unfoldable pub get_latest_height : {R : Type 0} → Client R → Option ℕ → Option Answer
get_latest_height c reply = elim c.rpc [ none ↦ none | some r ↦ some (latest_height reply) ]

module _ {R : Type 0} (dial dial_raw : Text → Option R) where
  -- Whether the first round of polling gets through all the nodes, by what they reply, the one at
  -- `i` first: a call of `GetLatestHeight` may panic.
  unfoldable pub all_up : (ℕ → Option ℕ) → ℕ → List Text → Bool
  all_up replies i [] = true
  all_up replies i (url ∷ urls) = elim (get_latest_height (new dial dial_raw url) (replies i)) [
    | none ↦ false
    | some h ↦ all_up replies (i + 1) urls
  ]

  abbrev answers : (ℕ → Option ℕ) → ℕ → Answer
  answers replies k = latest_height (replies k)

  -- `NewSDK`; `none` is a panic of the first round.
  unfoldable pub new_sdk :
      (ℕ → Option ℕ) → ℕ → List Text → ℕ → ℕ → Option (Option (PackageSdk (Client R)) × Bool)
  new_sdk replies chain_id urls interval max_gap =
      if all_up replies 0 urls
      then some
          (Package.new_sdk (config dial dial_raw) (answers replies) chain_id urls interval max_gap)
      else none

  unfoldable pub create : (ℕ → Option ℕ) → Options → Option (Option (PackageSdk (Client R)) × Bool)
  create replies o = new_sdk replies o.chain_id o.nodes o.interval o.max_gap

  -- `WithOptions`: an SDK that is stored already is found before any client is made.
  unfoldable pub with_options :
      (ℕ → Option ℕ)
      → Options
      → Instances (Client R)
      → Option (Option (PackageSdk (Client R)) × Bool × Instances (Client R))
  with_options replies o state =
      let done = Package.with_options (config dial dial_raw) (answers replies) o state in
      elim (lookup (Package.request_key (config dial dial_raw) o) state) [
        | some old ↦ some done
        | none ↦ if all_up replies 0 o.nodes then some done else none
      ]

-- The reply to `eth_getTransactionByHash`: an error, no transaction, or a transaction with its block
-- number, if it has one, as the text that the node sends.
pub data TxReply : Type 0 where
  unreachable : TxReply
  unknown : TxReply
  found : Option Text → TxReply

-- The number that hexadecimal digits stand for, most significant first; `none` where a byte is none.
unfoldable pub hex_from : ℕ → Text → Option ℕ
hex_from n [] = some n
hex_from n (c ∷ cs) = elim (hex_value c) [ none ↦ none | some d ↦ hex_from (n * 16 + d) cs ]

module _ (other : Text → ℕ) where
  -- `SetString` in base 16 and `Uint64`. `other` is what they make of a text that is not made of
  -- hexadecimal digits, of which the documentation leaves the value open.
  unfoldable pub block_number : Text → ℕ
  unfolding hex_from
  block_number [] = other []
  block_number (c ∷ cs) = elim (hex_from 0 (c ∷ cs)) [ none ↦ other (c ∷ cs) | some n ↦ n ] % 2 ^ 64

  -- The height, whether the transaction is pending, and whether an error is returned; `none` is the
  -- panic of slicing a text of less than two bytes.
  unfoldable pub get_tx_height : TxReply → Option (ℕ × Bool × Bool)
  get_tx_height unreachable = some (0, false, true)
  get_tx_height unknown = some (0, false, false)
  get_tx_height (found none) = some (0, true, false)
  get_tx_height (found (some (b ∷ x ∷ digits))) = some (block_number digits, false, false)
  get_tx_height (found (some _)) = none

  -- The results `height`, `confirms`, `pending`, and whether `err` is not nil.
  pub record Confirmed : Type 0 where
    pub height : ℕ
    pub confirms : ℕ
    pub pending : Bool
    pub bad : Bool

  -- The part of a round after `GetTxHeight`: the results so far, and whether the call returns.
  unfoldable pub check_depth : ℕ → ℕ → Bool → Bool → Answer → Confirmed × Bool
  check_depth blocks h pending bad latest =
      let (current, bad') : ℕ × Bool = elim latest [
        | height c ↦ (c, false)
        | failed v ↦ (v, true)
      ] in
      if h == 0
      then (record { height = h; confirms = 0; pending = pending; bad = bad }, false)
      else if blocks == 0
      then (record { height = h; confirms = 0; pending = pending; bad = bad }, true)
      else if leb h current
      then (
        record { height = h; confirms = current - h; pending = pending; bad = bad' },
        leb blocks (current - h),
      )
      else (record { height = h; confirms = 0; pending = pending; bad = bad' }, false)

  -- A round: the reply about the transaction, and the one about the latest block.
  unfoldable pub round : ℕ → TxReply × Option ℕ → Option (Confirmed × Bool)
  round blocks (tx, latest) = elim (get_tx_height tx) [
    | none ↦ none
    | some (h, pending, bad) ↦ some (check_depth blocks h pending bad (latest_height latest))
  ]

  -- `Confirm` of a client whose connections are there, with `count` rounds left, of which `rounds 0` is the next one; a count that is not
  -- positive is 0.
  unfoldable pub confirm_from : ℕ → (ℕ → TxReply × Option ℕ) → ℕ → Confirmed → Option Confirmed
  confirm_from zero rounds blocks last = some last
  confirm_from (suc count) rounds blocks last = elim (round blocks (rounds 0)) [
    | none ↦ none
    | some (c, true) ↦ some c
    | some (c, false) ↦ confirm_from count (λ i. rounds (suc i)) blocks c
  ]

  unfoldable pub confirm : (ℕ → TxReply × Option ℕ) → ℕ → ℕ → Option Confirmed
  unfolding confirm_from
  confirm rounds blocks count =
      confirm_from count rounds blocks
        (record { height = 0; confirms = 0; pending = false; bad = false })
