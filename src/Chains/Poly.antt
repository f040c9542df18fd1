-- ===== src/Chains/Poly.antt =====
-- The client of `chains/poly/poly.go` and its `SDK`. What the node replies is an argument.
pub mod Confirms
pub mod Heights
pub mod Keys
use bridge_common.Prelude.{
  ℕ, zero, suc, ◌+◌, ◌%◌, ◌^◌, Bool, true, false, not, List, [], ◌∷◌, ◌++◌, map, Option, none, some,
  length, if◌then◌else◌, ltb, leb, ◌==◌, add32, u32_mod,
}
use bridge_common.Prelude.Text.{Text, codes, lookup}
use bridge_common.Util.Bytes.{Bytes, concat}
use bridge_common.Chains.Sdk.{Answer, height, failed}
use bridge_common.Chains.Package
use bridge_common.Chains.Package.{Options, PackageSdk, PackageConfig, Instances}
use bridge_common.Chains.Storage.{Stored, denied, holds, Store, Native, put_le, get_le}

pub record Client (R : Type 0) : Type 0 where
  pub rpc : R
  pub address : Text

module _ {R : Type 0} (connect : Text → R) where
  -- `New`, by the id of the chain in the header of the first block, or an error in its place: the
  -- client, and what `_POLY_ID` is set to.
  unfoldable pub new : Text → Option ℕ → ℕ → Option (Client R) × ℕ
  new url none poly_id = (none, poly_id)
  new url (some id) poly_id = (some (record { rpc = connect url; address = url }), id)

  abbrev pub config : PackageConfig (Client R)
  config = record {
    new_client = λ url. record { rpc = connect url; address = url };
    address = λ c. c.address;
    type_name = codes "*poly.SDK";
    key_prefix = [];
    keeps_failed = true;
  }

  unfoldable pub all_up : (Text → Option ℕ) → List Text → Bool
  all_up genesis [] = true
  all_up genesis (url ∷ urls) = elim (new url (genesis url) 0).0 [
    | none ↦ false
    | some c ↦ all_up genesis urls
  ]

  -- `NewSDK`. `none` is a panic: a client that `New` did not make is a nil pointer, which the first
  -- round of polling follows.
  unfoldable pub new_sdk :
      (Text → Option ℕ)
      → (ℕ → Answer)
      → ℕ
      → List Text
      → ℕ
      → ℕ
      → Option (Option (PackageSdk (Client R)) × Bool)
  new_sdk genesis answer chain_id urls interval max_gap =
      if all_up genesis urls
      then some (Package.new_sdk config answer chain_id urls interval max_gap)
      else none

  unfoldable pub create :
      (Text → Option ℕ) → (ℕ → Answer) → Options → Option (Option (PackageSdk (Client R)) × Bool)
  create genesis answer o = new_sdk genesis answer o.chain_id o.nodes o.interval o.max_gap

  -- `WithOptions`: an SDK that is stored already is found before any client is made.
  unfoldable pub with_options :
      (Text → Option ℕ)
      → (ℕ → Answer)
      → Options
      → Instances (Client R)
      → Option (Option (PackageSdk (Client R)) × Bool × Instances (Client R))
  with_options genesis answer o state = elim (lookup (Package.request_key config o) state) [
    | some old ↦ some (Package.with_options config answer o state)
    | none ↦
        if all_up genesis o.nodes then some (Package.with_options config answer o state) else none
  ]

  abbrev pub key : PackageSdk (Client R) → Option Text
  key = Package.key config

  abbrev pub node : PackageSdk (Client R) → Option (Client R)
  node = Package.node

  abbrev pub select_node : PackageSdk (Client R) → Option (Client R × PackageSdk (Client R))
  select_node = Package.select_node

-- `GetCurrentBlockHeight` gives a height also beside an error.
unfoldable pub get_latest_height : ℕ × Bool → Answer
get_latest_height (h, false) = height h
get_latest_height (h, true) = failed h

-- A round of `Confirm`: the replies to `GetBlockHeightByTxHash` and `GetCurrentBlockHeight`, both
-- `uint32` values, or errors. `some` is the height that is returned.
unfoldable pub settled : ℕ → Option ℕ × Option ℕ → Option ℕ
settled blocks (none, latest) = none
settled zero (some h, latest) = some h
settled (suc b) (some h, none) = none
settled (suc b) (some h, some current) =
    if leb (add32 h (suc b % u32_mod)) current then some h else none

-- Whether the round leaves an error in `err`.
unfoldable pub leaves_error : Option ℕ × Option ℕ → Bool
leaves_error (none, latest) = true
leaves_error (some h, none) = true
leaves_error (some h, some current) = false

-- The loop with `count` rounds left, of which `rounds 0` is the next one: the height, and whether
-- an error is returned. A count that is not positive is 0.
unfoldable pub confirm_from : ℕ → (ℕ → Option ℕ × Option ℕ) → ℕ → Bool → ℕ × Bool
confirm_from zero rounds blocks bad = (0, bad)
confirm_from (suc count) rounds blocks bad =
    let rest = confirm_from count (λ i. rounds (suc i)) blocks (leaves_error (rounds 0)) in
    elim (settled blocks (rounds 0)) [ some h ↦ (h, false) | none ↦ rest ]

unfoldable pub confirm : (ℕ → Option ℕ × Option ℕ) → ℕ → ℕ → ℕ × Bool
unfolding confirm_from
confirm rounds blocks count = confirm_from count rounds blocks false

-- The height in a stored value: eight bytes if there are so many, or else four.
unfoldable pub stored_height : Bytes → Option ℕ
stored_height bs = if ltb 7 (length bs) then get_le 8 bs else get_le 4 bs

module _ (native : Native) (store : Store) where
  unfoldable pub get_done_tx : ℕ → Bytes → Stored
  get_done_tx chain_id cc_id =
      store native.cross_chain_manager ((native.done_tx ++ native.uint64_bytes chain_id) ++ cc_id)

  unfoldable pub get_side_chain_header : ℕ → ℕ → Stored
  get_side_chain_header chain_id h =
      store native.header_sync
        ((native.main_chain ++ native.uint64_bytes chain_id) ++ native.uint64_bytes h)

  unfoldable pub get_side_chain_header_index : ℕ → ℕ → Stored
  get_side_chain_header_index chain_id h =
      store native.header_sync
        ((native.header_index ++ native.uint64_bytes chain_id) ++ native.uint32_bytes (h % u32_mod))

  -- The height, which is read from what comes beside an error too, and whether there is one.
  unfoldable pub get_side_chain_consensus_block_height : ℕ → ℕ × Bool
  get_side_chain_consensus_block_height chain_id =
      let key = concat (native.consensus_peer_block_height ∷ native.uint64_bytes chain_id ∷ []) in
      elim (store native.header_sync key) [
        | denied ↦ (native.bytes_uint64 none, true)
        | holds res ↦ (native.bytes_uint64 res, false)
      ]

  unfoldable pub get_side_chain_consensus_peer : ℕ → Stored
  get_side_chain_consensus_peer chain_id =
      store native.header_sync (concat (native.consensus_peer ∷ native.uint64_bytes chain_id ∷ []))

  unfoldable pub get_side_chain_consensus_height : ℕ → ℕ × Bool
  get_side_chain_consensus_height chain_id =
      elim (store native.header_sync (native.consensus_peer ++ put_le 8 chain_id)) [
        | denied ↦ (0, true)
        | holds res ↦ elim (native.neo_height res) [ none ↦ (0, true) | some h ↦ (h, false) ]
      ]

  unfoldable pub get_side_chain_msg : ℕ → ℕ → Stored
  get_side_chain_msg chain_id h = store native.header_sync (
      concat (
        native.cross_chain_msg
        ∷ native.uint64_bytes chain_id
        ∷ native.uint32_bytes (h % u32_mod)
        ∷ []))

  unfoldable pub get_side_chain_msg_height : ℕ → ℕ × Bool
  get_side_chain_msg_height chain_id =
      elim (store native.header_sync (native.current_msg_height ++ native.uint64_bytes chain_id)) [
        | denied ↦ (0, true)
        | holds none ↦ (0, false)
        | holds (some []) ↦ (0, false)
        | holds (some (b ∷ bs)) ↦ (native.bytes_uint32 (b ∷ bs), false)
      ]

  -- `GetSideChainHeight`, on a build where NEO has the id `neo`; `none` is a panic.
  unfoldable pub get_side_chain_height : ℕ → ℕ → Option (ℕ × Bool)
  get_side_chain_height neo chain_id =
      if chain_id == neo
      then some (get_side_chain_consensus_height chain_id)
      else elim (store native.header_sync (native.current_header_height ++ put_le 8 chain_id)) [
        | denied ↦ some (0, true)
        | holds none ↦ some (0, false)
        | holds (some bs) ↦ elim (stored_height bs) [ none ↦ none | some h ↦ some (h, false) ]
      ]

  unfoldable pub get_side_chain_epoch : ℕ → Stored
  get_side_chain_epoch chain_id =
      store native.header_sync (native.epoch_switch ++ native.uint64_bytes chain_id)

  unfoldable pub get_side_chain_epoch_with_height : ℕ → ℕ → Stored
  get_side_chain_epoch_with_height chain_id h =
      store native.cross_chain_manager
        (concat (native.epoch_switch ∷ native.uint64_bytes chain_id ∷ native.uint64_bytes h ∷ []))
