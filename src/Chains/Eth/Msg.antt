-- ===== src/Chains/Eth/Msg.antt =====
-- `chains/eth/msg.go`, and `GetProof` of `chains/eth/eth.go`. Hashes and addresses are bytes.
use bridge_common.Prelude.{
  ℕ, ◌-◌, ◌^◌, Bool, true, false, List, [], ◌∷◌, Option, none, some, replicate, if◌then◌else◌, ltb,
}
use bridge_common.Prelude.Int.{ℤ, pos, negsuc}
use bridge_common.Prelude.Text.{Text, codes, text_eq}
use bridge_common.Util.Bytes.{Bytes}

pub record StorageProof : Type 0 where
  pub key : Text
  pub value : Text
  pub proof : List Text

pub record EthProof : Type 0 where
  pub address : Text
  pub balance : Text
  pub code_hash : Text
  pub nonce : Text
  pub storage_hash : Text
  pub account_proof : List Text
  pub storage_proofs : List StorageProof

pub record TxExtraInfo : Type 0 where
  pub block_number : Option Text
  pub block_hash : Option Bytes
  pub from : Option Bytes

-- `T` is the type of transactions.
pub record RpcTransaction (T : Type 0) : Type 0 where
  pub tx : Option T
  pub extra : TxExtraInfo

pub record SenderFromServer : Type 0 where
  pub addr : Bytes
  pub blockhash : Bytes

-- `Equal`; a signer of another type is `none`.
unfoldable pub equal : SenderFromServer → Option SenderFromServer → Bool
equal s none = false
equal s (some other) = text_eq other.blockhash s.blockhash

abbrev pub no_hash : Bytes
no_hash = replicate 32 0

-- `Sender`: the address, and whether an error is returned.
unfoldable pub sender : SenderFromServer → Bytes × Bool
sender s = if text_eq s.blockhash no_hash then (replicate 20 0, true) else (s.addr, false)

-- `int64` of a `uint64` value.
unfoldable pub to_int64 : ℕ → ℤ
to_int64 n = if ltb n (2 ^ 63) then pos n else negsuc (2 ^ 64 - n - 1)

-- `GetProof`. `call` is `CallContext`, by the method and its arguments: what it leaves in the proof, and
-- the error; `encode_big` is `hexutil.EncodeBig`.
unfoldable pub get_proof :
    {E : Type 0}
    → (Text → Text → List Text → Text → Option EthProof × E)
    → (ℤ → Text)
    → Text
    → Text
    → ℕ
    → Option EthProof × E
unfolding to_int64
get_proof call encode_big addr key height =
    call (codes "eth_getProof") addr (key ∷ []) (encode_big (to_int64 height))
