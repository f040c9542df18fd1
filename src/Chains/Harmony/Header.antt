-- ===== src/Chains/Harmony/Header.antt =====
-- `chains/harmony/msg.go`, and `HeaderByNumber` of `chains/harmony/harmony.go`.
use bridge_common.Prelude.{ℕ, Bool, true, false, [], ◌∷◌, Option, none, some}
use bridge_common.Prelude.Int.{ℤ}
use bridge_common.Prelude.Text.{Text}
use bridge_common.Util.Bytes.{Bytes, hex_decode}

pub record HeaderWithSig : Type 0 where
  pub header_rlp : Bytes
  pub sig : Bytes
  pub bitmap : Bytes

-- `Encode`, where `encode_to_bytes` is the function of the library rlp.
unfoldable pub encode : {E : Type 0} → (HeaderWithSig → Bytes × E) → HeaderWithSig → Bytes × E
encode encode_to_bytes hs = encode_to_bytes hs

-- Hashes and addresses are bytes; a `*big.Int` may be nil.
pub record Header : Type 0 where
  pub parent_hash : Bytes
  pub coinbase : Bytes
  pub root : Bytes
  pub tx_hash : Bytes
  pub receipt_hash : Bytes
  pub outgoing_receipt_hash : Bytes
  pub incoming_receipt_hash : Bytes
  pub number : Option ℤ
  pub gas_limit : ℕ
  pub gas_used : ℕ
  pub extra : Text
  pub mix_digest : Bytes
  pub view_id : Option ℤ
  pub epoch : Option ℤ
  pub shard_id : ℕ
  pub last_commit_signature : Text
  pub last_commit_sig : Text
  pub last_commit_bitmap : Text
  pub vrf : Text
  pub vdf : Text
  pub shard_state : Text

-- The text that `GetLastCommitSignature` decodes.
unfoldable pub signature_text : Text → Text → Text
signature_text [] last_commit_sig = last_commit_sig
signature_text (c ∷ cs) last_commit_sig = c ∷ cs

unfoldable pub get_last_commit_signature : Header → Bytes × Bool
unfolding signature_text
get_last_commit_signature h = hex_decode (signature_text h.last_commit_signature h.last_commit_sig)

unfoldable pub get_last_commit_bitmap : Header → Bytes × Bool
get_last_commit_bitmap h = hex_decode h.last_commit_bitmap

-- The result of `HeaderByNumber`, by the JSON text of the node's result, or an error: the header, nil or
-- not, and whether an error is returned. `unmarshal` is `json.Unmarshal`.
unfoldable pub header_by_number : (Text → Option Header) → Option Text → Option Header × Bool
header_by_number unmarshal none = (none, true)
header_by_number unmarshal (some text) = elim (unmarshal text) [
  | none ↦ (none, true)
  | some header ↦ (some header, false)
]
