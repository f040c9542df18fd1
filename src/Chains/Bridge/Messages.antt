-- ===== src/Chains/Bridge/Messages.antt =====
-- What the requests of `chains/bridge/tx.go`, `chains/bridge/fee.go` and `chains/bridge/token.go` send
-- and receive, and the new values that the responses are decoded into.
use bridge_common.Prelude.{ℕ, List, [], Option, none}
use bridge_common.Prelude.Int.{ℤ, pos}
use bridge_common.Prelude.Text.{Text}
use bridge_common.Tools.Ding.{Web}
use bridge_common.Chains.Bridge.{Client}
use bridge_common.Chains.Bridge.Requests
use bridge_common.Chains.Bridge.Requests.{Asked}

pub record CheckTxRequest : Type 0 where
  pub hash : Text

-- The types of the fields `Token` and `TransactionState` of a response.
pub record TxToken : Type 0 where
  pub hash : Text
  pub chain_id : ℕ
  pub name : Text
  pub token_basic_name : Text

pub record TxState : Type 0 where
  pub hash : Text
  pub chain_id : ℕ
  pub blocks : ℕ
  pub need_blocks : ℕ
  pub time : ℤ

pub record CheckTxResponse : Type 0 where
  pub hash : Text
  pub src_chain_id : ℕ
  pub dst_chain_id : ℕ
  pub block_height : ℕ
  pub time : ℤ
  pub user : Text
  pub fee_amount : Text
  pub transfer_amount : Text
  pub dst_user : Text
  pub token : Option TxToken
  pub transaction_state : List (Option TxState)

-- `new(CheckTxResponse)`
abbrev pub new_check_tx_response : CheckTxResponse
new_check_tx_response = record {
  hash = [];
  src_chain_id = 0;
  dst_chain_id = 0;
  block_height = 0;
  time = pos 0;
  user = [];
  fee_amount = [];
  transfer_amount = [];
  dst_user = [];
  token = none;
  transaction_state = [];
}

pub record TxBody : Type 0 where
  pub chainid : ℕ
  pub txhash : Text

pub record TxResponse : Type 0 where
  pub fchaintx : Option TxBody
  pub mchaintx : Option TxBody
  pub tchaintx : Option TxBody

-- `new(TxResponse)`
abbrev pub new_tx_response : TxResponse
new_tx_response = record { fchaintx = none; mchaintx = none; tchaintx = none }

pub record GetFeeRequest : Type 0 where
  pub src_chain_id : ℕ
  pub dst_chain_id : ℕ
  pub swap_token_hash : Text
  pub hash : Text

pub record GetFeeResponse : Type 0 where
  pub src_chain_id : ℕ
  pub dst_chain_id : ℕ
  pub swap_token_hash : Text
  pub token_amount : Text
  pub usdt_amount : Text
  pub token_amount_with_precision : Text
  pub balance : Text
  pub balance_with_precision : Text

-- `new(GetFeeResponse)`
abbrev pub new_get_fee_response : GetFeeResponse
new_get_fee_response = record {
  src_chain_id = 0;
  dst_chain_id = 0;
  swap_token_hash = [];
  token_amount = [];
  usdt_amount = [];
  token_amount_with_precision = [];
  balance = [];
  balance_with_precision = [];
}

pub record TokenBasic : Type 0 where
  pub price : Text
  pub precision : ℤ

pub record TokenRequest : Type 0 where
  pub chain_id : ℕ
  pub hash : Text
  pub name : Text
  pub token_basic_name : Text
  pub token_basic : Option TokenBasic

-- The methods at these types.
abbrev pub check_tx :
    Web CheckTxRequest CheckTxResponse → Client → CheckTxRequest → Asked CheckTxResponse
check_tx web c req = Requests.check_tx web new_check_tx_response c req

abbrev pub fetch_tx : Web CheckTxRequest TxResponse → Client → CheckTxRequest → Asked TxResponse
fetch_tx web c req = Requests.fetch_tx web new_tx_response c req.hash

abbrev pub get_fee :
    Web GetFeeRequest GetFeeResponse → Client → GetFeeRequest → Asked GetFeeResponse
get_fee web c req = Requests.get_fee web new_get_fee_response c req
