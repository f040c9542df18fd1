-- ===== src/Wallet/Send.antt =====
-- Sending a transaction: `sendWithAccount` of `wallet/wallet.go`, and `SendWithAccount` of
-- `wallet/eth.go` for chains with the London upgrade. What the node, the signer and the nonce provider
-- answer are arguments, and every call that reaches outside is an entry of the trace.
pub mod Nonces
pub mod Effects
pub mod Limits
pub mod Kinds
pub mod Served
pub mod Panics
pub mod Usable
pub mod Rounds
use bridge_common.Prelude.{
  ℕ, ◌≡◌, Bool, true, false, List, [], ◌∷◌, ◌++◌, Option, none, some, if◌then◌else◌, ltb, ◌==◌,
}
use bridge_common.Prelude.Int.{ℤ, pos, is_positive, mul_ℕ, quo_ℕ}
use mathlib.Core.Option
use bridge_common.Wallet.Gas.{get_chain_gas_limit}
use bridge_common.Prelude.Text.{Text}

-- A result of Go with an error, whose text is kept.
pub data Reply (A : Type 0) : Type 0 where
  fine : A → Reply A
  bad : Text → Reply A

-- What the call is given: `D` is the type of the target and the data, `X` of a `big.Float`.
pub record Request (D X : Type 0) : Type 0 where
  pub payload : D
  pub amount : ℤ
  pub gas_limit : ℕ
  pub gas_price : Option ℤ
  pub gas_price_x : Option X

-- The fields of the transaction that the wallet fills in; a legacy transaction has no cap.
pub record Tx (D : Type 0) : Type 0 where
  pub nonce : ℕ
  pub gas : ℕ
  pub price : ℤ
  pub fee_cap : Option ℤ
  pub amount : ℤ
  pub payload : D

-- What the code asks of others. `mul_float` is the product of a `big.Int` and a `big.Float`, rounded
-- towards zero; `scale` is `uint64(1.3 * float32(gasLimit))`. `H` is the type of hashes.
pub record Outside (D X H : Type 0) : Type 0 where
  pub suggest_gas_price : Reply ℤ
  pub suggest_gas_tip : Reply ℤ
  pub acquire : Reply ℕ
  -- By the value, the price or tip, and the cap of the message.
  pub estimate_gas : D → ℤ → ℤ → Option ℤ → Reply ℕ
  pub sign : Tx D → Reply H
  pub submit : H → Option Text
  pub mul_float : ℤ → X → ℤ
  pub scale : ℕ → ℕ
  -- `strings.Contains(err.Error(), "has been executed")`
  pub has_been_executed : Text → Bool

-- The calls that change something outside.
pub data Effect (D H : Type 0) : Type 0 where
  acquired : ℕ → Effect D H
  updated : Bool → Effect D H
  submitted : Tx D → H → Effect D H

pub data SendError : Type 0 where
  gas_tip_error gas_price_error nonce_error estimate_error sign_error submit_error :
      Text → SendError
  limit_exceeded : ℕ → ℕ → SendError

-- The results `hash` and `err`, where no hash stands for the empty text, or a panic.
pub data Exit (H : Type 0) : Type 0 where
  returns : Option H → Option SendError → Exit H
  panics : Exit H

-- A step either goes on with a value or ends the call; the trace grows.
pub data Flow (H A : Type 0) : Type 0 where
  goes : A → Flow H A
  ends : Exit H → Flow H A

abbrev pub M : Type 0 → Type 0 → Type 0 → Type 0
M D H A = List (Effect D H) × Flow H A

module _ {D H : Type 0} where
  infixl 5 ◌>>=◌ ◌>>◌
  abbrev pub ◌>>=◌ : {A B : Type 0} → M D H A → (A → M D H B) → M D H B
  (es, goes a) >>= f = let (es', r) = f a in (es ++ es', r)
  (es, ends x) >>= f = (es, ends x)

  abbrev pub ◌>>◌ : {B : Type 0} → M D H (Unit {0}) → M D H B → M D H B
  m >> k = m >>= λ _. k

  abbrev pub pure : {A : Type 0} → A → M D H A
  pure a = ([], goes a)

  abbrev pub emit : Effect D H → M D H (Unit {0})
  emit e = (e ∷ [], goes tt)

  abbrev pub give : {A : Type 0} → Option H → Option SendError → M D H A
  give hash err = ([], ends (returns hash err))

  abbrev pub fail : {A : Type 0} → SendError → M D H A
  fail err = give none (some err)

  abbrev pub check : {A : Type 0} → (Text → SendError) → Reply A → M D H A
  check wrap (fine a) = pure a
  check wrap (bad t) = fail (wrap t)

-- `gasPrice == nil || gasPrice.Sign() <= 0` asks for the suggested price.
unfoldable pub given_price : Option ℤ → Option ℤ
given_price none = none
given_price (some p) = if is_positive p then some p else none

module _ {D X H : Type 0} (o : Outside D X H) where
  unfoldable pub times : Option X → ℤ → ℤ
  times none p = p
  times (some x) p = o.mul_float p x

  price_from : (Text → SendError) → Option ℤ → Reply ℤ → Option X → M D H ℤ
  price_from wrap (some p) suggested x = pure p
  price_from wrap none (bad t) x = fail (wrap t)
  price_from wrap none (fine p) x = pure (times x p)

  -- The price, or tip, of the request if it is positive, or else the suggested one, times the factor
  -- of the request if there is one.
  unfoldable pub price_of : (Text → SendError) → Reply ℤ → Request D X → M D H ℤ
  unfolding price_from
  price_of wrap suggested r = price_from wrap (given_price r.gas_price) suggested r.gas_price_x

module _ {D H : Type 0} where
  -- `GetAccount` and `Acquire`. The flag tells whether the account has a nonce provider; without one
  -- the code calls a method of a nil interface.
  unfoldable pub acquire_nonce : Bool → Reply ℕ → M D H ℕ
  acquire_nonce false answer = ([], ends panics)
  acquire_nonce true (bad t) = fail (nonce_error t)
  acquire_nonce true (fine n) = do emit (acquired n); pure n

  -- What follows an error of the estimate, by whether the transaction has been executed.
  unfoldable pub estimate_failed : Bool → Text → M D H ℕ
  estimate_failed true t = do emit (updated false); give none none
  estimate_failed false t = do emit (updated false); fail (estimate_error t)

module _ {D X H : Type 0} (o : Outside D X H) where
  estimate_from : Reply ℕ → M D H ℕ
  unfolding estimate_failed
  estimate_from (fine gas) = pure gas
  estimate_from (bad t) = estimate_failed (o.has_been_executed t) t

  -- The gas limit of the request, or the estimate for a message of this value, price and cap.
  unfoldable pub gas_of : ℤ → ℤ → Option ℤ → Request D X → M D H ℕ
  unfolding estimate_from
  gas_of value price fee_cap r =
      if r.gas_limit == 0
      then estimate_from (o.estimate_gas r.payload value price fee_cap)
      else pure r.gas_limit

  signed_from : Tx D → Reply H → M D H (Unit {0})
  signed_from tx (bad t) = do emit (updated false); fail (sign_error t)
  signed_from tx (fine hash) = do
    emit (submitted tx hash)
    emit (updated true)
    give (some hash) (Option.map submit_error (o.submit hash))

  -- From the scaling of the gas limit on: the limits, the signature and the submission. `limits` is
  -- the map `softGasLimits`.
  unfoldable pub submit_tx :
      List (ℕ × ℕ) → ℕ → ℕ → ℤ → Option ℤ → ℕ → Request D X → M D H (Unit {0})
  unfolding signed_from
  submit_tx limits chain nonce price fee_cap gas r =
      let scaled = o.scale gas in
      let limit = get_chain_gas_limit limits chain scaled in
      let tx : Tx D = record {
        nonce = nonce;
        gas = limit;
        price = price;
        fee_cap = fee_cap;
        amount = r.amount;
        payload = r.payload;
      } in
      if ltb limit scaled
      then (do emit (updated false); fail (limit_exceeded scaled limit))
      else signed_from tx (o.sign tx)

-- The cap of a London transaction, three times the suggested price.
abbrev pub fee_cap_of : ℤ → ℤ
fee_cap_of suggested = quo_ℕ (mul_ℕ suggested 30) 10

module _ {D X H : Type 0} (o : Outside D X H) where
  -- `Wallet.sendWithAccount`
  unfoldable pub send_with_account : Bool → List (ℕ × ℕ) → ℕ → Bool → Request D X → M D H (Unit {0})
  send_with_account dry limits chain known r = do
    price ← price_of o gas_price_error o.suggest_gas_price r
    nonce ← acquire_nonce known o.acquire
    gas ← gas_of o r.amount price none r
    if dry then give none none else submit_tx o limits chain nonce price none gas r

  -- `EthWallet.SendWithAccount`; the message whose gas is estimated has the value 0.
  unfoldable pub eth_send_with_account : List (ℕ × ℕ) → ℕ → Bool → Request D X → M D H (Unit {0})
  eth_send_with_account limits chain known r = do
    tip ← price_of o gas_tip_error o.suggest_gas_tip r
    suggested ← check gas_price_error o.suggest_gas_price
    let fee_cap = fee_cap_of suggested
    nonce ← acquire_nonce known o.acquire
    gas ← gas_of o (pos 0) tip (some fee_cap) r
    submit_tx o limits chain nonce tip (some fee_cap) gas r
