-- ===== src/Wallet/Send/Limits.antt =====
-- The gas and the contents of the transactions that `wallet/wallet.go` and `wallet/eth.go` submit.
use bridge_common.Prelude.{ℕ, ◌≤◌, ◌≡◌, ◌⊎◌, refl, Bool, List, Option, none, some, All, arith}
use bridge_common.Prelude.Int.{ℤ}
use bridge_common.Wallet.Gas.{soft_gas_limit, hard_gas_limit, get_chain_gas_limit_lem}
use bridge_common.Wallet.Send.{
  Request, Tx, Outside, Effect, acquired, updated, submitted, send_with_account,
  eth_send_with_account,
}
use bridge_common.Wallet.Send.Effects.{send_with_account-All, eth_send_with_account-All}
use bridge_common.Wallet.Send.Nonces.{tx_of}

-- A transaction with the amount and the payload of the request, and a gas limit within the limits of
-- the chain.
pub record IsAllowed {D X : Type 0} (limits : List (ℕ × ℕ)) (chain : ℕ) (r : Request D X)
    (tx : Tx D) : Type 0 where
  pub hard : tx.gas ≤ hard_gas_limit chain
  pub soft : (soft_gas_limit chain limits ≡ 0) ⊎ (tx.gas ≤ soft_gas_limit chain limits)
  pub amount : tx.amount ≡ r.amount
  pub payload : tx.payload ≡ r.payload

module _ {D X H : Type 0} (o : Outside D X H) (limits : List (ℕ × ℕ)) (chain : ℕ)
    (r : Request D X) where
  -- Whether an effect, if it is a submission, is one of an allowed transaction.
  abbrev pub Allows : Effect D H → Type 0
  Allows (acquired n) = Unit
  Allows (updated success) = Unit
  Allows (submitted tx hash) = IsAllowed limits chain r tx

  tx_of-IsAllowed :
      (nonce : ℕ) (price : ℤ) (fee_cap : Option ℤ) (gas : ℕ)
      → IsAllowed limits chain r (tx_of o limits chain nonce price fee_cap gas r)
  tx_of-IsAllowed nonce price fee_cap gas =
      let (asked, hard, soft) =
        (get_chain_gas_limit_lem limits chain (o.scale gas) _).0 (omega arith) in
      record { hard = hard; soft = soft; amount = refl; payload = refl }

  -- Whatever `sendWithAccount` submits has the amount and the payload of the request, and a gas limit
  -- that is at most the hard limit of the chain, and at most its soft limit if one is set.
  pub send_with_account-Allows :
      (dry known : Bool) → All Allows (send_with_account o dry limits chain known r).0
  send_with_account-Allows dry known =
      send_with_account-All Allows (λ n. tt) (λ success. tt) o limits chain r dry known
        (λ price nonce gas h. tx_of-IsAllowed nonce price none gas)

  -- Whatever the London wallet submits is allowed in the same way.
  pub eth_send_with_account-Allows :
      (known : Bool) → All Allows (eth_send_with_account o limits chain known r).0
  eth_send_with_account-Allows known =
      eth_send_with_account-All Allows (λ n. tt) (λ success. tt) o limits chain r known
        (λ tip cap nonce gas h. tx_of-IsAllowed nonce tip (some cap) gas)
