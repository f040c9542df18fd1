-- ===== src/Wallet/Nonce.antt =====
-- `wallet/nonce.go`: nonce providers, and the one that asks the node.
pub mod Sequence
pub mod Rounds
use bridge_common.Prelude.{ℕ, Bool}
use bridge_common.Wallet.Send.{Reply}

-- The interface, over the state that a provider reads and changes; `Acquire` only reads it, as that of
-- the one provider of the source does.
pub record NonceProvider (S : Type 0) : Type 0 where
  pub acquire : S → Reply ℕ
  pub update : Bool → S → S

-- What a node answers to `NonceAt` at its latest block, for every address. `K` is the type of
-- addresses.
abbrev pub Confirmed : Type 0 → Type 0
Confirmed K = K → Reply ℕ

unfoldable pub new_remote_nonce_provider : {K : Type 0} → K → NonceProvider (Confirmed K)
new_remote_nonce_provider address = record {
  acquire = λ confirmed. confirmed address;
  update = λ success confirmed. confirmed;
}
