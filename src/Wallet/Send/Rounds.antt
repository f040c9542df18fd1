-- ===== src/Wallet/Send/Rounds.antt =====
-- `Send`, `SendWithAccount` and `EstimateWithAccount` of `wallet/wallet.go`, over the state of the
-- wallet. What a call asks of others depends on the account.
use bridge_common.Prelude.{ℕ, Bool, true, false, List, [], Option, none, some}
use bridge_common.Prelude.Keyed.{Eq}
use bridge_common.Wallet.Accounts.{Wallet, select, get_account}
use bridge_common.Wallet.Send.{Request, Outside, panics, ends, M, send_with_account}

abbrev pub is_some : {A : Type 0} → Option A → Bool
is_some none = false
is_some (some a) = true

module _ {A P N D X H : Type 0} ⦃e : Eq A⦄ (o : A → Outside D X H) (limits : List (ℕ × ℕ)) where
  unfoldable pub call_with_account : Bool → A → Request D X → Wallet A P N → M D H (Unit {0})
  call_with_account dry account r w =
      send_with_account (o account) dry limits w.chain_id (is_some (get_account account w).1) r

  abbrev pub estimate_with_account : A → Request D X → Wallet A P N → M D H (Unit {0})
  estimate_with_account = call_with_account true

  -- `Send` takes the next account of the round, whatever becomes of the call; without accounts it
  -- panics.
  unfoldable pub send : Request D X → Wallet A P N → M D H (Unit {0}) × Wallet A P N
  send r w = elim (select w) [
    | none ↦ (([], ends panics), w)
    | some ((account, provider, kept), w') ↦ (call_with_account false account r w', w')
  ]
