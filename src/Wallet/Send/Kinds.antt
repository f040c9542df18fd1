-- ===== src/Wallet/Send/Kinds.antt =====
-- Legacy transactions and those of the London upgrade: what `Send` of `wallet/wallet.go` submits, which
-- the wallet that `Upgrade` makes inherits, and what `SendWithAccount` of `wallet/eth.go` submits.
use bridge_common.Prelude.{
  ℕ, ◌≡◌, refl, false, List, none, some, All, Option-cases, inl, inr, get_elem?,
}
use bridge_common.Prelude.Int.{ℤ}
use bridge_common.Prelude.Keyed.{Eq}
use bridge_common.Wallet.Accounts.{Wallet, select, get_account}
use bridge_common.Wallet.Send.{
  Request, Outside, Effect, acquired, updated, submitted, eth_send_with_account,
}
use bridge_common.Wallet.Send.Effects.{send_with_account-All, eth_send_with_account-All}
use bridge_common.Wallet.Accounts.RoundRobin.{select_next}
use bridge_common.Wallet.Send.Served.{
  IsServed, SubmitsOne, send_with_account-SubmitsOne, eth_send_with_account-SubmitsOne,
}
use bridge_common.Wallet.Send.Usable.{IsUsable}
use bridge_common.Wallet.Send.Rounds.{is_some, call_with_account, send}

module _ {D H : Type 0} where
  -- If the effect is a submission, the transaction has no fee cap.
  abbrev pub IsLegacy : Effect D H → Type 0
  IsLegacy (acquired n) = Unit
  IsLegacy (updated success) = Unit
  IsLegacy (submitted tx hash) = tx.fee_cap ≡ none

  -- If it is one, the transaction has a fee cap.
  abbrev pub IsLondon : Effect D H → Type 0
  IsLondon (acquired n) = Unit
  IsLondon (updated success) = Unit
  IsLondon (submitted tx hash) = (cap : ℤ) × (tx.fee_cap ≡ some cap)

module _ {A P N D X H : Type 0} ⦃e : Eq A⦄ (o : A → Outside D X H) (limits : List (ℕ × ℕ)) where
  send-IsLegacy : (r : Request D X) (w : Wallet A P N) → All IsLegacy (send o limits r w).0.0
  unfolding send call_with_account
  send-IsLegacy r w = elim (Option-cases (select w)) [
    | inl stuck ↦ rw (stuck, send) tt
    | inr (((a, provider, kept), w'), chosen) ↦
        rw (chosen, send)
          (send_with_account-All IsLegacy (λ n. tt) (λ success. tt) (o a) limits w'.chain_id r false
            _ (λ price nonce gas h. refl))
  ]

  -- `SendWithAccount` of the upgraded wallet submits only transactions with a fee cap, and `Send`, which
  -- it takes over from the wallet, only legacy ones.
  pub upgraded-All :
      (r : Request D X) (w : Wallet A P N) (account : A)
      → All IsLegacy (send o limits r w).0.0
        × All IsLondon
            (eth_send_with_account
              (o account)
              limits
              w.chain_id
              (is_some (get_account account w).1)
              r).0
  upgraded-All r w account = (
    send-IsLegacy r w,
    eth_send_with_account-All IsLondon (λ n. tt) (λ success. tt) (o account) limits w.chain_id r _
        (λ tip cap nonce gas h. (cap, refl)),
  )

  -- The upgraded wallet submits transactions of both kinds. Where a wallet is usable, as after `Init`,
  -- and every account is served and signs, within the limits on gas, a call of `Send` acquires the
  -- nonce of the next account of the round, submits one transaction with it, without a fee cap, and
  -- marks it as used; and a call of `SendWithAccount` of the upgraded wallet, with an account of the
  -- list, does the same with a transaction that has a fee cap.
  pub upgraded-kinds :
      (r : Request D X) (w : Wallet A P N) (nonce : A → ℕ) (k : ℕ) (account : A)
      → IsUsable w
      → ((a : A) → IsServed (o a) limits w.chain_id r (nonce a))
      → get_elem? w.accounts k ≡ some account
      → ((a : A) × (get_elem? w.accounts w.cursor ≡ some a)
          × SubmitsOne
              (o a)
              limits
              w.chain_id
              r
              (λ tx. tx.fee_cap ≡ none)
              (nonce a)
              (send o limits r w).0)
        × SubmitsOne
            (o account)
            limits
            w.chain_id
            r
            (λ tx. (cap : ℤ) × (tx.fee_cap ≡ some cap))
            (nonce account)
            (eth_send_with_account
              (o account)
              limits
              w.chain_id
              (is_some (get_account account w).1)
              r)
  unfolding send call_with_account get_account
  upgraded-kinds r w nonce k account usable served at =
      let (a, next, chosen) = select_next w usable.in_range in
      (
        (
          a,
          next,
          rw (chosen, send, usable.counted w.cursor a next)
              (send_with_account-SubmitsOne (o a) limits w.chain_id r (served a)),
        ),
        rw (usable.counted k account at)
            (eth_send_with_account-SubmitsOne (o account) limits w.chain_id r (served account)),
      )
