-- ===== src/Wallet/Send/Effects.antt =====
-- What holds of every effect of a call of `sendWithAccount` of `wallet/wallet.go` or `SendWithAccount`
-- of `wallet/eth.go`, because it holds of the transaction that the call would submit.
use bridge_common.Prelude.{
  ℕ, Bool, true, false, List, Option, none, some, inl, inr, All, subst, sym, if◌then◌else◌,
}
use bridge_common.Prelude.Int.{ℤ, pos}
use bridge_common.Wallet.Send.{
  Request, Reply, Outside, Effect, acquired, updated, submitted, M, ◌>>=◌, check, price_of,
  acquire_nonce, fee_cap_of, give, submit_tx, send_with_account, eth_send_with_account,
  gas_price_error, gas_tip_error,
}
use bridge_common.Wallet.Send.Nonces.{
  Quiet, check-Quiet, Acquires, acquire_nonce-Acquires, GivesBack, price_of-Quiet, gas_of-GivesBack,
  tx_of, submit_tx-Submits,
}

module _ {D H : Type 0} (Q : Effect D H → Type 0) (free : (n : ℕ) → Q (acquired n))
    (freed : (success : Bool) → Q (updated success)) where
  measured :
      (m : M D H ℕ) (finish : ℕ → M D H (Unit {0}))
      → GivesBack m
      → ((g : ℕ) → All Q (finish g).0)
      → All Q (m >>= finish).0
  measured m finish (inr (e, back)) last =
      subst (λ (n : M D H ℕ). All Q (n >>= finish).0) (sym back) (freed false, tt)
  measured m finish (inl (gas, on)) last =
      subst (λ (n : M D H ℕ). All Q (n >>= finish).0) (sym on) (last gas)

  -- The steps in order submit only what the last one submits.
  steps-All :
      {R : Type 0} {answer : Reply ℕ} (quiet : M D H R) (acquiring : M D H ℕ)
      (measure : R → M D H ℕ) (finish : R → ℕ → ℕ → M D H (Unit {0}))
      → Quiet quiet
      → Acquires answer acquiring
      → ((q : R) → GivesBack (measure q))
      → ((q : R) (n g : ℕ) → All Q (finish q n g).0)
      → All Q (quiet >>= λ q. acquiring >>= λ n. measure q >>= λ g. finish q n g).0
  steps-All quiet acquiring measure finish (inr (e, f)) acq gives last = rw f tt
  steps-All quiet acquiring measure finish (inl (q, f)) (inr (inr (e, a))) gives last = rw (f, a) tt
  steps-All quiet acquiring measure finish (inl (q, f)) (inr (inl a)) gives last = rw (f, a) tt
  steps-All quiet acquiring measure finish (inl (q, f)) (inl (n, from, a)) gives last =
      rw (f, a) (free n, measured (measure q) (finish q n) (gives q) (last q n))

module _ {D X H : Type 0} (Q : Effect D H → Type 0) (free : (n : ℕ) → Q (acquired n))
    (freed : (success : Bool) → Q (updated success)) (o : Outside D X H) (limits : List (ℕ × ℕ))
    (chain : ℕ) (r : Request D X) where
  submit_tx-All :
      (nonce : ℕ) (price : ℤ) (fee_cap : Option ℤ) (gas : ℕ)
      → ((h : H) → Q (submitted (tx_of o limits chain nonce price fee_cap gas r) h))
      → All Q (submit_tx o limits chain nonce price fee_cap gas r).0
  submit_tx-All nonce price fee_cap gas ok =
      elim (submit_tx-Submits o limits chain nonce price fee_cap gas r) [
        | inl (e, s) ↦ rw s (freed false, tt)
        | inr (h, e, s) ↦ rw s (ok h, (freed true, tt))
      ]

  -- The end of `sendWithAccount`, where a dry run stops.
  after_estimate :
      (dry : Bool) (price : ℤ) (nonce gas : ℕ)
      → ((h : H) → Q (submitted (tx_of o limits chain nonce price none gas r) h))
      → All Q (if dry then give none none else submit_tx o limits chain nonce price none gas r).0
  after_estimate true price nonce gas ok = tt
  after_estimate false price nonce gas ok = submit_tx-All nonce price none gas ok

  pub send_with_account-All :
      (dry known : Bool)
      → ((price : ℤ) (nonce gas : ℕ) (h : H)
          → Q (submitted (tx_of o limits chain nonce price none gas r) h))
      → All Q (send_with_account o dry limits chain known r).0
  unfolding send_with_account
  send_with_account-All dry known ok =
      steps-All Q free freed (price_of o gas_price_error o.suggest_gas_price r)
        (acquire_nonce known o.acquire) _ _ (price_of-Quiet o gas_price_error o.suggest_gas_price r)
        (acquire_nonce-Acquires known o.acquire) (λ price. gas_of-GivesBack o r.amount price none r)
        (λ price nonce gas. after_estimate dry price nonce gas (ok price nonce gas))

  pub eth_send_with_account-All :
      (known : Bool)
      → ((tip cap : ℤ) (nonce gas : ℕ) (h : H)
          → Q (submitted (tx_of o limits chain nonce tip (some cap) gas r) h))
      → All Q (eth_send_with_account o limits chain known r).0
  unfolding eth_send_with_account
  eth_send_with_account-All known ok = elim (price_of-Quiet o gas_tip_error o.suggest_gas_tip r) [
    | inr (e, f) ↦ rw f tt
    | inl (tip, f) ↦ rw f (
        steps-All Q free freed (check gas_price_error o.suggest_gas_price)
          (acquire_nonce known o.acquire) _ _ (check-Quiet gas_price_error o.suggest_gas_price)
          (acquire_nonce-Acquires known o.acquire)
          (λ suggested. gas_of-GivesBack o (pos 0) tip (some (fee_cap_of suggested)) r)
          (λ suggested nonce gas.
            submit_tx-All nonce tip (some (fee_cap_of suggested)) gas
              (ok tip (fee_cap_of suggested) nonce gas)))
  ]
