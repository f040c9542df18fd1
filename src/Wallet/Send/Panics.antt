-- ===== src/Wallet/Send/Panics.antt =====
-- When the calls of `wallet/wallet.go` that send do not panic.
use bridge_common.Prelude.{ℕ, ◌≢◌, inl, inr, true, false, List, Option, none, some}
use bridge_common.Prelude.Int.{ℤ, pos}
use bridge_common.Wallet.Send.{
  Request, Outside, panics, goes, ends, M, ◌>>=◌, acquire_nonce, submit_tx, send_with_account,
  eth_send_with_account, fee_cap_of, check, price_of, gas_price_error, gas_tip_error, Reply, fine,
  bad,
}
use bridge_common.Wallet.Send.Nonces.{
  Quiet, check-Quiet, price_of-Quiet, GivesBack, gas_of-GivesBack, submit_tx-Submits,
}

module _ {D H : Type 0} where
  abbrev pub DoesNotPanic : {A : Type 0} → M D H A → Type 0
  DoesNotPanic m = m.1 ≢ ends panics

  bind-DoesNotPanic :
      {A B : Type 0} (m : M D H A) (f : A → M D H B)
      → DoesNotPanic m
      → ((a : A) → DoesNotPanic (f a))
      → DoesNotPanic (m >>= f)
  bind-DoesNotPanic (es, goes a) f h k = k a
  bind-DoesNotPanic (es, ends x) f h k = λ e. h cc

  Quiet-DoesNotPanic : {A : Type 0} (m : M D H A) → Quiet m → DoesNotPanic m
  Quiet-DoesNotPanic m (inl (a, e)) = rw e (λ h. cc)
  Quiet-DoesNotPanic m (inr (err, e)) = rw e (λ h. cc)

  GivesBack-DoesNotPanic : {A : Type 0} (m : M D H A) → GivesBack m → DoesNotPanic m
  GivesBack-DoesNotPanic m (inl (a, e)) = rw e (λ h. cc)
  GivesBack-DoesNotPanic m (inr (err, e)) = rw e (λ h. cc)

acquire_nonce-DoesNotPanic :
    (D H : Type 0) (answer : Reply ℕ) → DoesNotPanic (acquire_nonce {D = D} {H = H} true answer)
unfolding acquire_nonce
acquire_nonce-DoesNotPanic D H (fine n) = λ h. cc
acquire_nonce-DoesNotPanic D H (bad t) = λ h. cc

module _ {D X H : Type 0} (o : Outside D X H) where
  submit_tx-DoesNotPanic :
      (limits : List (ℕ × ℕ)) (chain nonce : ℕ) (price : ℤ) (fee_cap : Option ℤ) (gas : ℕ)
      (r : Request D X)
      → DoesNotPanic (submit_tx o limits chain nonce price fee_cap gas r)
  submit_tx-DoesNotPanic limits chain nonce price fee_cap gas r =
      elim (submit_tx-Submits o limits chain nonce price fee_cap gas r) [
        | inl (err, e) ↦ rw e (λ h. cc)
        | inr (hash, err, e) ↦ rw e (λ h. cc)
      ]

  -- An account with a nonce provider.
  pub send_with_account-DoesNotPanic :
      (limits : List (ℕ × ℕ)) (chain : ℕ) (r : Request D X)
      → DoesNotPanic (send_with_account o false limits chain true r)
  unfolding send_with_account
  send_with_account-DoesNotPanic limits chain r =
      bind-DoesNotPanic (price_of o gas_price_error o.suggest_gas_price r) _
        (Quiet-DoesNotPanic _ (price_of-Quiet o gas_price_error o.suggest_gas_price r))
        (λ price.
          bind-DoesNotPanic (acquire_nonce true o.acquire) _
            (acquire_nonce-DoesNotPanic D H o.acquire)
            (λ nonce.
              bind-DoesNotPanic _ _
                (GivesBack-DoesNotPanic _ (gas_of-GivesBack o r.amount price none r))
                (λ gas. submit_tx-DoesNotPanic limits chain nonce price none gas r)))

  -- The same of the London wallet.
  pub eth_send_with_account-DoesNotPanic :
      (limits : List (ℕ × ℕ)) (chain : ℕ) (r : Request D X)
      → DoesNotPanic (eth_send_with_account o limits chain true r)
  unfolding eth_send_with_account
  eth_send_with_account-DoesNotPanic limits chain r =
      bind-DoesNotPanic (price_of o gas_tip_error o.suggest_gas_tip r) _
        (Quiet-DoesNotPanic _ (price_of-Quiet o gas_tip_error o.suggest_gas_tip r))
        (λ tip.
          bind-DoesNotPanic (check gas_price_error o.suggest_gas_price) _
            (Quiet-DoesNotPanic _ (check-Quiet gas_price_error o.suggest_gas_price))
            (λ suggested.
              bind-DoesNotPanic (acquire_nonce true o.acquire) _
                (acquire_nonce-DoesNotPanic D H o.acquire)
                (λ nonce.
                  bind-DoesNotPanic _ _
                    (GivesBack-DoesNotPanic _
                      (gas_of-GivesBack o (pos 0) tip (some (fee_cap_of suggested)) r))
                    (λ gas.
                      submit_tx-DoesNotPanic limits chain nonce tip (some (fee_cap_of suggested))
                        gas r))))
