-- ===== src/Wallet/Send/Served.antt =====
-- `sendWithAccount` of `wallet/wallet.go` and `SendWithAccount` of `wallet/eth.go` where nothing fails
-- before the submission: what they submit.
use bridge_common.Prelude.{
  ℕ, ◌≤◌, ◌≡◌, ◌⊎◌, inl, inr, refl, ap, ◌∙◌, true, false, List, [], ◌∷◌, Option, none, some,
  Bool-cases, ltb, ◌==◌, arith,
}
use bridge_common.Prelude.Int.{ℤ, pos}
use bridge_common.Prelude.Text.{Text}
use mathlib.Core.Option
use bridge_common.Wallet.Gas.{get_chain_gas_limit}
use bridge_common.Wallet.Send.{
  Request, Reply, fine, Tx, Outside, acquired, updated, submitted, SendError, submit_error, M,
  ◌>>=◌, pure, goes, ends, returns, given_price, times, price_from, price_of, acquire_nonce, gas_of,
  estimate_from, submit_tx, signed_from, fee_cap_of, send_with_account, eth_send_with_account,
  gas_price_error, gas_tip_error, check,
}
use bridge_common.Wallet.Send.Nonces.{tx_of}

module _ {D H : Type 0} where
  -- The steps in order, where none of them ends the call before the last one.
  steps-trace :
      {Q : Type 0} (quiet : M D H Q) (acquiring : M D H ℕ) (measure : Q → M D H ℕ)
      (finish : Q → ℕ → ℕ → M D H (Unit {0})) (q : Q) (n gas : ℕ) (last : M D H (Unit {0}))
      → quiet ≡ pure q
      → acquiring ≡ (acquired n ∷ [], goes n)
      → measure q ≡ pure gas
      → finish q n gas ≡ last
      → (quiet >>= λ q. acquiring >>= λ n. measure q >>= λ g. finish q n g).0 ≡ acquired n ∷ last.0
  steps-trace quiet acquiring measure finish q n gas last priced acquires measured sent =
      rw (priced, acquires, measured, sent) refl

  acquire_nonce-fine :
      (answer : Reply ℕ) (n : ℕ)
      → answer ≡ fine n
      → acquire_nonce {D = D} {H = H} true answer ≡ (acquired n ∷ [], goes n)
  unfolding acquire_nonce
  acquire_nonce-fine answer n e = rw e refl

module _ {D X H : Type 0} (o : Outside D X H) (limits : List (ℕ × ℕ)) (chain : ℕ)
    (r : Request D X) where
  -- A gas limit that is not above the limits of the chain when it has been scaled.
  abbrev pub Fits : ℕ → Type 0
  Fits gas = o.scale gas ≤ get_chain_gas_limit limits chain (o.scale gas)

  -- The node suggests prices and answers a nonce and estimates, no gas limit is above those of the
  -- chain, and the account signs.
  pub record IsServed (nonce : ℕ) : Type 0 where
    pub price : (p : ℤ) × (o.suggest_gas_price ≡ fine p)
    pub tip : (t : ℤ) × (o.suggest_gas_tip ≡ fine t)
    pub acquires : o.acquire ≡ fine nonce
    pub estimates :
        (value price : ℤ) (cap : Option ℤ)
        → (gas : ℕ) × (o.estimate_gas r.payload value price cap ≡ fine gas) × Fits gas
    pub given : (r.gas_limit ≡ 0) ⊎ Fits r.gas_limit
    pub signs : (tx : Tx D) → (hash : H) × (o.sign tx ≡ fine hash)

  -- The trace of a call that submits one transaction, of which `Q` holds.
  abbrev pub SubmitsOne : (Tx D → Type 0) → ℕ → M D H (Unit {0}) → Type 0
  SubmitsOne Q n m =
      (tx : Tx D) × (hash : H) × (m.0 ≡ acquired n ∷ submitted tx hash ∷ updated true ∷ [])
      × (tx.nonce ≡ n)
      × Q tx

  price_from-fine :
      (wrap : Text → SendError) (g : Option ℤ) (p : ℤ) (x : Option X)
      → (q : ℤ) × (price_from {H = H} o wrap g (fine p) x ≡ pure q)
  unfolding price_from
  price_from-fine wrap (some g) p x = (g, refl)
  price_from-fine wrap none p x = (times o x p, refl)

  price_of-fine :
      (wrap : Text → SendError) (suggested : Reply ℤ) (p : ℤ)
      → suggested ≡ fine p
      → (q : ℤ) × (price_of {H = H} o wrap suggested r ≡ pure q)
  unfolding price_of
  price_of-fine wrap suggested p e =
      rw e (price_from-fine wrap (given_price r.gas_price) p r.gas_price_x)

  gas_of-Fits :
      {n : ℕ}
      → IsServed n
      → (value price : ℤ) (cap : Option ℤ)
      → (gas : ℕ) × (gas_of o value price cap r ≡ pure gas) × Fits gas
  unfolding gas_of estimate_from
  gas_of-Fits w value price cap = elim (Bool-cases (r.gas_limit == 0)) [
    | inl asks ↦ let (gas, e, fits) = w.estimates value price cap in (gas, rw (asks, e) refl, fits)
    | inr own ↦ (
      r.gas_limit,
      rw own refl,
      elim w.given [ inl z ↦ absurd (ground (arith, z, own)) | inr fits ↦ fits ],
    )
  ]

  submit_tx-Fits :
      {n : ℕ}
      → IsServed n
      → (nonce : ℕ) (price : ℤ) (cap : Option ℤ) (gas : ℕ) → Fits gas
      → (hash : H) × (e : Option SendError) × (submit_tx o limits chain nonce price cap gas r ≡ (
        submitted (tx_of o limits chain nonce price cap gas r) hash ∷ updated true ∷ [],
        ends (returns (some hash) e),
      ))
  unfolding submit_tx signed_from
  submit_tx-Fits w nonce price cap gas fits =
      let scaled = o.scale gas in
      let within : ltb (get_chain_gas_limit limits chain scaled) scaled ≡ false = ground arith in
      let (hash, signed) = w.signs (tx_of o limits chain nonce price cap gas r) in
      (hash, Option.map submit_error (o.submit hash), rw (within, signed) refl)

  pub send_with_account-SubmitsOne :
      {n : ℕ}
      → IsServed n
      → SubmitsOne (λ tx. tx.fee_cap ≡ none) n (send_with_account o false limits chain true r)
  unfolding send_with_account
  send_with_account-SubmitsOne {n} w =
      let (p, suggested) = w.price in
      let (price, priced) = price_of-fine gas_price_error o.suggest_gas_price p suggested in
      let (gas, measured, fits) = gas_of-Fits w r.amount price none in
      let (hash, e, sent) = submit_tx-Fits w n price none gas fits in
      (
        tx_of o limits chain n price none gas r,
        hash,
        steps-trace _ _ (λ q. gas_of o r.amount q none r)
            (λ q k g. submit_tx o limits chain k q none g r) price n gas _ priced
            (acquire_nonce-fine o.acquire n w.acquires) measured sent,
        refl,
        refl,
      )

  pub eth_send_with_account-SubmitsOne :
      {n : ℕ}
      → IsServed n
      → SubmitsOne
          (λ tx. (cap : ℤ) × (tx.fee_cap ≡ some cap))
          n
          (eth_send_with_account o limits chain true r)
  unfolding eth_send_with_account
  eth_send_with_account-SubmitsOne {n} w =
      let (t, tips) = w.tip in
      let (p, suggested) = w.price in
      let (tip, priced) = price_of-fine gas_tip_error o.suggest_gas_tip t tips in
      let cap = fee_cap_of p in
      let (gas, measured, fits) = gas_of-Fits w (pos 0) tip (some cap) in
      let (hash, e, sent) = submit_tx-Fits w n tip (some cap) gas fits in
      let rest : ℤ → M D H (Unit {0}) = λ tip.
        check gas_price_error o.suggest_gas_price >>= λ suggested.
        acquire_nonce true o.acquire >>= λ nonce.
        gas_of o (pos 0) tip (some (fee_cap_of suggested)) r >>= λ gas.
        submit_tx o limits chain nonce tip (some (fee_cap_of suggested)) gas r in
      (
        tx_of o limits chain n tip (some cap) gas r,
        hash,
        ap (λ (m : M D H ℤ). (m >>= rest).0) priced
            ∙ steps-trace _ _ (λ q. gas_of o (pos 0) tip (some (fee_cap_of q)) r)
                (λ q k g. submit_tx o limits chain k tip (some (fee_cap_of q)) g r) p n gas _
                (ap (check gas_price_error) suggested) (acquire_nonce-fine o.acquire n w.acquires)
                measured sent,
        refl,
        (cap, refl),
      )
