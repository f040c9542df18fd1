-- ===== src/Wallet/Send/Nonces.antt =====
-- Nonces and submissions of `wallet/wallet.go` and `wallet/eth.go`: what a call of
-- `sendWithAccount` or `SendWithAccount` has done when it returns.
use mathlib.Core.Option
use bridge_common.Prelude.{
  ℕ, ◌≡◌, ◌⊎◌, inl, inr, refl, Bool, true, false, List, [], ◌∷◌, Option, none, some, ltb, ◌==◌,
  Bool-cases,
}
use bridge_common.Prelude.Int.{ℤ, pos}
use bridge_common.Prelude.Text.{Text}
use bridge_common.Wallet.Gas.{get_chain_gas_limit}
use bridge_common.Wallet.Send.{
  Request, Reply, fine, bad, Tx, Outside, SendError, acquired, updated, submitted, returns, panics,
  goes, ends, M, ◌>>=◌, check, fee_cap_of, price_of, acquire_nonce, gas_of, submit_tx,
  send_with_account, eth_send_with_account, submit_error, nonce_error, estimate_error, sign_error,
  limit_exceeded, gas_price_error, gas_tip_error, estimate_failed, price_from, times, estimate_from,
  signed_from,
}

module _ {D H : Type 0} where
  -- Either nothing was acquired and no hash is returned; or the nonce of the answer was acquired and
  -- given back, and no hash is returned; or one transaction was submitted, with the nonce of the
  -- answer, which is then marked as used, and its hash is returned.
  pub data IsSettled (answer : Reply ℕ) : M D H (Unit {0}) → Type 0 where
    panicked : IsSettled answer ([], ends panics)
    refused : {err : Option SendError} → IsSettled answer ([], ends (returns none err))
    given_back :
        {n : ℕ} {err : Option SendError}
        → answer ≡ fine n
        → IsSettled answer (acquired n ∷ updated false ∷ [], ends (returns none err))
    sent :
        {n : ℕ} {tx : Tx D} {h : H} {err : Option SendError}
        → answer ≡ fine n
        → tx.nonce ≡ n
        → IsSettled answer
            (acquired n ∷ submitted tx h ∷ updated true ∷ [], ends (returns (some h) err))

  -- No hash, and nothing submitted.
  abbrev pub IsDry : M D H (Unit {0}) → Type 0
  IsDry ([], ends panics) = Unit
  IsDry ([], ends (returns hash err)) = hash ≡ none
  IsDry (acquired n ∷ [], ends (returns hash err)) = hash ≡ none
  IsDry (acquired n ∷ updated false ∷ [], ends (returns hash err)) = hash ≡ none
  IsDry (_, _) = ⊥

  -- A step that touches nothing outside: it goes on, or returns an error and no hash.
  abbrev pub Quiet : {A : Type 0} → M D H A → Type 0
  Quiet {A} m =
      ((a : A) × (m ≡ ([], goes a))) ⊎ ((e : SendError) × (m ≡ ([], ends (returns none (some e)))))

  pub check-Quiet : {A : Type 0} (wrap : Text → SendError) (r : Reply A) → Quiet (check wrap r)
  check-Quiet wrap (fine a) = inl (a, refl)
  check-Quiet wrap (bad t) = inr (wrap t, refl)

  -- What a step that acquires a nonce may do.
  abbrev pub Acquires : Reply ℕ → M D H ℕ → Type 0
  Acquires answer m =
      ((n : ℕ) × (answer ≡ fine n) × (m ≡ (acquired n ∷ [], goes n)))
      ⊎ (m ≡ ([], ends panics))
      ⊎ ((e : SendError) × (m ≡ ([], ends (returns none (some e)))))

  pub acquire_nonce-Acquires :
      (known : Bool) (answer : Reply ℕ) → Acquires answer (acquire_nonce known answer)
  unfolding acquire_nonce
  acquire_nonce-Acquires false answer = inr (inl refl)
  acquire_nonce-Acquires true (bad t) = inr (inr (nonce_error t, refl))
  acquire_nonce-Acquires true (fine n) = inl (n, refl, refl)

  -- A step that goes on, or gives the nonce back and ends without a hash.
  abbrev pub GivesBack : {A : Type 0} → M D H A → Type 0
  GivesBack {A} m =
      ((a : A) × (m ≡ ([], goes a)))
      ⊎ ((e : Option SendError) × (m ≡ (updated false ∷ [], ends (returns none e))))

  estimate_failed-GivesBack : (executed : Bool) (t : Text) → GivesBack (estimate_failed executed t)
  unfolding estimate_failed
  estimate_failed-GivesBack true t = inr (none, refl)
  estimate_failed-GivesBack false t = inr (some (estimate_error t), refl)

  -- A step that gives the nonce back, or submits `tx`, marks the nonce as used, and returns the hash.
  abbrev pub Submits : Tx D → M D H (Unit {0}) → Type 0
  Submits tx m =
      ((e : SendError) × (m ≡ (updated false ∷ [], ends (returns none (some e)))))
      ⊎ ((h : H) × (e : Option SendError) × (m
            ≡ (submitted tx h ∷ updated true ∷ [], ends (returns (some h) e))))

module _ {D X H : Type 0} (o : Outside D X H) where
  price_from-Quiet :
      (wrap : Text → SendError) (g : Option ℤ) (suggested : Reply ℤ) (x : Option X)
      → Quiet (price_from o wrap g suggested x)
  unfolding price_from
  price_from-Quiet wrap (some p) suggested x = inl (p, refl)
  price_from-Quiet wrap none (bad t) x = inr (wrap t, refl)
  price_from-Quiet wrap none (fine p) x = inl (times o x p, refl)

  pub price_of-Quiet :
      (wrap : Text → SendError) (suggested : Reply ℤ) (r : Request D X)
      → Quiet (price_of o wrap suggested r)
  unfolding price_of
  price_of-Quiet wrap suggested r = price_from-Quiet wrap _ suggested _

  estimate_from-GivesBack : (answer : Reply ℕ) → GivesBack (estimate_from o answer)
  unfolding estimate_from
  estimate_from-GivesBack (fine gas) = inl (gas, refl)
  estimate_from-GivesBack (bad t) = estimate_failed-GivesBack (o.has_been_executed t) t

  pub gas_of-GivesBack :
      (value price : ℤ) (fee_cap : Option ℤ) (r : Request D X)
      → GivesBack (gas_of o value price fee_cap r)
  unfolding gas_of
  gas_of-GivesBack value price fee_cap r = elim (Bool-cases (r.gas_limit == 0)) [
    | inl zero_limit ↦ rw zero_limit (estimate_from-GivesBack _)
    | inr given ↦ inl (r.gas_limit, rw given)
  ]

  -- The transaction that `submit_tx` makes.
  abbrev pub tx_of : List (ℕ × ℕ) → ℕ → ℕ → ℤ → Option ℤ → ℕ → Request D X → Tx D
  tx_of limits chain nonce price fee_cap gas r = record {
    nonce = nonce;
    gas = get_chain_gas_limit limits chain (o.scale gas);
    price = price;
    fee_cap = fee_cap;
    amount = r.amount;
    payload = r.payload;
  }

  signed_from-Submits : (tx : Tx D) (answer : Reply H) → Submits tx (signed_from o tx answer)
  unfolding signed_from
  signed_from-Submits tx (bad t) = inl (sign_error t, refl)
  signed_from-Submits tx (fine h) = inr (h, Option.map submit_error (o.submit h), refl)

  pub submit_tx-Submits :
      (limits : List (ℕ × ℕ)) (chain nonce : ℕ) (price : ℤ) (fee_cap : Option ℤ) (gas : ℕ)
      (r : Request D X)
      → Submits
          (tx_of limits chain nonce price fee_cap gas r)
          (submit_tx o limits chain nonce price fee_cap gas r)
  unfolding submit_tx
  submit_tx-Submits limits chain nonce price fee_cap gas r =
      let scaled = o.scale gas in
      let tx = tx_of limits chain nonce price fee_cap gas r in
      elim (Bool-cases (ltb (get_chain_gas_limit limits chain scaled) scaled)) [
        | inl over ↦ inl (limit_exceeded scaled (get_chain_gas_limit limits chain scaled), rw over)
        | inr within ↦ rw within (signed_from-Submits tx (o.sign tx))
      ]

module _ {D H : Type 0} where
  -- The steps in order settle a nonce, whatever each of them does.
  pub settles :
      {Q : Type 0} {answer : Reply ℕ} (quiet : M D H Q) (acquiring : M D H ℕ)
      (measure : Q → M D H ℕ) (finish : Q → ℕ → ℕ → M D H (Unit {0})) (tx : Q → ℕ → ℕ → Tx D)
      → Quiet quiet
      → Acquires answer acquiring
      → ((q : Q) → GivesBack (measure q))
      → ((q : Q) (n g : ℕ) → Submits (tx q n g) (finish q n g))
      → ((q : Q) (n g : ℕ) → (tx q n g).nonce ≡ n)
      → IsSettled answer (quiet >>= λ q. acquiring >>= λ n. measure q >>= λ g. finish q n g)
  settles quiet acquiring measure finish tx (inr (e, f)) acq gives submits same = rw f refused
  settles quiet acquiring measure finish tx (inl (q, f)) (inr (inr (e, a))) gives submits same =
      rw (f, a) refused
  settles quiet acquiring measure finish tx (inl (q, f)) (inr (inl a)) gives submits same =
      rw (f, a) panicked
  settles quiet acquiring measure finish tx (inl (q, f)) (inl (n, from, a)) gives submits same =
      elim (gives q) [
        | inr (e, g) ↦ rw (f, a, g) (given_back from)
        | inl (gas, g) ↦ elim (submits q n gas) [
          | inl (e, s) ↦ rw (f, a, g, s) (given_back from)
          | inr (h, e, s) ↦ rw (f, a, g, s) (sent from (same q n gas))
        ]
      ]

module _ {D X H : Type 0} (o : Outside D X H) where
  -- A call of `sendWithAccount` that is not dry settles the nonce that it acquires: the trace shows
  -- nothing acquired and no hash returned, or the nonce that `Acquire` answers acquired and given back
  -- and no hash returned, or one submission, with that nonce, then marked as used, and its hash
  -- returned; or a panic before a nonce is acquired.
  pub send_with_account-IsSettled :
      (limits : List (ℕ × ℕ)) (chain : ℕ) (known : Bool) (r : Request D X)
      → IsSettled o.acquire (send_with_account o false limits chain known r)
  unfolding send_with_account
  send_with_account-IsSettled limits chain known r =
      settles _ _ _ _ (λ price n gas. tx_of o limits chain n price none gas r)
        (price_of-Quiet o gas_price_error o.suggest_gas_price r)
        (acquire_nonce-Acquires known o.acquire) (λ price. gas_of-GivesBack o r.amount price none r)
        (λ price n gas. submit_tx-Submits o limits chain n price none gas r) (λ price n gas. refl)

  -- A dry run of `sendWithAccount` returns no hash, and submits nothing; a nonce that it acquired is
  -- given back only where the estimate fails.
  pub send_with_account-IsDry :
      (limits : List (ℕ × ℕ)) (chain : ℕ) (known : Bool) (r : Request D X)
      → IsDry (send_with_account o true limits chain known r)
  unfolding send_with_account
  send_with_account-IsDry limits chain known r =
      elim (price_of-Quiet o gas_price_error o.suggest_gas_price r) [
        | inr (e, f) ↦ rw f refl
        | inl (price, f) ↦ elim (acquire_nonce-Acquires {D = D} {H = H} known o.acquire) [
          | inr (inr (e, a)) ↦ rw (f, a) refl
          | inr (inl a) ↦ rw (f, a) tt
          | inl (n, from, a) ↦ elim (gas_of-GivesBack o r.amount price none r) [
            | inr (e, g) ↦ rw (f, a, g) refl
            | inl (gas, g) ↦ rw (f, a, g) refl
          ]
        ]
      ]

  -- A call of `SendWithAccount` of the London wallet settles the nonce that it acquires, in the same
  -- way.
  pub eth_send_with_account-IsSettled :
      (limits : List (ℕ × ℕ)) (chain : ℕ) (known : Bool) (r : Request D X)
      → IsSettled o.acquire (eth_send_with_account o limits chain known r)
  unfolding eth_send_with_account
  eth_send_with_account-IsSettled limits chain known r =
      elim (price_of-Quiet o gas_tip_error o.suggest_gas_tip r) [
        | inr (e, f) ↦ rw f refused
        | inl (tip, f) ↦ rw f (
            settles (check gas_price_error o.suggest_gas_price) _ _ _
              (λ suggested n gas. tx_of o limits chain n tip (some (fee_cap_of suggested)) gas r)
              (check-Quiet gas_price_error o.suggest_gas_price)
              (acquire_nonce-Acquires known o.acquire)
              (λ suggested. gas_of-GivesBack o (pos 0) tip (some (fee_cap_of suggested)) r)
              (λ suggested n gas.
                submit_tx-Submits o limits chain n tip (some (fee_cap_of suggested)) gas r)
              (λ suggested n gas. refl))
      ]
