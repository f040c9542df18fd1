-- ===== src/Wallet/Nonce/Sequence.antt =====
-- Calls of `SendWithAccount` of `wallet/wallet.go`, one after another, with a nonce provider of
-- `wallet/nonce.go`.
use bridge_common.Prelude.{ℕ, ◌≡◌, ◌⊎◌, inl, inr, refl, ap, true, false, List, [], ◌∷◌, ◌++◌, All}
use bridge_common.Wallet.Send.{
  Request, fine, Outside, Effect, acquired, updated, submitted, M, send_with_account,
}
use bridge_common.Wallet.Send.Nonces.{
  IsSettled, panicked, refused, given_back, sent, send_with_account-IsSettled,
}
use bridge_common.Wallet.Nonce.{NonceProvider, Confirmed, new_remote_nonce_provider}

-- A call: what others answer, but for the nonce; the soft limits, the chain and the request.
pub record Call (D X H : Type 0) : Type 0 where
  pub outside : Outside D X H
  pub limits : List (ℕ × ℕ)
  pub chain : ℕ
  pub request : Request D X

module _ {D H : Type 0} where
  -- The nonces of the transactions that are submitted.
  unfoldable pub nonces : List (Effect D H) → List ℕ
  nonces [] = []
  nonces (acquired n ∷ es) = nonces es
  nonces (updated success ∷ es) = nonces es
  nonces (submitted tx hash ∷ es) = tx.nonce ∷ nonces es

  pub nonces-append : (es fs : List (Effect D H)) → nonces (es ++ fs) ≡ nonces es ++ nonces fs
  unfolding nonces
  nonces-append [] fs = refl
  nonces-append (acquired n ∷ es) fs = nonces-append es fs
  nonces-append (updated success ∷ es) fs = nonces-append es fs
  nonces-append (submitted tx hash ∷ es) fs = ap (λ ns. tx.nonce ∷ ns) (nonces-append es fs)

module _ {S D H : Type 0} (p : NonceProvider S) where
  -- The provider's state after the calls of `Update` in a trace.
  unfoldable pub serve : List (Effect D H) → S → S
  serve [] s = s
  serve (acquired n ∷ es) s = serve es s
  serve (updated success ∷ es) s = serve es (p.update success s)
  serve (submitted tx hash ∷ es) s = serve es s

  -- What a call does to the provider: nothing is submitted, or one transaction, with the nonce that
  -- the provider answers.
  abbrev pub Serves : M D H (Unit {0}) → S → Type 0
  Serves m s =
      ((nonces m.0 ≡ []) × ((serve m.0 s ≡ s) ⊎ (serve m.0 s ≡ p.update false s)))
      ⊎ ((n : ℕ) × (p.acquire s ≡ fine n) × (nonces m.0 ≡ n ∷ []) × (serve m.0 s ≡ p.update true s))

  pub IsSettled-Serves : {m : M D H (Unit {0})} (s : S) → IsSettled (p.acquire s) m → Serves m s
  unfolding nonces serve
  IsSettled-Serves s panicked = inl (refl, inl refl)
  IsSettled-Serves s refused = inl (refl, inl refl)
  IsSettled-Serves s (given_back from) = inl (refl, inr refl)
  IsSettled-Serves s (sent {n} from same) = inr (n, from, ap (λ k. k ∷ []) same, refl)

module _ {S D X H : Type 0} (p : NonceProvider S) where
  -- The call with the provider's answer.
  abbrev pub call : Call D X H → S → M D H (Unit {0})
  call c s =
      send_with_account (record c.outside { acquire = p.acquire s }) false c.limits c.chain true
        c.request

  unfoldable pub send_all : List (Call D X H) → S → List (Effect D H) × S
  send_all [] s = ([], s)
  send_all (c ∷ cs) s =
      let es = (call c s).0 in let (fs, s') = send_all cs (serve p es s) in (es ++ fs, s')

  call-Serves : (c : Call D X H) (s : S) → Serves p (call c s) s
  call-Serves c s = IsSettled-Serves p s (
      send_with_account-IsSettled (record c.outside { acquire = p.acquire s }) c.limits c.chain true
        c.request)

module _ {K D X H : Type 0} (address : K) (confirmed : Confirmed K) where
  -- Until the node confirms a transaction of the address, the transactions that calls of
  -- `SendWithAccount` submit all have the same nonce, the one that the node has confirmed.
  pub send_all-new_remote_nonce_provider :
      (cs : List (Call D X H))
      → let (es, confirmed') = send_all (new_remote_nonce_provider address) cs confirmed in
        All (λ n. confirmed address ≡ fine n) (nonces es) × (confirmed' ≡ confirmed)
  unfolding send_all nonces new_remote_nonce_provider
  send_all-new_remote_nonce_provider [] = (tt, refl)
  send_all-new_remote_nonce_provider (c ∷ cs) =
      let p = new_remote_nonce_provider address in
      let joined =
        nonces-append (call p c confirmed).0
          (send_all p cs (serve p (call p c confirmed).0 confirmed)).0 in
      let (same, last) = send_all-new_remote_nonce_provider cs in
      elim (call-Serves p c confirmed) [
        | inl (none_sent, inl kept) ↦ rw (joined, none_sent, kept) (same, last)
        | inl (none_sent, inr kept) ↦ rw (joined, none_sent, kept) (same, last)
        | inr (n, answered, one, kept) ↦ rw (joined, one, kept) ((answered, same), last)
      ]
