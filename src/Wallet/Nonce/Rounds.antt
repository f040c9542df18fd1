-- ===== src/Wallet/Nonce/Rounds.antt =====
-- Calls of `Send` of `wallet/wallet.go`, one after another, each from the next account of the round,
-- with the nonce providers of `wallet/nonce.go` that `Init` has put into the wallet.
use mathlib.Core.Option.{some-injective}
use bridge_common.Prelude.{
  ℕ, suc, ◌≡◌, inl, inr, refl, sym, ap, ◌∙◌, subst, Bool, false, Bool-cases, List, [], ◌∷◌, ◌++◌,
  Option, Option-cases, none, some, length, All, if◌then◌else◌,
}
use mathlib.Core.List.{Perm}
use bridge_common.Prelude.Keyed.{Eq, find, put, find-put, keys}
use bridge_common.Wallet.Accounts.{Wallet, succeeds, put_nonces, init, select}
use bridge_common.Wallet.Accounts.RoundRobin.{select_next}
use bridge_common.Wallet.Accounts.Initialized.{init-IsReady}
use bridge_common.Wallet.Send.{Request, Reply, fine, bad, Outside, Effect, M}
use bridge_common.Wallet.Send.Rounds.{is_some, call_with_account, send}
use bridge_common.Wallet.Send.Usable.{IsUsable, init-IsUsable, send-IsUsable}
use bridge_common.Wallet.Send.Nonces.{IsSettled, send_with_account-IsSettled}
use bridge_common.Wallet.Nonce.{NonceProvider, Confirmed, new_remote_nonce_provider}
use bridge_common.Wallet.Nonce.Sequence.{nonces, serve, Serves, IsSettled-Serves}

-- A call of `Send`: what others answer to each account, but for nonces, and the request.
pub record Order (A D X H : Type 0) : Type 0 where
  pub outside : A → Outside D X H
  pub request : Request D X

-- What a provider in a wallet answers; a missing one is not asked, since the call panics.
abbrev pub acquire_from : {S : Type 0} → Option (NonceProvider S) → S → Reply ℕ
acquire_from none s = bad []
acquire_from (some p) s = p.acquire s

abbrev pub serve_from : {S D H : Type 0} → Option (NonceProvider S) → List (Effect D H) → S → S
serve_from none es s = s
serve_from (some p) es s = serve p es s

module _ {A D H : Type 0} ⦃e : Eq A⦄ where
  -- The nonces of the transactions that an account has submitted.
  unfoldable pub of_account : A → List (A × List (Effect D H)) → List ℕ
  of_account b [] = []
  of_account b ((a, es) ∷ t) =
      let rest = of_account b t in if e.beq a b then nonces es ++ rest else rest

module _ {A P D X H : Type 0} ⦃e : Eq A⦄ (limits : List (ℕ × ℕ)) where
  -- The answers of the providers in the wallet.
  abbrev pub with_nonces :
      (A → Outside D X H)
      → Wallet A P (NonceProvider (Confirmed A))
      → Confirmed A
      → A
      → Outside D X H
  with_nonces o w confirmed a = record (o a) { acquire = acquire_from (find a w.nonces) confirmed }

  -- The calls in order: what each account does, and what the providers read at the end. A call that
  -- finds no account panics, and ends them.
  unfoldable pub send_orders :
      List (Order A D X H)
      → Wallet A P (NonceProvider (Confirmed A))
      → Confirmed A
      → List (A × List (Effect D H)) × Confirmed A
  send_orders [] w confirmed = ([], confirmed)
  send_orders (c ∷ cs) w confirmed =
      let ((es, flow), w') = send (with_nonces c.outside w confirmed) limits c.request w in
      elim (select w) [
        | none ↦ ([], confirmed)
        | some ((a, provider, kept), _) ↦
            let (t, confirmed') = send_orders cs w' (serve_from kept es confirmed) in
            ((a, es) ∷ t, confirmed')
      ]

module _ {A : Type 0} ⦃e : Eq A⦄ where
  -- The providers are those that ask the node for the account's nonce.
  abbrev pub AreRemote : List (A × NonceProvider (Confirmed A)) → Type 0
  AreRemote m =
      (a : A) (p : NonceProvider (Confirmed A))
      → find a m ≡ some p
      → p ≡ new_remote_nonce_provider a

  put_nonces-AreRemote :
      (accounts : List A) (m : List (A × NonceProvider (Confirmed A)))
      → AreRemote m
      → AreRemote (put_nonces new_remote_nonce_provider accounts m)
  unfolding put_nonces
  put_nonces-AreRemote [] m h = h
  put_nonces-AreRemote (b ∷ rest) m h =
      put_nonces-AreRemote rest (put b (new_remote_nonce_provider b) m) λ a p at.
        elim (Bool-cases (e.beq b a)) [
          | inl same ↦
              let put_now : some (new_remote_nonce_provider b) ≡ some p =
                sym (find-put b a (new_remote_nonce_provider b) m ∙ rw same refl) ∙ at in
              sym (some-injective _ _ put_now)
              ∙ ap new_remote_nonce_provider ((e.beq_iff b a).0 same)
          | inr other ↦
              h a p (sym (find-put b a (new_remote_nonce_provider b) m ∙ rw other refl) ∙ at)
        ]

All-append : (Q : ℕ → Type 0) (ns ms : List ℕ) → All Q ns → All Q ms → All Q (ns ++ ms)
All-append Q [] ms h k = k
All-append Q (n ∷ ns) ms h k = (h.0, All-append Q ns ms h.1 k)

module _ {A D H : Type 0} ⦃e : Eq A⦄ (confirmed : Confirmed A) where
  -- So many calls have been made, and every transaction has the nonce confirmed for its account.
  abbrev Ends : ℕ → List (A × List (Effect D H)) × Confirmed A → Type 0
  Ends n (t, last) =
      (length t ≡ n)
      × (last ≡ confirmed)
      × ((b : A) → All (λ n. confirmed b ≡ fine n) (of_account b t))

  -- What a call does, with a remote provider.
  Serves-confirmed :
      (a : A) (m : M D H (Unit {0}))
      → Serves (new_remote_nonce_provider a) m confirmed
      → All (λ n. confirmed a ≡ fine n) (nonces m.0)
        × (serve (new_remote_nonce_provider a) m.0 confirmed ≡ confirmed)
  unfolding new_remote_nonce_provider
  Serves-confirmed a m (inl (none_sent, inl kept)) = rw none_sent (tt, kept)
  Serves-confirmed a m (inl (none_sent, inr kept)) = rw none_sent (tt, kept)
  Serves-confirmed a m (inr (n, answered, one, kept)) = rw one ((answered, tt), kept)

  of_account-All :
      (a b : A) (es : List (Effect D H)) (t : List (A × List (Effect D H)))
      → All (λ n. confirmed a ≡ fine n) (nonces es)
      → All (λ n. confirmed b ≡ fine n) (of_account b t)
      → All (λ n. confirmed b ≡ fine n) (of_account b ((a, es) ∷ t))
  unfolding of_account
  of_account-All a b es t now rest = elim (Bool-cases (e.beq a b)) [
    | inl same ↦
        rw (same, of_account)
          (All-append (λ n. confirmed b ≡ fine n) (nonces es) (of_account b t)
            (subst (λ d. All (λ n. confirmed d ≡ fine n) (nonces es)) ((e.beq_iff a b).0 same) now)
            rest)
    | inr other ↦ rw (other, of_account) rest
  ]

module _ {A P D X H : Type 0} ⦃e : Eq A⦄ (limits : List (ℕ × ℕ)) (confirmed : Confirmed A) where
  -- What the account that is next does in a call.
  send-Serves :
      (o : A → Outside D X H) (r : Request D X) (w : Wallet A P (NonceProvider (Confirmed A)))
      (a : A) (w' : Wallet A P (NonceProvider (Confirmed A))) (provider : Option P)
      (kept : Option (NonceProvider (Confirmed A)))
      → select w ≡ some ((a, provider, kept), w')
      → find a w.nonces ≡ some (new_remote_nonce_provider a)
      → Serves
          (new_remote_nonce_provider a)
          (send (with_nonces limits o w confirmed) limits r w).0
          confirmed
  unfolding send call_with_account
  send-Serves o r w a w' provider kept chosen at =
      let m = call_with_account (with_nonces limits o w confirmed) limits false a r w' in
      let settled =
        send_with_account-IsSettled (with_nonces limits o w confirmed a) limits w'.chain_id _ r in
      rw (chosen, send)
        (IsSettled-Serves (new_remote_nonce_provider a) confirmed
          (subst (λ p. IsSettled (acquire_from p confirmed) m) at settled))

  send_orders-next :
      (c : Order A D X H) (cs : List (Order A D X H))
      (w w' : Wallet A P (NonceProvider (Confirmed A))) (a : A) (provider : Option P)
      (kept : Option (NonceProvider (Confirmed A)))
      → select w ≡ some ((a, provider, kept), w')
      → let ((es, flow), w₁) = send (with_nonces limits c.outside w confirmed) limits c.request w in
        let (t, last) = send_orders limits cs w₁ (serve_from kept es confirmed) in
        send_orders limits (c ∷ cs) w confirmed ≡ ((a, es) ∷ t, last)
  unfolding send_orders
  send_orders-next c cs w w' a provider kept chosen = rw (chosen, send_orders) refl

  send-nonces :
      (o : A → Outside D X H) (r : Request D X) (w : Wallet A P (NonceProvider (Confirmed A)))
      → IsUsable w
      → (send o limits r w).1.nonces ≡ w.nonces
  unfolding send
  send-nonces o r w u = let (a, at, chosen) = select_next w u.in_range in rw (chosen, send) refl

  send_orders-Ends :
      (cs : List (Order A D X H)) (w : Wallet A P (NonceProvider (Confirmed A)))
      → IsUsable w
      → AreRemote w.nonces
      → Ends confirmed (length cs) (send_orders limits cs w confirmed)
  unfolding send_orders of_account
  send_orders-Ends [] w u remote = (refl, refl, λ b. tt)
  send_orders-Ends (c ∷ cs) w u remote =
      let o = with_nonces limits c.outside w confirmed in
      let (a, at, chosen) = select_next w u.in_range in
      let ((es, flow), w₁) = send o limits c.request w in
      elim (Option-cases (find a w.nonces)) [
        | inl missing ↦ absurd (cc (sym (u.counted w.cursor a at) ∙ ap is_some missing))
        | inr (p, found) ↦
            let is_remote = remote a p found in
            let here = found ∙ ap some is_remote in
            let (now, same) =
              Serves-confirmed confirmed a (es, flow)
                (send-Serves c.outside c.request w a _ _ _ chosen here) in
            let stays : serve_from (find a w.nonces) es confirmed ≡ confirmed =
              ap (λ q. serve_from q es confirmed) here ∙ same in
            let (count, last, rest) =
              send_orders-Ends cs w₁ (send-IsUsable limits o c.request w u).1
                (subst AreRemote (sym (send-nonces o c.request w u)) remote) in
            subst (Ends confirmed (suc (length cs))) (sym (send_orders-next c cs w _ a _ _ chosen))
              (subst
                (λ s.
                  Ends confirmed (suc (length cs))
                    ((a, es) ∷ (send_orders limits cs w₁ s).0, (send_orders limits cs w₁ s).1))
                (sym stays)
                (
                  ap suc count,
                  last,
                  λ b.
                      of_account-All confirmed a b es (send_orders limits cs w₁ confirmed).0 now
                        (rest b),
                ))
      ]

  -- After an `Init` that succeeds, of a wallet that has no nonce providers yet, however many calls of
  -- `Send` follow, whatever others answer, none of them is missing an account. Until the node confirms
  -- a transaction, those that an account submits all have the same nonce, the one that the node has
  -- confirmed for the account.
  pub send_orders-confirmed :
      (unlocks : P → A → Bool) (visited : List (A × P)) (sdk : Option (Option ℕ))
      (w₀ w : Wallet A P (NonceProvider (Confirmed A))) (cs : List (Order A D X H))
      → w₀.nonces ≡ []
      → Perm visited w₀.providers
      → init new_remote_nonce_provider unlocks visited sdk w₀ ≡ succeeds w
      → let (t, last) = send_orders limits cs w confirmed in
        (length t ≡ length cs)
        × (last ≡ confirmed)
        × ((b : A) → All (λ n. confirmed b ≡ fine n) (of_account b t))
  unfolding find
  send_orders-confirmed unlocks visited sdk w₀ w cs empty p h =
      let ready = init-IsReady new_remote_nonce_provider unlocks visited sdk w₀ w p h in
      let fresh : AreRemote w₀.nonces = subst AreRemote (sym empty) λ a p at. absurd cc in
      send_orders-Ends cs w (init-IsUsable new_remote_nonce_provider unlocks visited sdk w₀ w p h) (
        subst AreRemote (sym ready.nonces)
          (put_nonces-AreRemote (keys w₀.providers) w₀.nonces fresh))
