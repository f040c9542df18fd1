-- ===== src/Wallet/Send/Usable.antt =====
-- After `Init` of `wallet/wallet.go` every account has its provider and its nonce provider, and `Send`
-- does not panic.
use mathlib.Core.Option.{some-injective}
use bridge_common.Prelude.{
  ℕ, zero, suc, ◌+◌, ◌%◌, ◌<◌, ◌≡◌, refl, sym, ap, ◌∙◌, subst, Bool, true, false, List, [], ◌∷◌,
  Option, some, length, get_elem?, arith,
}
use mathlib.Core.List.{Perm}
use bridge_common.Prelude.Keyed.{Eq, find, put, find-put, keys}
use bridge_common.Wallet.Accounts.{Wallet, succeeds, put_nonces, init, get_account}
use bridge_common.Wallet.Accounts.RoundRobin.{select_next}
use bridge_common.Wallet.Accounts.Initialized.{init-IsReady}
use bridge_common.Wallet.Send.{send_with_account, Request, Outside}
use bridge_common.Wallet.Send.Panics.{DoesNotPanic, send_with_account-DoesNotPanic}
use bridge_common.Wallet.Send.Rounds.{is_some, call_with_account, send}

module _ {A : Type 0} ⦃e : Eq A⦄ where
  beq_refl : (a : A) → e.beq a a ≡ true
  beq_refl a = (e.beq_iff a a).1 refl

module _ {A P : Type 0} ⦃e : Eq A⦄ where
  pub find-keys :
      (m : List (A × P)) (k : ℕ) (a : A) → get_elem? (keys m) k ≡ some a → is_some (find a m) ≡ true
  unfolding find
  find-keys [] k a h = absurd (grind arith)
  find-keys ((b, p) ∷ m) zero a h =
      let same : b ≡ a = some-injective _ _ h in ground (arith, same, beq_refl a)
  find-keys ((b, p) ∷ m) (suc k) a h = ground (arith, find-keys m k a h)

module _ {A N : Type 0} ⦃e : Eq A⦄ where
  pub find-put_nonces_kept :
      (nonce_of : A → N) (accounts : List A) (m : List (A × N)) (a : A)
      → is_some (find a m) ≡ true
      → is_some (find a (put_nonces nonce_of accounts m)) ≡ true
  unfolding put_nonces
  find-put_nonces_kept nonce_of [] m a h = h
  find-put_nonces_kept nonce_of (b ∷ rest) m a h =
      find-put_nonces_kept nonce_of rest (put b (nonce_of b) m) a
        (ground (arith, find-put b a (nonce_of b) m, h))

  pub find-put_nonces :
      (nonce_of : A → N) (accounts : List A) (m : List (A × N)) (k : ℕ) (a : A)
      → get_elem? accounts k ≡ some a
      → is_some (find a (put_nonces nonce_of accounts m)) ≡ true
  unfolding put_nonces
  find-put_nonces nonce_of [] m k a h = absurd (grind arith)
  find-put_nonces nonce_of (b ∷ rest) m zero a h =
      let same : b ≡ a = some-injective _ _ h in
      find-put_nonces_kept nonce_of rest (put b (nonce_of b) m) a
        (ground (arith, find-put b a (nonce_of b) m, same, beq_refl a))
  find-put_nonces nonce_of (b ∷ rest) m (suc k) a h =
      find-put_nonces nonce_of rest (put b (nonce_of b) m) k a h

module _ {A P N : Type 0} ⦃e : Eq A⦄ where
  -- Every account has a provider and a nonce provider, and the cursor is at one.
  pub record IsUsable (w : Wallet A P N) : Type 0 where
    pub in_range : w.cursor < length w.accounts
    pub provided :
        (k : ℕ) (a : A) → get_elem? w.accounts k ≡ some a → is_some (find a w.providers) ≡ true
    pub counted :
        (k : ℕ) (a : A) → get_elem? w.accounts k ≡ some a → is_some (find a w.nonces) ≡ true

  pub init-IsUsable :
      (nonce_of : A → N) (unlocks : P → A → Bool) (visited : List (A × P)) (sdk : Option (Option ℕ))
      (w₀ w : Wallet A P N)
      → Perm visited w₀.providers
      → init nonce_of unlocks visited sdk w₀ ≡ succeeds w
      → IsUsable w
  init-IsUsable nonce_of unlocks visited sdk w₀ w p h =
      let ready = init-IsReady nonce_of unlocks visited sdk w₀ w p h in
      record {
        in_range = omega (arith, ready.cursor, ready.some_account);
        provided = λ k a at.
            ap (λ m. is_some (find a m)) ready.providers
            ∙ find-keys w₀.providers k a (sym (ap (λ l. get_elem? l k) ready.accounts) ∙ at);
        counted = λ k a at.
            ap (λ m. is_some (find a m)) ready.nonces
            ∙ find-put_nonces nonce_of (keys w₀.providers) w₀.nonces k a
                (sym (ap (λ l. get_elem? l k) ready.accounts) ∙ at);
      }

module _ {A P N D X H : Type 0} ⦃e : Eq A⦄ (limits : List (ℕ × ℕ)) where
  -- A call of `Send`, from a wallet that is usable.
  pub send-IsUsable :
      (o : A → Outside D X H) (r : Request D X) (w : Wallet A P N)
      → IsUsable w
      → DoesNotPanic (send o limits r w).0 × IsUsable (send o limits r w).1
  unfolding send call_with_account get_account
  send-IsUsable o r w u =
      let (a, at, chosen) = select_next w u.in_range in
      let w' = record w { cursor = (w.cursor + 1) % length w.accounts } in
      let counted = u.counted w.cursor a at in
      rw (chosen, send)
        (
          subst (λ known. DoesNotPanic (send_with_account (o a) false limits w.chain_id known r))
              (sym counted) (send_with_account-DoesNotPanic (o a) limits w.chain_id r),
          record {
            in_range = omega (arith, u.in_range);
            provided = u.provided;
            counted = u.counted;
          },
        )
