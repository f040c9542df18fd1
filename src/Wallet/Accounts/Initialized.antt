-- ===== src/Wallet/Accounts/Initialized.antt =====
-- `Init` of `wallet/wallet.go`: what holds of a wallet that it accepts, and when it fails.
use bridge_common.Prelude.{
  ℕ, ◌+◌, ◌%◌, ◌^◌, ◌<◌, ◌≡◌, ◌⊎◌, inl, inr, ap, sym, ◌∙◌, Bool, true, List, [], ◌∷◌, Option, none,
  some, length, get_elem?, arith, Bool-cases,
}
use bridge_common.Prelude.Keyed.{Eq, find, keys}
use mathlib.Core.List.{Perm}
use bridge_common.Wallet.Accounts.Visits.{init-visited}
use bridge_common.Wallet.Accounts.RoundRobin.{select_next}
use bridge_common.Wallet.Accounts.{
  Wallet, succeeds, update_accounts, put_nonces, verify_chain_id, unlock_all, activate, init,
  select, active_account,
}

module _ {A P N : Type 0} ⦃e : Eq A⦄ (nonce_of : A → N) (unlocks : P → A → Bool) where
  -- The chain's id after `Init`, when the wallet has an SDK that answers.
  abbrev pub ChainAgrees : Option (Option ℕ) → ℕ → ℕ → Type 0
  ChainAgrees none before after = after ≡ before
  ChainAgrees (some none) before after = ⊥
  ChainAgrees (some (some answer)) before after =
      (after ≡ answer % 2 ^ 64) × ((before ≡ 0) ⊎ (before ≡ after))

  pub record IsReady (w₀ w : Wallet A P N) (sdk : Option (Option ℕ)) : Type 0 where
    pub unlocked : unlock_all unlocks w₀.providers ≡ true
    pub providers : w.providers ≡ w₀.providers
    pub accounts : w.accounts ≡ keys w₀.providers
    pub nonces : w.nonces ≡ put_nonces nonce_of (keys w₀.providers) w₀.nonces
    pub some_account : 0 < length w.accounts
    pub cursor : w.cursor ≡ 0
    pub active : w.account ≡ get_elem? w.accounts 0
    pub its_provider : (a : A) → get_elem? w.accounts 0 ≡ some a → w.provider ≡ find a w.providers
    pub chain : ChainAgrees sdk w₀.chain_id w.chain_id

  verify-ok :
      (answer : Option ℕ) (w w' : Wallet A P N)
      → verify_chain_id answer w ≡ succeeds w'
      → (w' ≡ record w { chain_id = w'.chain_id })
        × ChainAgrees (some answer) w.chain_id w'.chain_id
  unfolding verify_chain_id
  verify-ok none w w' h = absurd (ground arith)
  verify-ok (some answer) w w' h = ground arith

  -- What the end of `Init` leaves alone, and what it sets.
  record IsActive (sdk : Option (Option ℕ)) (accounts : List A) (w w' : Wallet A P N) : Type 0 where
    providers : w'.providers ≡ w.providers
    same_accounts : w'.accounts ≡ w.accounts
    nonces : w'.nonces ≡ w.nonces
    cursor : w'.cursor ≡ w.cursor
    some_account : 0 < length accounts
    active : w'.account ≡ get_elem? accounts 0
    its_provider : (a : A) → get_elem? accounts 0 ≡ some a → w'.provider ≡ find a w.providers
    chain : ChainAgrees sdk w.chain_id w'.chain_id

  activate-ok :
      (sdk : Option (Option ℕ)) (accounts : List A) (w w' : Wallet A P N)
      → activate sdk accounts w ≡ succeeds w'
      → IsActive sdk accounts w w'
  unfolding activate
  activate-ok sdk [] w w' h = absurd (ground arith)
  activate-ok none (a ∷ rest) w w' h = ground arith
  activate-ok (some none) (a ∷ rest) w w' h = absurd (ground (arith, verify-ok none _ w' h))
  activate-ok (some (some answer)) (a ∷ rest) w w' h =
      let v = verify-ok (some answer) _ w' h in ground (arith, v)

  -- A wallet that `Init` accepts has unlocked every account, has at least one, has exactly the
  -- accounts of its providers, starts the round at the first, which is the active one, and has the
  -- chain's id of the node, which the configured id, unless 0, was equal to.
  pub init-IsReady :
      (visited : List (A × P)) (sdk : Option (Option ℕ)) (w₀ w : Wallet A P N)
      → Perm visited w₀.providers
      → init nonce_of unlocks visited sdk w₀ ≡ succeeds w
      → IsReady w₀ w sdk
  unfolding init update_accounts
  init-IsReady visited sdk w₀ w p done =
      let h = sym (init-visited nonce_of unlocks visited sdk w₀ p) ∙ done in
      elim (Bool-cases (unlock_all unlocks w₀.providers)) [
        | inl all ↦
            let v : IsActive sdk (keys w₀.providers) (update_accounts nonce_of w₀) w =
              activate-ok sdk _ _ w (ground arith) in
            record {
              unlocked = all;
              providers = v.providers;
              accounts = v.same_accounts;
              nonces = v.nonces;
              some_account = omega (arith, v.some_account, ap length v.same_accounts);
              cursor = v.cursor;
              active = v.active ∙ ap (λ l. get_elem? l 0) (sym v.same_accounts);
              its_provider = λ a at.
                  v.its_provider a (ap (λ l. get_elem? l 0) (sym v.same_accounts) ∙ at)
                  ∙ ap (find a) (sym v.providers);
              chain = v.chain;
            }
        | inr locked ↦ absurd (ground arith)
      ]

  -- After an `Init` that succeeds `Account` returns what the first call of `Select` returns.
  pub init-active_account :
      (none_yet : A) (visited : List (A × P)) (sdk : Option (Option ℕ)) (w₀ w : Wallet A P N)
      → Perm visited w₀.providers
      → init nonce_of unlocks visited sdk w₀ ≡ succeeds w
      → (w' : Wallet A P N) × (select w ≡ some (active_account none_yet w, w'))
  unfolding active_account
  init-active_account none_yet visited sdk w₀ w p h =
      let ready = init-IsReady visited sdk w₀ w p h in
      let (a, at, chosen) = select_next w (omega (arith, ready.cursor, ready.some_account)) in
      let first = sym (ap (get_elem? w.accounts) ready.cursor) ∙ at in
      (
        record w { cursor = (w.cursor + 1) % length w.accounts },
        chosen ∙ ground (arith, ready.active, first, ready.its_provider a first),
      )
