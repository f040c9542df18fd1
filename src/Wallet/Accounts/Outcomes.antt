-- ===== src/Wallet/Accounts/Outcomes.antt =====
-- The ways in which `Init` of `wallet/wallet.go` ends.
use bridge_common.Prelude.{
  ℕ, ◌%◌, ◌^◌, ◌≡◌, ◌≢◌, inl, inr, refl, sym, Bool, true, false, List, [], ◌∷◌, Option, none, some,
  arith, Bool-cases,
}
use mathlib.Core.List.{Perm}
use mathlib.Core.List.Perm
use bridge_common.Wallet.Accounts.Visits.{init-visited}
use bridge_common.Prelude.Keyed.{Eq, keys}
use bridge_common.Wallet.Accounts.{
  Wallet, Outcome, panics, fails, succeeds, update_accounts, verify_chain_id, unlock_all, activate,
  init,
}
use bridge_common.Wallet.Accounts.Initialized.{IsReady, init-IsReady}

-- The node does not answer, or has another chain's id than the one configured.
abbrev pub Rejects : ℕ → Option ℕ → Type 0
Rejects configured none = Unit
Rejects configured (some answer) = (configured ≢ 0) × (configured ≢ answer % 2 ^ 64)

module _ {A P N : Type 0} ⦃e : Eq A⦄ (nonce_of : A → N) (unlocks : P → A → Bool) where
  pub data InitOutcome (sdk : Option (Option ℕ)) (w₀ : Wallet A P N)
      : Outcome (Wallet A P N) → Type 0 where
    -- An error: some provider does not unlock its account.
    locked :
        {w : Wallet A P N}
        → unlock_all unlocks w₀.providers ≡ false
        → w ≡ update_accounts nonce_of w₀
        → InitOutcome sdk w₀ (fails w)
    -- An error: there are no accounts.
    no_account :
        {w : Wallet A P N}
        → w₀.providers ≡ []
        → w ≡ update_accounts nonce_of w₀
        → InitOutcome sdk w₀ (fails w)
    -- A panic: the chain is not verified.
    rejected :
        {answer : Option ℕ}
        → unlock_all unlocks w₀.providers ≡ true
        → sdk ≡ some answer
        → Rejects w₀.chain_id answer
        → InitOutcome sdk w₀ panics
    ready : {w : Wallet A P N} → IsReady nonce_of unlocks w₀ w sdk → InitOutcome sdk w₀ (succeeds w)

  verify-panics :
      (answer : Option ℕ) (w : Wallet A P N)
      → verify_chain_id answer w ≡ panics
      → Rejects w.chain_id answer
  unfolding verify_chain_id
  verify-panics none w h = tt
  verify-panics (some answer) w h = ground arith

  verify-fails : (answer : Option ℕ) (w w' : Wallet A P N) → verify_chain_id answer w ≢ fails w'
  unfolding verify_chain_id
  verify-fails none w w' h = cc
  verify-fails (some answer) w w' h = ground arith

  activate-fails :
      (sdk : Option (Option ℕ)) (m : List (A × P)) (w w' : Wallet A P N)
      → activate sdk (keys m) w ≡ fails w'
      → (m ≡ []) × (w' ≡ w)
  unfolding activate
  activate-fails sdk [] w w' h = (refl, cc)
  activate-fails none ((a, p) ∷ m) w w' h = absurd cc
  activate-fails (some answer) ((a, p) ∷ m) w w' h = absurd (verify-fails answer _ w' h)

  activate-panics :
      (sdk : Option (Option ℕ)) (accounts : List A) (w : Wallet A P N)
      → activate sdk accounts w ≡ panics
      → (answer : Option ℕ) × (sdk ≡ some answer) × Rejects w.chain_id answer
  unfolding activate
  activate-panics sdk [] w h = absurd cc
  activate-panics none (a ∷ rest) w h = absurd cc
  activate-panics (some answer) (a ∷ rest) w h = (answer, refl, verify-panics answer _ h)

  outcome-InitOutcome :
      (sdk : Option (Option ℕ)) (w₀ : Wallet A P N) (o : Outcome (Wallet A P N))
      → init nonce_of unlocks w₀.providers sdk w₀ ≡ o
      → InitOutcome sdk w₀ o
  unfolding init update_accounts
  outcome-InitOutcome sdk w₀ (succeeds w) h =
      ready (init-IsReady nonce_of unlocks w₀.providers sdk w₀ w (Perm.refl _) h)
  outcome-InitOutcome sdk w₀ (fails w) h = elim (Bool-cases (unlock_all unlocks w₀.providers)) [
    | inr shut ↦ locked shut (ground (arith, h, shut))
    | inl all ↦
        let (empty, same) =
          activate-fails sdk w₀.providers (update_accounts nonce_of w₀) w
            (ground (arith, h, all)) in
        no_account empty same
  ]
  outcome-InitOutcome sdk w₀ panics h = elim (Bool-cases (unlock_all unlocks w₀.providers)) [
    | inr shut ↦ absurd (ground (arith, h, shut))
    | inl all ↦
        let (answer, asked, refused) =
          activate-panics sdk (keys w₀.providers) (update_accounts nonce_of w₀)
            (ground (arith, h, all)) in
        rejected all asked refused
  ]

  -- In whatever order its loop comes by the providers, `Init` ends in one of four ways. It returns an error if a provider does not unlock its account, or
  -- there are no accounts; the accounts are updated all the same. It panics if the wallet's node does
  -- not answer, or has another id than the one configured, unless that is 0. Otherwise the wallet has
  -- unlocked every account, has at least one, has exactly the accounts of its providers, starts the
  -- round at the first, which is the active one, and has the chain's id of its node.
  pub init-InitOutcome :
      (visited : List (A × P)) (sdk : Option (Option ℕ)) (w₀ : Wallet A P N)
      → Perm visited w₀.providers
      → InitOutcome sdk w₀ (init nonce_of unlocks visited sdk w₀)
  init-InitOutcome visited sdk w₀ p =
      outcome-InitOutcome sdk w₀ (init nonce_of unlocks visited sdk w₀)
        (sym (init-visited nonce_of unlocks visited sdk w₀ p))
