-- ===== src/Wallet/Accounts/Orders.antt =====
-- `Init` of `wallet/wallet.go`, as Go visits the map of providers in one order or another.
use mathlib.Core.List.{Perm}
use mathlib.Core.List.Perm
use bridge_common.Prelude.{
  ℕ, ◌≡◌, refl, sym, inl, inr, ◌∙◌, Bool, List, [], ◌∷◌, Option, none, some, Bool-cases, ◌&&◌, not,
  ◌==◌, ◌%◌, ◌^◌,
}
use bridge_common.Wallet.Accounts.Visits.{unlock_all-Perm}
use bridge_common.Prelude.Keyed.{Eq, keys}
use bridge_common.Wallet.Accounts.{
  Wallet, Outcome, panics, fails, succeeds, update_accounts, verify_chain_id, unlock_all, activate,
  init,
}

module _ {A P N : Type 0} where
  -- The same verdict, with the same accounts in some order, and the same chain's id.
  pub data IsAlike : Outcome (Wallet A P N) → Outcome (Wallet A P N) → Type 0 where
    both_panic : IsAlike panics panics
    both_fail :
        {w w' : Wallet A P N}
        → Perm w.accounts w'.accounts
        → w.chain_id ≡ w'.chain_id
        → IsAlike (fails w) (fails w')
    both_succeed :
        {w w' : Wallet A P N}
        → Perm w.accounts w'.accounts
        → w.chain_id ≡ w'.chain_id
        → IsAlike (succeeds w) (succeeds w')

Perm-nil : {A : Type 0} {a : A} {xs : List A} → ¬ Perm [] (a ∷ xs)
Perm-nil q = let same = Perm.length-eq q in cc

module _ {A P N : Type 0} ⦃e : Eq A⦄ (nonce_of : A → N) (unlocks : P → A → Bool) where
  verify-IsAlike :
      (answer : Option ℕ) (w w' : Wallet A P N)
      → Perm w.accounts w'.accounts
      → w.chain_id ≡ w'.chain_id
      → IsAlike (verify_chain_id answer w) (verify_chain_id answer w')
  unfolding verify_chain_id
  verify-IsAlike none w w' p c = both_panic
  verify-IsAlike (some answer) w w' p c =
      elim (Bool-cases (not (w'.chain_id == 0) && not (w'.chain_id == answer % 2 ^ 64))) [
        | inl bad ↦ rw (c, bad) both_panic
        | inr good ↦ rw (c, good) (both_succeed p refl)
      ]

  activate-IsAlike :
      (sdk : Option (Option ℕ)) (xs xs' : List A) (w w' : Wallet A P N)
      → Perm xs xs'
      → Perm w.accounts w'.accounts
      → w.chain_id ≡ w'.chain_id
      → IsAlike (activate sdk xs w) (activate sdk xs' w')
  unfolding activate
  activate-IsAlike sdk [] [] w w' q p c = both_fail p c
  activate-IsAlike sdk [] (a ∷ xs) w w' q p c = absurd (Perm-nil q)
  activate-IsAlike sdk (a ∷ xs) [] w w' q p c = absurd (Perm-nil (Perm.symm q))
  activate-IsAlike none (a ∷ xs) (b ∷ ys) w w' q p c = both_succeed p c
  activate-IsAlike (some answer) (a ∷ xs) (b ∷ ys) w w' q p c = verify-IsAlike answer _ _ p c

  -- `Init` ends alike in whatever orders Go visits the providers in the two loops: for any orders it
  -- panics in both, returns an error in both, or succeeds in both, and where it does not panic the
  -- wallets have the same accounts, each as often, and the same chain's id.
  pub init-IsAlike :
      (visited visited' : List (A × P)) (sdk : Option (Option ℕ)) (w : Wallet A P N)
      (m : List (A × P))
      → Perm visited w.providers
      → Perm visited' m
      → Perm w.providers m
      → IsAlike
          (init nonce_of unlocks visited sdk w)
          (init nonce_of unlocks visited' sdk (record w { providers = m }))
  unfolding init update_accounts
  init-IsAlike visited visited' sdk w m v v' p =
      let own = unlock_all-Perm unlocks v in
      let same = unlock_all-Perm unlocks v' ∙ sym (unlock_all-Perm unlocks p) in
      let accounts : Perm (keys w.providers) (keys m) = Perm.map (λ e. e.0) p in
      elim (Bool-cases (unlock_all unlocks w.providers)) [
        | inl all ↦ rw (own ∙ all, same ∙ all) (activate-IsAlike sdk _ _ _ _ accounts accounts refl)
        | inr shut ↦ rw (own ∙ shut, same ∙ shut) (both_fail accounts refl)
      ]
