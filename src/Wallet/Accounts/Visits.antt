-- ===== src/Wallet/Accounts/Visits.antt =====
-- The loop of `Init` of `wallet/wallet.go`, in whatever order it comes by the providers.
use mathlib.Core.List.{Perm, Permᴰ}
use mathlib.Core.Logic.{∥∥₁_elim}
use mathlib.Core.Bool.{Bool-set}
use bridge_common.Prelude.{ℕ, ◌≡◌, refl, ◌∙◌, ap, Bool, List, Option, arith, ◌&&◌, if◌then◌else◌}
use bridge_common.Prelude.Keyed.{Eq}
use bridge_common.Wallet.Accounts.{Wallet, fails, update_accounts, unlock_all, activate, init}

&&-swap : (a b c : Bool) → (a && (b && c)) ≡ (b && (a && c))
&&-swap a b c = ground arith

module _ {A P : Type 0} (unlocks : P → A → Bool) where
  unlock_all-Permᴰ :
      {m m' : List (A × P)} → Permᴰ m m' → unlock_all unlocks m ≡ unlock_all unlocks m'
  unfolding unlock_all
  unlock_all-Permᴰ Permᴰ.nil = refl
  unlock_all-Permᴰ (Permᴰ.cons e d) = λ i. unlocks (e i).1 (e i).0 && unlock_all-Permᴰ d i
  unlock_all-Permᴰ (Permᴰ.swap {a = a} {b = b} {l = l} e f) =
      &&-swap (unlocks a.1 a.0) (unlocks b.1 b.0) (unlock_all unlocks l)
      ∙ (λ i. unlocks (f i).1 (f i).0 && (unlocks (e i).1 (e i).0 && unlock_all unlocks l))
  unlock_all-Permᴰ (Permᴰ.trans d d') = unlock_all-Permᴰ d ∙ unlock_all-Permᴰ d'

  pub unlock_all-Perm :
      {m m' : List (A × P)} → Perm m m' → unlock_all unlocks m ≡ unlock_all unlocks m'
  unlock_all-Perm p = ∥∥₁_elim p (Bool-set _ _) unlock_all-Permᴰ

module _ {A P N : Type 0} ⦃e : Eq A⦄ (nonce_of : A → N) (unlocks : P → A → Bool) where
  -- `Init` ends as if its loop had the order of the other one.
  pub init-visited :
      (visited : List (A × P)) (sdk : Option (Option ℕ)) (w : Wallet A P N)
      → Perm visited w.providers
      → init nonce_of unlocks visited sdk w ≡ init nonce_of unlocks w.providers sdk w
  unfolding init
  init-visited visited sdk w p =
      let w' = update_accounts nonce_of w in
      ap (λ b. if b then activate sdk w'.accounts w' else fails w') (unlock_all-Perm unlocks p)
