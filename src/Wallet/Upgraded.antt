-- ===== src/Wallet/Upgraded.antt =====
-- `Upgrade` of `wallet/wallet.go`: the new wallet is a copy of the old one with an account list, an
-- active account, a round and a chain's id of its own, but the maps of the two are the same.
pub mod Usable
use bridge_common.Prelude.{ℕ, ◌≡◌, ◌⊎◌, Bool, List, Option}
use mathlib.Core.List.{Perm}
use bridge_common.Prelude.Keyed.{Eq}
use bridge_common.Wallet.Accounts.{Wallet, Outcome, fails, succeeds, add_provider, init}
use bridge_common.Wallet.Send.{Request, Outside}
use bridge_common.Wallet.Send.Rounds.{send}

pub data Side : Type 0 where
  original upgraded : Side

-- The two wallets, each with the maps as they are.
pub record Twins (A P N : Type 0) : Type 0 where
  pub original : Wallet A P N
  pub upgraded : Wallet A P N

module _ {A P N : Type 0} where
  unfoldable pub upgrade : Wallet A P N → Twins A P N
  upgrade w = record { original = w; upgraded = w }

  abbrev pub side_of : Side → Twins A P N → Wallet A P N
  side_of original t = t.original
  side_of upgraded t = t.upgraded

  -- A wallet whose maps are those of another.
  unfoldable pub share : Wallet A P N → Wallet A P N → Wallet A P N
  share w v = record v { providers = w.providers; nonces = w.nonces }

  -- One of the two wallets is changed, its maps for both.
  unfoldable pub write : Side → Wallet A P N → Twins A P N → Twins A P N
  unfolding share
  write original w t = record { original = w; upgraded = share w t.upgraded }
  write upgraded w t = record { original = share w t.original; upgraded = w }

module _ {A P N : Type 0} ⦃e : Eq A⦄ where
  -- `AddProvider`, `Init` and `Send` of either wallet.
  pub data Step (D X H : Type 0) (t : Twins A P N) : Twins A P N → Type 0 where
    adds :
        (s : Side) (p : P) (accounts : List A)
        → Step D X H t (write s (add_provider p accounts (side_of s t)) t)
    inits :
        (s : Side) (nonce_of : A → N) (unlocks : P → A → Bool) (visited : List (A × P))
        (sdk : Option (Option ℕ)) (w : Wallet A P N)
        → Perm visited (side_of s t).providers
        → (init nonce_of unlocks visited sdk (side_of s t) ≡ fails w)
          ⊎ (init nonce_of unlocks visited sdk (side_of s t) ≡ succeeds w)
        → Step D X H t (write s w t)
    sends :
        (s : Side) (o : A → Outside D X H) (limits : List (ℕ × ℕ)) (r : Request D X)
        → Step D X H t (write s (send o limits r (side_of s t)).1 t)

  pub data Run (D X H : Type 0) (t : Twins A P N) : Twins A P N → Type 0 where
    start : Run D X H t t
    next : {u v : Twins A P N} → Run D X H t u → Step D X H u v → Run D X H t v
