-- ===== src/Wallet/Accounts.antt =====
-- The state of a wallet in `wallet/wallet.go`: its providers and accounts, `Init`, and `Select`.
-- `A` is the type of accounts, `P` of providers and `N` of nonce providers; `nonce_of` stands for
-- `NewRemoteNonceProvider`. The order of a map is the order in which Go iterates it.
-- Each iteration has an order of its own.
pub mod RoundRobin
pub mod OneRound
pub mod Initialized
pub mod Outcomes
pub mod Orders
pub mod Visits
use bridge_common.Prelude.{
  ℕ, ◌+◌, ◌%◌, ◌^◌, Bool, true, false, not, ◌&&◌, List, [], ◌∷◌, ◌++◌, map, Option, none, some,
  length, get_elem?, if◌then◌else◌, ◌==◌,
}
use bridge_common.Prelude.Keyed.{Eq, find, put, keys}

pub record Wallet (A P N : Type 0) : Type 0 where
  pub chain_id : ℕ
  pub providers : List (A × P)
  pub provider : Option P
  pub account : Option A
  pub nonces : List (A × N)
  pub accounts : List A
  pub cursor : ℕ

-- What `Init` ends in: a panic of `util.Fatal`, an error, or no error.
pub data Outcome {ℓ} (W : Type ℓ) : Type ℓ where
  panics : Outcome W
  fails : W → Outcome W
  succeeds : W → Outcome W

module _ {A P : Type 0} ⦃e : Eq A⦄ where
  unfoldable pub put_all : P → List A → List (A × P) → List (A × P)
  put_all p [] m = m
  put_all p (a ∷ rest) m = put_all p rest (put a p m)

  -- The nonce providers of the accounts.
  unfoldable pub put_nonces : (A → P) → List A → List (A × P) → List (A × P)
  put_nonces nonce_of [] m = m
  put_nonces nonce_of (a ∷ rest) m = put_nonces nonce_of rest (put a (nonce_of a) m)

abbrev pub account_or : {A : Type 0} → A → Option A → A
account_or none_yet none = none_yet
account_or none_yet (some a) = a

-- The loop of `Init`: whether every provider unlocks its account.
unfoldable pub unlock_all : {A P : Type 0} → (P → A → Bool) → List (A × P) → Bool
unlock_all unlocks [] = true
unlock_all unlocks ((a, p) ∷ m) = unlocks p a && unlock_all unlocks m

module _ {A P N : Type 0} ⦃e : Eq A⦄ where
  -- `New`, before the providers are added.
  unfoldable pub new_wallet : ℕ → Wallet A P N
  new_wallet chain_id = record {
    chain_id = chain_id;
    providers = [];
    provider = none;
    account = none;
    nonces = [];
    accounts = [];
    cursor = 0;
  }

  unfoldable pub add_provider : P → List A → Wallet A P N → Wallet A P N
  unfolding put_all
  add_provider p accounts w = record w { providers = put_all p accounts w.providers }

  unfoldable pub update_accounts : (A → N) → Wallet A P N → Wallet A P N
  unfolding put_nonces
  update_accounts nonce_of w = record w {
    nonces = put_nonces nonce_of (keys w.providers) w.nonces;
    accounts = keys w.providers;
    cursor = 0;
  }

  -- `VerifyChainId`, given what the node answers; `none` is an error of the node.
  unfoldable pub verify_chain_id : Option ℕ → Wallet A P N → Outcome (Wallet A P N)
  verify_chain_id none w = panics
  verify_chain_id (some answer) w =
      let id = answer % 2 ^ 64 in
      if not (w.chain_id == 0) && not (w.chain_id == id)
      then panics
      else succeeds (record w { chain_id = id })

  -- The end of `Init`, by the accounts; the node's answer is missing if the wallet has no SDK.
  unfoldable pub activate : Option (Option ℕ) → List A → Wallet A P N → Outcome (Wallet A P N)
  activate sdk [] w = fails w
  activate none (a ∷ rest) w =
      succeeds (record w { account = some a; provider = find a w.providers })
  activate (some answer) (a ∷ rest) w =
      verify_chain_id answer (record w { account = some a; provider = find a w.providers })

  -- `Init`; its own loop comes by the providers in the order `visited`.
  unfoldable pub init :
      (A → N)
      → (P → A → Bool)
      → List (A × P)
      → Option (Option ℕ)
      → Wallet A P N
      → Outcome (Wallet A P N)
  init nonce_of unlocks visited sdk w₀ =
      let w = update_accounts nonce_of w₀ in
      if unlock_all unlocks visited then activate sdk w.accounts w else fails w

  -- `none` is the panic of an index out of range.
  unfoldable pub select : Wallet A P N → Option ((A × Option P × Option N) × Wallet A P N)
  select w = elim (get_elem? w.accounts w.cursor) [
    | none ↦ none
    | some a ↦ some (
      (a, find a w.providers, find a w.nonces),
      record w { cursor = (w.cursor + 1) % length w.accounts },
    )
  ]

  -- `GetAccount`
  unfoldable pub get_account : A → Wallet A P N → Option P × Option N
  get_account a w = (find a w.providers, find a w.nonces)

  -- `Account`, where the account is the zero value, `none_yet`, before `Init`.
  unfoldable pub active_account : A → Wallet A P N → A × Option P × Option N
  active_account none_yet w =
      let a = account_or none_yet w.account in (a, w.provider, find a w.nonces)
