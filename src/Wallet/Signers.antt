-- ===== src/Wallet/Signers.antt =====
-- The signers of `wallet/ont.go` and `wallet/poly.go`. The wallets of the libraries ontology-go-sdk and
-- poly-go-sdk are not of this repository: what they answer is an argument. `A` is the type of accounts.
pub mod Opened
use bridge_common.Prelude.{Bool, true, false, List, [], ◌∷◌, Option, none, some}
use bridge_common.Prelude.Text.{Text}

-- `Path` and `Password` of `Config`.
pub record Config : Type 0 where
  pub path : Text
  pub password : Text

-- An opened wallet, by what it answers: accounts, which may be nil, and whether an error is returned.
pub record KeyWallet (A : Type 0) : Type 0 where
  pub get_default_account : Text → Option A × Bool
  pub new_default_setting_account : Text → Option A × Bool
  pub save_fails : Bool

-- What the code calls to change a wallet: `NewDefaultSettingAccount`, or `Save`.
pub data Change : Type 0 where
  added saved : Change

pub record OntSigner (A : Type 0) : Type 0 where
  pub account : Option A
  pub config : Config

-- The signer, nil or not, whether an error is returned, and the changes.
abbrev pub Made : Type 0 → Type 0
Made A = Option A × Bool × List Change

module _ {A : Type 0} where
  -- The part of `NewOntSigner` after the default account is missing.
  unfoldable pub add_account : Config → KeyWallet A → Option A × Bool → Made (OntSigner A)
  add_account config w (account, true) = (none, true, added ∷ [])
  add_account config w (account, false) =
      (some (record { account = account; config = config }), w.save_fails, added ∷ saved ∷ [])

  -- `NewOntSigner` from the default account on.
  unfoldable pub ont_account : Config → KeyWallet A → Option A × Bool → Made (OntSigner A)
  unfolding add_account
  ont_account config w (some account, false) =
      (some (record { account = some account; config = config }), false, [])
  ont_account config w (_, _) = add_account config w (w.new_default_setting_account config.password)

  -- A wallet that is missing stands for an error of `OpenWallet`.
  unfoldable pub new_ont_signer : (Text → Option (KeyWallet A)) → Option Config → Made (OntSigner A)
  unfolding ont_account
  new_ont_signer open_wallet none = (none, true, [])
  new_ont_signer open_wallet (some config) = elim (open_wallet config.path) [
    | none ↦ (none, true, [])
    | some w ↦ ont_account config w (w.get_default_account config.password)
  ]

  -- `NewPolySigner` from the default account on.
  unfoldable pub poly_account : Option A × Bool → Option A × Bool
  poly_account (some account, false) = (some account, false)
  poly_account (_, _) = (none, true)

  unfoldable pub new_poly_signer : (Text → Option (KeyWallet A)) → Option Config → Option A × Bool
  unfolding poly_account
  new_poly_signer open_wallet none = (none, true)
  new_poly_signer open_wallet (some config) = elim (open_wallet config.path) [
    | none ↦ (none, true)
    | some w ↦ poly_account (w.get_default_account config.password)
  ]
