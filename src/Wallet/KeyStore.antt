-- ===== src/Wallet/KeyStore.antt =====
-- `wallet/keystore.go`: the provider that unlocks accounts of a key store with the configured
-- passwords. The key store is not of this repository: `S` is its type, and opening it and unlocking an
-- account are arguments.
pub mod Passwords
use bridge_common.Prelude.{Bool, List, [], ◌∷◌, Option, none, some}
use bridge_common.Prelude.Text.{Text, lookup, insert}
use bridge_common.Util.Bytes.{to_lower}

abbrev pub PasswordMap : Type 0
PasswordMap = List (Text × Text)

pub record KeyStoreProviderConfig : Type 0 where
  pub passwords : PasswordMap
  pub path : Text

pub record KeyStoreProvider (S : Type 0) : Type 0 where
  pub store : S
  pub config : KeyStoreProviderConfig

-- The loop of `NewKeyStoreProvider`, over the entries in the order in which Go visits them.
unfoldable pub lower_all : List (Text × Text) → PasswordMap → PasswordMap
lower_all [] m = m
lower_all ((addr, pass) ∷ visits) m = lower_all visits (insert (to_lower addr) pass m)

unfoldable pub new_key_store_provider :
    {S : Type 0} → (Text → S) → List (Text × Text) → KeyStoreProviderConfig → KeyStoreProvider S
unfolding lower_all
new_key_store_provider new_key_store visits config = record {
  store = new_key_store config.path;
  config = record config { passwords = lower_all visits config.passwords };
}

-- The read of a map: the empty text for a missing key.
abbrev pub password : Option Text → Text
password none = []
password (some pass) = pass

module _ {S A E : Type 0} (unlock : S → A → Text → E) (address : A → Text) where
  -- `Init` returns the error of `Unlock`; `address` is the text of an account's address.
  unfoldable pub init_account : KeyStoreProvider S → A → E
  init_account p account =
      unlock p.store account (password (lookup (to_lower (address account)) p.config.passwords))
