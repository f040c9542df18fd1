-- ===== src/Wallet/SignerTests.antt =====
-- Nonce providers, key stores and signers at concrete calls, passwords and wallets.
use bridge_common.Prelude.{
  ℕ, zero, suc, ◌≡◌, inl, refl, sym, ap, ◌∙◌, true, false, List, [], ◌∷◌, none, some, All, length,
  arith,
}
use mathlib.Core.Option.{some-injective}
use bridge_common.Prelude.Int.{pos}
use mathlib.Core.List.Perm
use bridge_common.Prelude.Text.{Text, codes}
use bridge_common.Util.Bytes.{to_lower}
use bridge_common.Wallet.Send.{Reply, fine, bad}
use bridge_common.Wallet.Nonce.{NonceProvider, Confirmed, new_remote_nonce_provider}
use bridge_common.Wallet.Nonce.Sequence.{Call, nonces, send_all, send_all-new_remote_nonce_provider}
use bridge_common.Prelude.Keyed.{nat_eq, find, put}
use bridge_common.Wallet.Accounts.{
  Wallet, succeeds, init, update_accounts, unlock_all, activate, verify_chain_id, put_nonces,
}
use bridge_common.Wallet.Nonce.Rounds.{Order, of_account, send_orders, send_orders-confirmed}
use bridge_common.Wallet.KeyStore.{new_key_store_provider, init_account}
use bridge_common.Wallet.KeyStore.Passwords.{Visits, Agree, init_account-password}
use bridge_common.Wallet.Signers.{Config, KeyWallet, new_ont_signer}
use bridge_common.Wallet.Signers.Opened.{OntOutcome, new_ont_signer-OntOutcome}

-- A call whose signer answers as given.
abbrev calls : Reply ℕ → Call ℕ ℕ ℕ
calls signed = record {
  outside = record {
    suggest_gas_price = fine (pos 20);
    suggest_gas_tip = fine (pos 2);
    acquire = fine 0;
    estimate_gas = λ d v p c. fine 21_000;
    sign = λ tx. signed;
    submit = λ h. none;
    mul_float = λ p x. p;
    scale = λ n. n;
    has_been_executed = λ t. false;
  };
  limits = [];
  chain = 2;
  request = record {
    payload = 0;
    amount = pos 1;
    gas_limit = 0;
    gas_price = none;
    gas_price_x = none;
  };
}

abbrev three_calls : List (Call ℕ ℕ ℕ)
three_calls = calls (fine 1) ∷ calls (bad (codes "locked")) ∷ calls (fine 2) ∷ []

abbrev nine : Confirmed ℕ
nine address = fine 9

send_all-new_remote_nonce_provider_example :
    let (es, confirmed) = send_all (new_remote_nonce_provider 1) three_calls nine in
    All (λ n. nine 1 ≡ fine n) (nonces es) × (confirmed ≡ nine)
send_all-new_remote_nonce_provider_example = send_all-new_remote_nonce_provider 1 nine three_calls

abbrev passwords : List (Text × Text)
passwords = (codes "0xAb", codes "secret") ∷ []

passwords-Visits : Visits passwords (passwords)
passwords-Visits = record {
  every = λ i e at. (i, at);
  only = ((0, codes "0xAb", refl, inl refl), tt);
}

passwords-Agree : Agree passwords
passwords-Agree zero zero a b p q e f same =
    ap (λ (c : Text × Text). c.1) (sym (some-injective _ _ e) ∙ some-injective _ _ f)
passwords-Agree zero (suc j) a b p q e f same = absurd (grind arith)
passwords-Agree (suc i) j a b p q e f same = absurd (grind arith)

init_account-password_example :
    init_account
      (λ (s : Text) (a : Text) pass. pass)
      (λ a. a)
      (new_key_store_provider
        (λ path. path)
        passwords
        (record { passwords = passwords; path = codes "keys" }))
      (codes "0xaB")
    ≡ codes "secret"
unfolding to_lower
init_account-password_example =
    init_account-password (λ path. path) (λ (s : Text) (a : Text) pass. pass) (λ a. a)
      (record { passwords = passwords; path = codes "keys" }) passwords (codes "0xaB") 0
      (codes "0xAb") (codes "secret") passwords-Visits passwords-Agree refl refl

-- A wallet that has the account 5 under the password "p", and makes the account 6.
abbrev key_wallet : KeyWallet ℕ
key_wallet = record {
  get_default_account = λ pass. elim pass [ [] ↦ (none, true) | c ∷ cs ↦ (some 5, false) ];
  new_default_setting_account = λ pass. (some 6, false);
  save_fails = true;
}

abbrev config : Config
config = record { path = codes "keys"; password = [] }

new_ont_signer-OntOutcome_example :
    OntOutcome
      (λ path. some key_wallet)
      (some config)
      (new_ont_signer (λ path. some key_wallet) (some config))
new_ont_signer-OntOutcome_example =
    new_ont_signer-OntOutcome (λ path. some key_wallet) (some config)

-- Two accounts, before and after `Init`.
abbrev Remote : Type 0
Remote = NonceProvider (Confirmed ℕ)

abbrev fresh : Wallet ℕ ℕ Remote
fresh = record {
  chain_id = 2;
  providers = (11, 1) ∷ (12, 1) ∷ [];
  provider = none;
  account = none;
  nonces = [];
  accounts = [];
  cursor = 0;
}

abbrev pair : Wallet ℕ ℕ Remote
pair = record fresh {
  provider = some 1;
  account = some 11;
  nonces = (11, new_remote_nonce_provider 11) ∷ (12, new_remote_nonce_provider 12) ∷ [];
  accounts = 11 ∷ 12 ∷ [];
}

init-pair :
    init new_remote_nonce_provider (λ p a. true) fresh.providers (some (some 2)) fresh
    ≡ succeeds pair
unfolding init update_accounts unlock_all activate verify_chain_id put_nonces put find
init-pair = refl

abbrev order : Order ℕ ℕ ℕ ℕ
order = record { outside = λ a. (calls (fine 1)).outside; request = (calls (fine 1)).request }

send_orders-confirmed_example :
    let (t, last) = send_orders [] (order ∷ order ∷ order ∷ []) pair nine in
    (length t ≡ 3) × (last ≡ nine) × ((b : ℕ) → All (λ n. nine b ≡ fine n) (of_account b t))
send_orders-confirmed_example =
    send_orders-confirmed [] nine (λ p a. true) fresh.providers (some (some 2)) fresh pair
      (order ∷ order ∷ order ∷ []) refl (Perm.refl _) init-pair
