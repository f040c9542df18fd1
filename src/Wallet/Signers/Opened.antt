-- ===== src/Wallet/Signers/Opened.antt =====
-- What `NewOntSigner` of `wallet/ont.go` and `NewPolySigner` of `wallet/poly.go` return, by what the
-- wallet answers.
use bridge_common.Prelude.{
  ◌≡◌, ◌≢◌, Option-cases, refl, sym, ◌∙◌, ◌⊎◌, inl, inr, Bool, true, false, [], ◌∷◌, Option, none,
  some,
}
use mathlib.Core.Option.{some-injective}
use bridge_common.Prelude.Text.{Text}
use bridge_common.Wallet.Signers.{
  Config, KeyWallet, added, saved, OntSigner, Made, add_account, ont_account, new_ont_signer,
  poly_account, new_poly_signer,
}

module _ {A : Type 0} (open_wallet : Text → Option (KeyWallet A)) where
  -- The account under the password of the configuration is there.
  abbrev pub Has : Option Config → A → Type 0
  Has none a = ⊥
  Has (some c) a =
      (w : KeyWallet A) × (open_wallet c.path ≡ some w)
      × (w.get_default_account c.password ≡ (some a, false))

  -- How `NewOntSigner` ends.
  pub data OntOutcome (config : Option Config) : Made (OntSigner A) → Type 0 where
    -- With the default account, and the file untouched.
    opened :
        {c : Config} {a : A}
        → config ≡ some c
        → Has config a
        → OntOutcome config (some (record { account = some a; config = c }), false, [])
    -- With an error and no signer, as there is no configuration, or no wallet at its path.
    refused :
        (config ≡ none) ⊎ ((c : Config) × (config ≡ some c) × (open_wallet c.path ≡ none))
        → OntOutcome config (none, true, [])
    -- With an error and no signer, as the wallet gives no default account and makes no new one;
    -- nothing is written.
    not_made :
        {c : Config} {w : KeyWallet A} {a : Option A}
        → config ≡ some c
        → open_wallet c.path ≡ some w
        → ((d : A) → w.get_default_account c.password ≢ (some d, false))
        → w.new_default_setting_account c.password ≡ (a, true)
        → OntOutcome config (none, true, added ∷ [])
    -- With an account that did not exist, and a signer for it even if the file could not be written,
    -- which the error tells.
    created :
        {c : Config} {w : KeyWallet A} {a : Option A}
        → config ≡ some c
        → open_wallet c.path ≡ some w
        → ((d : A) → w.get_default_account c.password ≢ (some d, false))
        → w.new_default_setting_account c.password ≡ (a, false)
        → OntOutcome config
            (some (record { account = a; config = c }), w.save_fails, added ∷ saved ∷ [])

  added-OntOutcome :
      (c : Config) (w : KeyWallet A)
      → open_wallet c.path ≡ some w
      → ((d : A) → w.get_default_account c.password ≢ (some d, false))
      → (r : Option A × Bool) → w.new_default_setting_account c.password ≡ r
      → OntOutcome (some c) (add_account c w r)
  unfolding add_account
  added-OntOutcome c w at missing (account, true) e = not_made refl at missing e
  added-OntOutcome c w at missing (account, false) e = created refl at missing e

  ont_account-OntOutcome :
      (c : Config) (w : KeyWallet A)
      → open_wallet c.path ≡ some w
      → (r : Option A × Bool) → w.get_default_account c.password ≡ r
      → OntOutcome (some c) (ont_account c w r)
  unfolding ont_account
  ont_account-OntOutcome c w at (some a, false) e = opened refl (w, at, e)
  ont_account-OntOutcome c w at (some a, true) e =
      added-OntOutcome c w at (λ d f. cc) (w.new_default_setting_account c.password) refl
  ont_account-OntOutcome c w at (none, bad) e =
      added-OntOutcome c w at (λ d f. cc) (w.new_default_setting_account c.password) refl

  -- Where the wallet at the configured path gives the default account, `NewOntSigner` returns it and
  -- leaves the file alone. Where the wallet gives none, whatever the reason, it makes a new account,
  -- writes it to the file, and returns it even if writing fails; only if no account can be made does
  -- it return an error and no signer. Without a configuration or a wallet it returns an error and no
  -- signer, and asks for nothing.
  pub new_ont_signer-OntOutcome :
      (config : Option Config) → OntOutcome config (new_ont_signer open_wallet config)
  unfolding new_ont_signer
  new_ont_signer-OntOutcome none = refused (inl refl)
  new_ont_signer-OntOutcome (some c) = elim (Option-cases (open_wallet c.path)) [
    | inl e ↦ rw (e, new_ont_signer) (refused (inr (c, refl, e)))
    | inr (w, e) ↦
        rw (e, new_ont_signer)
          (ont_account-OntOutcome c w e (w.get_default_account c.password) refl)
  ]

  poly_account-cases :
      (c : Config) (w : KeyWallet A)
      → open_wallet c.path ≡ some w
      → (r : Option A × Bool) → w.get_default_account c.password ≡ r
      → ((a : A) × (poly_account r ≡ (some a, false)) × Has (some c) a)
        ⊎ ((poly_account r ≡ (none, true)) × ((a : A) → Has (some c) a → ⊥))
  unfolding poly_account
  poly_account-cases c w at (some a, false) e = inl (a, refl, (w, at, e))
  poly_account-cases c w at (some a, true) e =
      inr (refl, λ d (w', at', h). cc (some-injective _ _ (sym at ∙ at')))
  poly_account-cases c w at (none, bad) e =
      inr (refl, λ d (w', at', h). cc (some-injective _ _ (sym at ∙ at')))

  -- `NewPolySigner` returns an account and no error if the wallet gives the default account, and
  -- otherwise no account and an error.
  pub new_poly_signer-Has :
      (config : Option Config)
      → ((a : A) × (new_poly_signer open_wallet config ≡ (some a, false)) × Has config a)
        ⊎ ((new_poly_signer open_wallet config ≡ (none, true)) × ((a : A) → Has config a → ⊥))
  unfolding new_poly_signer
  new_poly_signer-Has none = inr (refl, λ a h. h)
  new_poly_signer-Has (some c) = elim (Option-cases (open_wallet c.path)) [
    | inl e ↦ inr (rw (e, new_poly_signer) refl, λ a (w, at, h). cc)
    | inr (w, e) ↦
        let same : new_poly_signer open_wallet (some c)
            ≡ poly_account (w.get_default_account c.password) =
          rw (e, new_poly_signer) refl in
        elim (poly_account-cases c w e (w.get_default_account c.password) refl) [
          | inl (a, p, h) ↦ inl (a, same ∙ p, h)
          | inr (p, n) ↦ inr (same ∙ p, n)
        ]
  ]
