-- ===== src/Wallet/KeyStore/Passwords.antt =====
-- Which password `Init` of `wallet/keystore.go` finds, whatever the order of a map's entries.
use bridge_common.Prelude.{
  ℕ, zero, suc, ◌≡◌, refl, sym, ap, ◌∙◌, ◌⊎◌, inl, inr, List, [], ◌∷◌, some, get_elem?, All, arith,
  Bool-cases,
}
use mathlib.Core.Option.{some-injective}
use bridge_common.Prelude.Text.{
  Text, text_eq, text_eq_iff, lookup, insert, lookup-insert, lookup-insert_self,
}
use bridge_common.Util.Bytes.{to_lower}
use bridge_common.Wallet.KeyStore.{
  PasswordMap, KeyStoreProviderConfig, lower_all, new_key_store_provider, password, init_account,
}

to_lower-to_lower : (t : Text) → to_lower (to_lower t) ≡ to_lower t
unfolding to_lower
to_lower-to_lower [] = refl
to_lower-to_lower (c ∷ cs) = ground (arith, to_lower-to_lower cs)

-- The entries that Go visits: all those of the map, and maybe some of those that the loop adds.
pub record Visits (m : PasswordMap) (visits : List (Text × Text)) : Type 0 where
  pub every :
      (i : ℕ) (e : Text × Text) → get_elem? m i ≡ some e → (j : ℕ) × (get_elem? visits j ≡ some e)
  pub only :
      All
        (λ e.
          (i : ℕ) × (a : Text) × (get_elem? m i ≡ some (a, e.1)) × ((e.0 ≡ a) ⊎ (e.0 ≡ to_lower a)))
        visits

-- Addresses that differ in case only have the same password.
abbrev pub Agree : PasswordMap → Type 0
Agree m =
    (i j : ℕ) (a b p q : Text)
    → get_elem? m i ≡ some (a, p)
    → get_elem? m j ≡ some (b, q)
    → to_lower a ≡ to_lower b
    → p ≡ q

module _ (target pass : Text) where
  -- An entry for the address has the password.
  abbrev Fits : Text × Text → Type 0
  Fits e = to_lower e.0 ≡ target → e.1 ≡ pass

  lower_all-kept :
      (visits m : List (Text × Text))
      → All Fits visits
      → lookup target m ≡ some pass
      → lookup target (lower_all visits m) ≡ some pass
  unfolding lower_all
  lower_all-kept [] m h at = at
  lower_all-kept ((a, p) ∷ visits) m h at =
      lower_all-kept visits (insert (to_lower a) p m) h.1
        (elim (Bool-cases (text_eq (to_lower a) target)) [
          | inl same ↦
              lookup-insert (to_lower a) target p m
              ∙ rw same (ap some (h.0 ((text_eq_iff (to_lower a) target).0 same)))
          | inr other ↦ lookup-insert (to_lower a) target p m ∙ rw other at
        ])

  lower_all-found :
      (visits m : List (Text × Text)) (j : ℕ) (a : Text)
      → All Fits visits
      → get_elem? visits j ≡ some (a, pass)
      → to_lower a ≡ target
      → lookup target (lower_all visits m) ≡ some pass
  unfolding lower_all
  lower_all-found [] m j a h at same = absurd (grind arith)
  lower_all-found ((b, p) ∷ visits) m zero a h at same =
      let here : (b, p) ≡ (a, pass) = some-injective _ _ at in
      lower_all-kept visits (insert (to_lower b) p m) h.1 (
        ap (λ k. lookup k (insert (to_lower b) p m))
          (sym same ∙ ap (λ (e : Text × Text). to_lower e.0) (sym here))
        ∙ lookup-insert_self (to_lower b) p m
        ∙ ap (λ (e : Text × Text). some e.1) here)
  lower_all-found ((b, p) ∷ visits) m (suc j) a h at same =
      lower_all-found visits (insert (to_lower b) p m) j a h.1 at same

module _ (m : PasswordMap) (agree : Agree m) (i : ℕ) (a pass : Text)
    (at : get_elem? m i ≡ some (a, pass)) where
  visits-Fits :
      (visits : List (Text × Text))
      → All
          (λ e.
            (k : ℕ) × (b : Text) × (get_elem? m k ≡ some (b, e.1))
            × ((e.0 ≡ b) ⊎ (e.0 ≡ to_lower b)))
          visits
      → All (Fits (to_lower a) pass) visits
  visits-Fits [] h = tt
  visits-Fits ((c, q) ∷ visits) ((k, b, found, inl e), h) =
      (λ same. agree k i b a q pass found at (ap to_lower (sym e) ∙ same), visits-Fits visits h)
  visits-Fits ((c, q) ∷ visits) ((k, b, found, inr e), h) = (
    λ same. agree k i b a q pass found at (sym (to_lower-to_lower b) ∙ ap to_lower (sym e) ∙ same),
    visits-Fits visits h,
  )

-- An account is unlocked with the password that the configuration has for its address in whatever
-- case, and in whatever order Go visits the passwords, provided that addresses which differ in case
-- only have the same password.
pub init_account-password :
    {S A E : Type 0} (open_store : Text → S) (unlock : S → A → Text → E) (address : A → Text)
    (config : KeyStoreProviderConfig) (visits : List (Text × Text)) (account : A) (i : ℕ)
    (a pass : Text)
    → Visits config.passwords visits
    → Agree config.passwords
    → get_elem? config.passwords i ≡ some (a, pass)
    → to_lower (address account) ≡ to_lower a
    → init_account unlock address (new_key_store_provider open_store visits config) account
      ≡ unlock (open_store config.path) account pass
unfolding init_account new_key_store_provider
init_account-password open_store unlock address config visits account i a pass v agree at same =
    let m = config.passwords in
    let (j, seen) = v.every i (a, pass) at in
    let found =
      lower_all-found (to_lower a) pass visits m j a (visits-Fits m agree i a pass at visits v.only)
        seen refl in
    ap (λ k. unlock (open_store config.path) account (password (lookup k (lower_all visits m))))
      same
    ∙ ap (λ o. unlock (open_store config.path) account (password o)) found
