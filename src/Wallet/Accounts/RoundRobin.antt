-- ===== src/Wallet/Accounts/RoundRobin.antt =====
-- `Select` of `wallet/wallet.go` goes round the accounts.
use bridge_common.Prelude.{
  ℕ, zero, suc, ◌+◌, ◌%◌, ◌<◌, ◌≡◌, refl, ap, sym, ◌∙◌, List, [], ◌∷◌, Option, none, some, length,
  get_elem?, get_elem?_of_lt, arith,
}
use native.Mathlib.Nat.{mod-add-mod, mod-eq_of_lt}
use bridge_common.Prelude.Keyed.{Eq, find}
use bridge_common.Wallet.Accounts.{Wallet, select}

module _ {A P N : Type 0} ⦃e : Eq A⦄ where
  -- The accounts that `n` calls of `Select` return.
  unfoldable pub select_times : ℕ → Wallet A P N → Option (List A)
  select_times zero w = some []
  select_times (suc n) w = elim (select w) [
    | none ↦ none
    | some ((a, p, k), w') ↦ elim (select_times n w') [ none ↦ none | some rest ↦ some (a ∷ rest) ]
  ]

  pub select_next :
      (w : Wallet A P N)
      → w.cursor < length w.accounts
      → (a : A) × (get_elem? w.accounts w.cursor ≡ some a)
        × (select w
            ≡ some (
              (a, find a w.providers, find a w.nonces),
              record w { cursor = (w.cursor + 1) % length w.accounts },
            ))
  unfolding select
  select_next w h =
      let (a, at) = get_elem?_of_lt w.accounts w.cursor h in (a, at, ground (arith, at))

  pub select_times-each :
      (n : ℕ) (w : Wallet A P N)
      → w.cursor < length w.accounts
      → (rest : List A) × (select_times n w ≡ some rest)
        × (length rest ≡ n)
        × ((k : ℕ)
            → k < n
            → get_elem? rest k ≡ get_elem? w.accounts ((w.cursor + k) % length w.accounts))
  unfolding select_times
  select_times-each zero w h = ([], refl, refl, λ k l. elim l [ ])
  select_times-each (suc n) w h =
      let (a, at, next) = select_next w h in
      let w' = record w { cursor = (w.cursor + 1) % length w.accounts } in
      let (rest, run, size, each) = select_times-each n w' (omega arith) in
      (a ∷ rest, ground (arith, next, run), ap suc size, places a rest at each)
    where
      places :
          (a : A) (rest : List A)
          → get_elem? w.accounts w.cursor ≡ some a
          → ((k : ℕ)
              → k < n
              → get_elem? rest k
                ≡ get_elem? w.accounts
                    (((w.cursor + 1) % length w.accounts + k) % length w.accounts))
          → (k : ℕ) → k < suc n
          → get_elem? (a ∷ rest) k ≡ get_elem? w.accounts ((w.cursor + k) % length w.accounts)
      places a rest at each zero l =
          sym at
          ∙ ap (get_elem? w.accounts)
              (sym (mod-eq_of_lt h) ∙ ap (λ i. i % length w.accounts) (omega arith))
      places a rest at each (suc k) l =
          each k (omega arith)
          ∙ ap (get_elem? w.accounts) (
              mod-add-mod (w.cursor + 1) (length w.accounts) k
              ∙ ap (λ i. i % length w.accounts) (omega arith))

  -- Calls of `Select` in a row do not panic, and the `k`-th of them, counted from 0, returns the
  -- account `k` places after the cursor, going round, so that in any run of as many calls as there
  -- are accounts each is used once.
  pub select_times_lem :
      (n k : ℕ) (w : Wallet A P N)
      → w.cursor < length w.accounts
      → k < n
      → (rest : List A) × (select_times n w ≡ some rest)
        × (length rest ≡ n)
        × (get_elem? rest k ≡ get_elem? w.accounts ((w.cursor + k) % length w.accounts))
  select_times_lem n k w h l =
      let (rest, run, size, each) = select_times-each n w h in (rest, run, size, each k l)
