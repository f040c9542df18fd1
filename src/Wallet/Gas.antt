-- ===== src/Wallet/Gas.antt =====
-- `wallet/gas.go`: the limits on gas and the least balances, by chain.
use bridge_common.Prelude.{
  ℕ, ◌≤◌, ◌≡◌, ◌⊎◌, ◌↔◌, refl, Bool, false, ◌&&◌, List, [], Option, none, some, if◌then◌else◌, ltb,
  ◌==◌, arith,
}
use bridge_common.Prelude.Int.{ℤ, pos, le_ℤ}
use bridge_common.Prelude.Keyed.{find, put, find-put, nat_eq}
use bridge_common.Util.Numbers.{set_decimals}

-- The chain `base.ETH`, 2 on every network.
abbrev pub eth : ℕ
eth = 2

unfoldable pub hard_gas_limit : ℕ → ℕ
hard_gas_limit chain = if chain == eth then 300_000 else 10_000_000_000_000

-- `SetGasLimit`, on the map `softGasLimits`.
unfoldable pub set_gas_limit : ℕ → ℕ → List (ℕ × ℕ) → List (ℕ × ℕ)
unfolding put
set_gas_limit chain limit soft = put chain limit soft

-- A missing chain reads as 0.
unfoldable pub soft_gas_limit : ℕ → List (ℕ × ℕ) → ℕ
soft_gas_limit chain soft = elim (find chain soft) [ none ↦ 0 | some limit ↦ limit ]

unfoldable pub get_chain_gas_limit : List (ℕ × ℕ) → ℕ → ℕ → ℕ
unfolding hard_gas_limit
get_chain_gas_limit limits chain limit =
    let soft = soft_gas_limit chain limits in
    let limit' = if ltb 0 soft && ltb soft limit then soft else limit in
    let hard = hard_gas_limit chain in if ltb hard limit' then hard else limit'

-- `SetBalanceLimit`, on the map `balanceMinLimits`; the limits in it are not nil.
unfoldable pub set_balance_limit : ℕ → ℤ → List (ℕ × ℤ) → List (ℕ × ℤ)
unfolding put
set_balance_limit chain limit limits = put chain limit limits

unfoldable pub has_balance : List (ℕ × ℤ) → ℕ → Option ℤ → Bool
unfolding set_decimals
has_balance limits chain balance =
    let limit : ℤ = elim (find chain limits) [ none ↦ pos (set_decimals 2 17) | some l ↦ l ] in
    elim balance [ none ↦ false | some b ↦ le_ℤ limit b ]

-- The limit is the greatest number that is at most the limit asked for, the soft limit of the chain
-- if one is set, and the hard limit.
pub get_chain_gas_limit_lem :
    (limits : List (ℕ × ℕ)) (chain limit n : ℕ)
    → (n ≤ get_chain_gas_limit limits chain limit) ↔ (
        (n ≤ limit)
        × (n ≤ hard_gas_limit chain)
        × ((soft_gas_limit chain limits ≡ 0) ⊎ (n ≤ soft_gas_limit chain limits)))
unfolding get_chain_gas_limit
get_chain_gas_limit_lem limits chain limit n = (λ h. ground arith, λ h. ground arith)

-- Setting a limit for a chain gives that chain this soft limit and leaves the others theirs.
pub soft_gas_limit-set_gas_limit :
    (limits : List (ℕ × ℕ)) (chain other limit : ℕ)
    → soft_gas_limit other (set_gas_limit chain limit limits)
      ≡ (if chain == other then limit else soft_gas_limit other limits)
unfolding soft_gas_limit set_gas_limit
soft_gas_limit-set_gas_limit limits chain other limit =
    ground (arith, find-put chain other limit limits)

-- A balance is enough exactly when it is not nil and at least the limit set for the chain last, or
-- 0.2 coins of 18 decimals where none is set.
pub has_balance-set_balance_limit :
    (limits : List (ℕ × ℤ)) (chain other : ℕ) (limit balance : ℤ)
    → (has_balance (set_balance_limit chain limit limits) other (some balance)
        ≡ (if chain == other then le_ℤ limit balance else has_balance limits other (some balance)))
      × (has_balance [] chain (some balance) ≡ le_ℤ (pos 200_000_000_000_000_000) balance)
      × (has_balance limits chain none ≡ false)
unfolding has_balance set_balance_limit find
has_balance-set_balance_limit limits chain other limit balance =
    (ground (arith, find-put chain other limit limits), refl, refl)
