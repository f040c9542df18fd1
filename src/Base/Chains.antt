-- ===== src/Base/Chains.antt =====
-- The lists `CHAINS` and `ETH_CHAINS` of `base/mainnet.go` and `base/testnet.go`.
use bridge_common.Prelude.{
  ℕ, ◌≡◌, ◌⊎◌, ◌↔◌, inl, inr, refl, sym, ap, ◌∙◌, Bool, true, false, ◌&&◌, List, [], ◌∷◌,
  if◌then◌else◌, ◌==◌, ==_iff, Bool-cases, arith,
}
use bridge_common.Base.{contains, same_as_eth}
use bridge_common.Base.Networks.{Build, main, test, network}

-- Every chain of the second list is in the first one, but for `but`.
listed : List ℕ → ℕ → List ℕ → Bool
unfolding contains
listed chains but [] = true
listed chains but (id ∷ ids) =
    (if id == but then true else contains chains id) && listed chains but ids

contains-listed :
    (chains ids : List ℕ) (but id : ℕ)
    → listed chains but ids ≡ true
    → contains ids id ≡ true
    → (id ≡ but) ⊎ (contains chains id ≡ true)
unfolding listed contains
contains-listed chains [] but id h e = absurd cc
contains-listed chains (j ∷ ids) but id h e = elim (Bool-cases (j == id)) [
  | inl same ↦ elim (Bool-cases (id == but)) [
    | inl left_out ↦ inl ((==_iff id but).0 left_out)
    | inr other ↦ let at : j ≡ id = (==_iff j id).0 same in inr (ground (arith, h, at, other))
  ]
  | inr other ↦ contains-listed chains ids but id (ground (arith, h)) (ground (arith, e, other))
]

networks-listed :
    (b : Build) → listed (network b).chains (network b).kcc (network b).eth_chains ≡ true
unfolding listed contains
networks-listed main = refl
networks-listed test = refl

kcc-contains : (b : Build) → contains (network b).chains (network b).kcc ≡ false
unfolding contains
kcc-contains main = refl
kcc-contains test = refl

-- On each network the chains that are like Ethereum are in `CHAINS`, all but KCC, which is not.
pub same_as_eth-contains :
    (b : Build) (id : ℕ)
    → same_as_eth (network b) id ≡ true
    → (contains (network b).chains id ≡ false) ↔ (id ≡ (network b).kcc)
unfolding same_as_eth
same_as_eth-contains b id e = (
  λ missing.
      elim (contains-listed (network b).chains (network b).eth_chains (network b).kcc id
        (networks-listed b) e) [
          | inl is_kcc ↦ is_kcc
          | inr there ↦ absurd (cc (sym there ∙ missing))
        ],
  λ is_kcc. ap (contains (network b).chains) is_kcc ∙ kcc-contains b,
)
