-- ===== src/Base.antt =====
-- The package `base`: the chains of a network and what is fixed for each. The constants depend on
-- the build tag; `base/devnet.go` lacks constants that `base/base.go` names, so only the builds
-- `mainnet` and `testnet` are networks here.
pub mod Networks
pub mod Names
pub mod Blocks
pub mod Chains
use bridge_common.Prelude.{ℕ, Bool, true, false, List, [], ◌∷◌, if◌then◌else◌, ◌==◌}
use bridge_common.Prelude.Text.{Text, codes}
use Networks.{Network}

-- `PRICE_PRECISION` and `FEE_PRECISION`.
abbrev pub price_precision : ℕ
price_precision = 100_000_000

abbrev pub fee_precision : ℕ
fee_precision = 100_000_000

-- The markets.
abbrev pub market_coinmarketcap : Text
market_coinmarketcap = codes "coinmarketcap"

abbrev pub market_binance : Text
market_binance = codes "binance"

abbrev pub market_huobi : Text
market_huobi = codes "huobi"

abbrev pub market_self : Text
market_self = codes "self"

-- A Go `switch` over numbers: its cases in order, then its default.
unfoldable pub switch {ℓ} : {A : Type ℓ} → List (ℕ × A) → A → ℕ → A
switch [] d x = d
switch ((k, a) ∷ cases) d x = if x == k then a else switch cases d x

-- A fixed name, or `fmt.Sprintf("Unknown(%d)", id)`.
pub data Name : Type 0 where
  named : Text → Name
  unknown : ℕ → Name

-- `STATE_FINISHED` to `STATE_DESTINATION_DONE` by `iota`, `STATE_WAIT` and `STATE_SKIP`.
abbrev pub state_finished : ℕ
state_finished = 0

abbrev pub state_pendding : ℕ
state_pendding = 1

abbrev pub state_source_done : ℕ
state_source_done = 2

abbrev pub state_source_confirmed : ℕ
state_source_confirmed = 3

abbrev pub state_poly_confirmed : ℕ
state_poly_confirmed = 4

abbrev pub state_destination_done : ℕ
state_destination_done = 5

abbrev pub state_wait : ℕ
state_wait = 100

abbrev pub state_skip : ℕ
state_skip = 101

abbrev pub state_names : List (ℕ × Name)
state_names =
    (state_finished, named (codes "Finished"))
    ∷ (state_pendding, named (codes "Pending"))
    ∷ (state_source_done, named (codes "SrcDone"))
    ∷ (state_source_confirmed, named (codes "SrcConfirmed"))
    ∷ (state_poly_confirmed, named (codes "PolyConfirmed"))
    ∷ (state_destination_done, named (codes "DestDone"))
    ∷ (state_wait, named (codes "WAIT"))
    ∷ (state_skip, named (codes "SKIP"))
    ∷ []

unfoldable pub get_state_name : ℕ → Name
unfolding switch
get_state_name state = switch state_names (unknown state) state

module _ (n : Network) where
  open n use {
    poly, eth, rinkeby, ont, neo, bsc, heco, o3, ok, matic, heimdall, neo3, switcheo, plt, arbitrum,
    zilliqa, xdai, optimism, fantom, metis, ava, boba, pixie, oasis, hsc, harmony, bytom,
    bcs_palette, kcc, starcoin,
  }

  abbrev pub chain_names : List (ℕ × Name)
  chain_names =
      (poly, named (codes "Poly"))
      ∷ (eth, named (codes "Ethereum"))
      ∷ (rinkeby, named (codes "Ethereum-Rinkeby"))
      ∷ (ont, named (codes "Ontology"))
      ∷ (neo, named (codes "Neo"))
      ∷ (bsc, named (codes "Bsc"))
      ∷ (heco, named (codes "Heco"))
      ∷ (o3, named (codes "O3"))
      ∷ (ok, named (codes "OK"))
      ∷ (matic, named (codes "Polygon"))
      ∷ (heimdall, named (codes "Heimdall"))
      ∷ (neo3, named (codes "NEO3"))
      ∷ (switcheo, named (codes "Switcheo"))
      ∷ (plt, named (codes "Palette"))
      ∷ (arbitrum, named (codes "Arbitrum"))
      ∷ (zilliqa, named (codes "Zilliqa"))
      ∷ (xdai, named (codes "Xdai"))
      ∷ (optimism, named (codes "Optimism"))
      ∷ (fantom, named (codes "Fantom"))
      ∷ (metis, named (codes "Metis"))
      ∷ (ava, named (codes "Avalanche"))
      ∷ (boba, named (codes "Boba"))
      ∷ (pixie, named (codes "Pixie"))
      ∷ (oasis, named (codes "Oasis"))
      ∷ (hsc, named (codes "Hsc"))
      ∷ (harmony, named (codes "Harmony"))
      ∷ (bytom, named (codes "Bytom"))
      ∷ (bcs_palette, named (codes "BCS Palette"))
      ∷ (kcc, named (codes "KCC"))
      ∷ (starcoin, named (codes "Starcoin"))
      ∷ []

  unfoldable pub get_chain_name : ℕ → Name
  unfolding switch
  get_chain_name id = switch chain_names (unknown id) id

  unfoldable pub blocks_to_skip : ℕ → ℕ
  unfolding switch
  blocks_to_skip =
      switch
        ((matic, 120)
          ∷ (eth, 8)
          ∷ (bsc, 17)
          ∷ (heco, 17)
          ∷ (hsc, 17)
          ∷ (bytom, 17)
          ∷ (o3, 8)
          ∷ (plt, 5)
          ∷ (bcs_palette, 5)
          ∷ (ont, 0)
          ∷ (pixie, 2)
          ∷ (starcoin, 70)
          ∷ [])
        1

  unfoldable pub blocks_to_wait : ℕ → ℕ
  unfolding switch
  blocks_to_wait =
      switch
        ((eth, 12)
          ∷ (bsc, 21)
          ∷ (heco, 21)
          ∷ (hsc, 21)
          ∷ (bytom, 21)
          ∷ (ont, 1)
          ∷ (neo, 1)
          ∷ (neo3, 1)
          ∷ (ok, 1)
          ∷ (switcheo, 1)
          ∷ (plt, 4)
          ∷ (bcs_palette, 4)
          ∷ (o3, 12)
          ∷ (matic, 128)
          ∷ (pixie, 3)
          ∷ (starcoin, 72)
          ∷ [])
        100_000_000

-- `SameAsETH`, over the list `ETH_CHAINS`.
unfoldable pub contains : List ℕ → ℕ → Bool
contains [] id = false
contains (chain ∷ chains) id = if chain == id then true else contains chains id

unfoldable pub same_as_eth : Network → ℕ → Bool
unfolding contains
same_as_eth n id = contains n.eth_chains id
