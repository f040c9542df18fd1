-- ===== src/Chains/SelectTests.antt =====
-- Calls of `Select`, alone, one after another, and at once, on three nodes; and three Ethereum nodes.
use bridge_common.Prelude.{
  ℕ, zero, suc, ◌+◌, ◌<◌, ◌≡◌, ◌⊎◌, refl, inr, Bool, List, true, false, [], ◌∷◌, some, none, Option,
  get_elem?, arith,
}
use bridge_common.Prelude.Text.{Text, codes}
use bridge_common.Chains.Package.{PackageSdk}
use bridge_common.Chains.Eth.{Client, new_sdk}
use bridge_common.Chains.Eth.Nodes.{
  Connects, FailsToDial, ServesLatest, AllDown, new_sdk-ServesLatest,
}
use bridge_common.Chains.Sdk.{ChainSdk}
use bridge_common.Chains.Sdk.Race.{
  Pc, Calls, Move, entered, loaded, bumped, tests, returned, enters, loads, stores, looks, returns,
  update, start,
}
use bridge_common.Chains.Sdk.Race.Returning.{During, begins, goes_on, During-returned}
use bridge_common.Chains.Sdk.Race.Locked
use bridge_common.Chains.Sdk.Race.Locked.{Shared, moves, waits}
use bridge_common.Chains.Sdk.Race.Prompt.{Turns, none_yet, own, others, AtGreatest, Turns-returned}
use bridge_common.Chains.Sdk.Fairness.{Returns, select-Returns}

abbrev both : List Bool
both = true ∷ true ∷ []

both-eligible : (k : ℕ) → k < 2 → get_elem? both k ≡ some true
both-eligible zero h = refl
both-eligible (suc zero) h = refl
both-eligible (suc (suc k)) h = absurd (omega (arith, h))

-- One call reads the cursor, and another begins.
abbrev two_begun : Calls
two_begun = record {
  cursor = 0;
  pc = update (update (update (λ i. Pc.outside) 0 (entered 0)) 0 (loaded 0 0)) 1 (entered 0);
}

two_begun-Turns : Turns both 2 0 (start 0) 2 two_begun
two_begun-Turns =
    others 1 (omega arith) (own (own none_yet refl (enters refl)) refl loads) refl (enters refl)

Turns-returned_example :
    let n : ℕ = 2 in
    ((n ≡ 5) × ((a : ℕ) × (c : ℕ) × (loaded 0 0 ≡ returned a c)))
    ⊎ ((n < 5)
        × (((y : ℕ) × (q : Pc) × Move both 2 0 (loaded 0 0) y q)
            ⊎ AtGreatest both 2 (omega arith) both-eligible (loaded 0 0)))
Turns-returned_example = Turns-returned both 2 (omega arith) both-eligible two_begun-Turns

abbrev trio : ChainSdk ℕ
trio = record {
  sdk = none;
  chain_id = 2;
  nodes = 10 ∷ 20 ∷ 30 ∷ [];
  state = true ∷ false ∷ true ∷ [];
  index = 0;
  cursor = 0;
  status = 0;
  height = 0;
  interval = 1;
  max_gap = 5;
}

abbrev moved : ChainSdk ℕ
moved = record trio { cursor = 2 }

-- The first call has returned the second of two eligible nodes, while the writer waits.
abbrev finished : Shared
finished = record {
  cursor = 1;
  flags = true ∷ true ∷ [];
  waiting = true;
  pc =
      update
        (update
          (update (update (update (λ i. Pc.outside) 0 (entered 0)) 0 (loaded 0 0)) 0 (bumped 0)) 0
          (tests 0 1))
        0 (returned 0 1);
}

finished-During : During 2 (omega arith) 0 (Locked.start (true ∷ true ∷ []) 0) finished
finished-During =
    let r : During 2 (omega arith) 0 (Locked.start (true ∷ true ∷ []) 0) _ =
      begins {a = 0} (moves 0 refl (enters {a = 0} (omega arith)) (λ e. refl)) refl refl in
    let r = goes_on r (λ idle. idle) (moves 0 refl loads (λ e. cc)) in
    let r =
      goes_on r (λ idle. idle)
        (moves 0 refl (stores {w = 1} (omega arith) (omega arith)) (λ e. cc)) in
    let r = goes_on r (λ idle. idle) (moves 0 refl (looks {c = 1} (omega arith)) (λ e. cc)) in
    let r = goes_on r (λ idle. idle) waits in
    goes_on r (λ idle. idle) (moves 0 refl (returns (inr refl)) (λ e. cc))

During-returned_example :
    (1 < finished.cursor + 1)
    × (finished.cursor ≡ 1)
    × (finished.flags ≡ true ∷ true ∷ [])
    × ((finished.cursor ≡ 0) ⊎ (get_elem? finished.flags 1 ≡ some true))
During-returned_example =
    During-returned 2 (omega arith) (true ∷ true ∷ []) 0 (Locked.start (true ∷ true ∷ []) 0)
      finished 0 0 1 Locked.here finished-During refl

select-Returns_example : (k : ℕ) × (k < 3) × Returns trio 0 k
select-Returns_example = select-Returns trio 0 refl (omega arith) refl

abbrev blocks : ℕ → Option ℕ
blocks zero = some 15
blocks (suc zero) = some 17
blocks (suc (suc k)) = none

-- An empty URL is of no known scheme.
abbrev dial : Text → Option Text
dial [] = none
dial (c ∷ cs) = some (c ∷ cs)

new_sdk-ServesLatest_example :
    let urls = codes "a" ∷ codes "b" ∷ codes "c" ∷ [] in
    let made = new_sdk dial dial blocks 2 urls 1 5 in
    (FailsToDial dial dial urls × (made ≡ none))
    ⊎ (Connects dial dial urls
        × (((s : PackageSdk (Client Text)) × (made ≡ some (some s, false))
              × ServesLatest dial dial blocks urls s)
            ⊎ ((made ≡ some (none, true)) × AllDown blocks urls)))
new_sdk-ServesLatest_example =
    new_sdk-ServesLatest dial dial blocks (codes "a" ∷ codes "b" ∷ codes "c" ∷ []) 2 1 5
