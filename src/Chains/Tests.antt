-- ===== src/Chains/Tests.antt =====
-- The SDK of a chain, and a package's SDK, at concrete nodes and answers.
use bridge_common.Prelude.{
  ℕ, zero, suc, ◌+◌, ◌≤◌, ◌≡◌, ◌⊎◌, ◌↔◌, refl, true, false, [], ◌∷◌, none, some, get_or, arith,
}
use bridge_common.Prelude.Text.{Text, codes, lookup, insert}
use bridge_common.Util.Singleton.{single_all, single}
use bridge_common.Chains.Sdk.{
  Answer, height, failed, ChainSdk, ping, ping_all, apply_selection, update_selection, available,
  select, new_chain_sdk, init,
}
use bridge_common.Chains.Sdk.Selection.{
  IsSelected, IsDown, update_selection_lem, update_selection-state, update_selection-state_wraps,
}
use bridge_common.Chains.Sdk.Polling.{reported}
use bridge_common.Chains.Sdk.RoundRobin.{Found, select_lem}
use bridge_common.Chains.Sdk.View.{chain_nodes, Shows, last_round}
use bridge_common.Chains.Sdk.View.Latest.{Reach-Shows}
use bridge_common.Chains.Sdk.Life.{Reach, IsValid, next, here, polls, Reach-new_chain_sdk}
use bridge_common.Chains.Package.{
  Options, PackageSdk, PackageConfig, Instances, new_sdk, create, request_key, with_options,
}
use bridge_common.Chains.Package.Singletons.{with_options_failed}

-- Three nodes: at 100, failing, and at 103.
abbrev answers : ℕ → Answer
answers zero = height 100
answers (suc zero) = failed 0
answers (suc (suc zero)) = height 103
answers (suc (suc (suc n))) = failed 0

abbrev silent : ℕ → Answer
silent n = failed 0

abbrev three : ChainSdk ℕ
three = record {
  sdk = none;
  chain_id = 2;
  nodes = 10 ∷ 20 ∷ 30 ∷ [];
  state = true ∷ false ∷ true ∷ [];
  index = 0;
  cursor = 0;
  status = 0;
  height = 0;
  interval = 1;
  max_gap = 5;
}

abbrev wide : ChainSdk ℕ
wide = record three { max_gap = 200 }

update_selection_run : (update_selection answers three).sdk ≡ some 30
unfolding update_selection apply_selection ping_all ping
update_selection_run = refl

update_selection_lem_example :
    let s' = update_selection answers three in
    ((s'.status ≡ 1) × IsSelected answers s') ⊎ ((s'.status ≡ 0) × IsDown answers s')
update_selection_lem_example = update_selection_lem answers three

update_selection-state_example :
    let s' = update_selection answers three in
    (get_or s'.state 0 false ≡ true) ↔ (s'.height ≤ reported (answers 0) + 5)
unfolding update_selection apply_selection ping_all ping
update_selection-state_example =
    update_selection-state answers three 0 (omega arith) (omega arith) (omega arith)

update_selection-state_wraps_example : get_or (update_selection answers wide).state 2 false ≡ false
unfolding update_selection apply_selection ping_all ping
update_selection-state_wraps_example =
    update_selection-state_wraps answers wide 2 (omega arith) (omega arith) (omega arith)

select_lem_example :
    (c : ℕ) × (select three ≡ some (c, record three { cursor = c })) × Found three.state 3 0 1 2 c
select_lem_example = select_lem three (omega arith) refl

Reach-new_chain_sdk_example :
    IsValid {N = ℕ}
      (update_selection silent (init answers (new_chain_sdk 2 (10 ∷ 20 ∷ 30 ∷ []) 1 5)).0)
Reach-new_chain_sdk_example =
    Reach-new_chain_sdk {N = ℕ} 2 (10 ∷ 20 ∷ 30 ∷ []) 1 5 answers _ (next here (polls silent _))

-- Two rounds, of which the second finds no node.
abbrev silent_life :
    Reach {N = ℕ}
      (init answers (new_chain_sdk 2 (10 ∷ 20 ∷ 30 ∷ []) 1 5)).0
      (update_selection silent (init answers (new_chain_sdk 2 (10 ∷ 20 ∷ 30 ∷ []) 1 5)).0)
silent_life = next here (polls silent _)

Reach-Shows_example :
    Shows {N = ℕ} chain_nodes
      (update_selection silent (init answers (new_chain_sdk 2 (10 ∷ 20 ∷ 30 ∷ []) 1 5)).0)
      ((10, 0) ∷ (20, 0) ∷ (30, 0) ∷ [])
unfolding last_round
Reach-Shows_example = Reach-Shows {N = ℕ} 2 (10 ∷ 20 ∷ 30 ∷ []) 1 5 answers _ silent_life

-- A package whose clients are their URLs, and whose `NewSDK` returns nil beside an error.
abbrev urls : PackageConfig Text
urls = record {
  new_client = λ url. url;
  address = λ url. url;
  type_name = codes "SDK";
  key_prefix = codes "ETH";
  keeps_failed = false;
}

abbrev two_nodes : Options
two_nodes = record { chain_id = 2; nodes = codes "a" ∷ codes "b" ∷ []; interval = 1; max_gap = 5 }

abbrev two_sdk : PackageSdk Text
two_sdk = record {
  chain_sdk = some (init answers (new_chain_sdk 2 (codes "a" ∷ codes "b" ∷ []) 1 5)).0;
  nodes = codes "a" ∷ codes "b" ∷ [];
  options = none;
}

two_sdk-create : create urls answers two_nodes ≡ (some two_sdk, false)
unfolding create new_sdk init update_selection apply_selection ping_all ping available new_chain_sdk
two_sdk-create = refl

abbrev kept_nil : Instances Text
kept_nil = (request_key urls two_nodes, none) ∷ []

with_options-silent : with_options urls silent two_nodes [] ≡ (none, true, kept_nil)
unfolding with_options request_key create new_sdk init update_selection apply_selection ping_all
    ping available new_chain_sdk single lookup insert
with_options-silent = refl

with_options_failed_example :
    with_options urls answers two_nodes (single_all [] kept_nil)
    ≡ (none, false, single_all [] kept_nil)
with_options_failed_example =
    with_options_failed urls silent answers two_nodes [] kept_nil [] refl with_options-silent
