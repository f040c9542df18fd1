-- ===== src/Chains/Eth/Nodes.antt =====
-- `NewSDK` of `chains/eth/eth.go`, with the clients that it makes, the requests for the latest block
-- that the first round of polling sends, and `Node`.
use mathlib.Core.Option.{some-injective}
use bridge_common.Prelude.{
  zero, suc, ◌+◌, ap, false, [], ◌∷◌, Option-cases, ℕ, ◌%◌, ◌^◌, ◌≤◌, ◌<◌, ◌≡◌, refl, sym, ◌∙◌, ◌⊎◌,
  inl, inr, true, false, List, Option, none, some, length, get_elem?, arith,
}
use bridge_common.Prelude.Text.{Text}
use bridge_common.Chains.Sdk.Polling.{reported}
use bridge_common.Chains.Sdk.{Answer}
use bridge_common.Chains.Package
use bridge_common.Chains.Package.{PackageSdk, node}
use bridge_common.Chains.Package.Serving.{Serves, new_sdk-Serves}
use bridge_common.Chains.Eth.{
  Client, new, config, latest_height, get_latest_height, all_up, new_sdk,
}

-- The number of the latest block by a node's reply, in 64 bits; 0 without one.
abbrev pub latest : Option ℕ → ℕ
latest none = 0
latest (some n) = n % 2 ^ 64

reported-latest_height : (r : Option ℕ) → reported (latest_height r) ≡ latest r
unfolding latest_height
reported-latest_height none = refl
reported-latest_height (some n) = refl

-- Every node has failed to reply or is at block 0.
pub record AllDown (replies : ℕ → Option ℕ) (urls : List Text) : Type 0 where
  pub silent : (k : ℕ) → k < length urls → latest (replies k) ≡ 0

module _ {R : Type 0} (dial dial_raw : Text → Option R) where
  -- `rpc.Dial` makes a connection for every URL.
  abbrev pub Connects : List Text → Type 0
  Connects urls = (k : ℕ) (url : Text) → get_elem? urls k ≡ some url → (c : R) × (dial url ≡ some c)

  -- It fails for some URL.
  abbrev pub FailsToDial : List Text → Type 0
  FailsToDial urls = (k : ℕ) × (url : Text) × (get_elem? urls k ≡ some url) × (dial url ≡ none)

  all_up-suc :
      (replies : ℕ → Option ℕ) (i : ℕ) (url : Text) (urls : List Text)
      → all_up dial dial_raw replies i (url ∷ urls)
        ≡ elim (dial url) [ none ↦ false | some c ↦ all_up dial dial_raw replies (i + 1) urls ]
  unfolding all_up get_latest_height new
  all_up-suc replies i url urls = elim (Option-cases (dial url)) [
    | inl e ↦ rw e refl
    | inr (c, e) ↦ rw e refl
  ]

  Connects-suc :
      (url : Text) (urls : List Text) (c : R)
      → dial url ≡ some c
      → Connects urls
      → Connects (url ∷ urls)
  Connects-suc url urls c e all zero u at = (c, ap dial (sym (some-injective _ _ at)) ∙ e)
  Connects-suc url urls c e all (suc k) u at = all k u at

  all_up-Connects :
      (replies : ℕ → Option ℕ) (i : ℕ) (urls : List Text)
      → ((all_up dial dial_raw replies i urls ≡ true) × Connects urls)
        ⊎ ((all_up dial dial_raw replies i urls ≡ false) × FailsToDial urls)
  unfolding all_up
  all_up-Connects replies i [] = inl (refl, λ k url at. absurd cc)
  all_up-Connects replies i (url ∷ urls) = elim (Option-cases (dial url)) [
    | inl e ↦ inr (all_up-suc replies i url urls ∙ rw e refl, (0, url, refl, e))
    | inr (c, e) ↦
        let step : all_up dial dial_raw replies i (url ∷ urls)
            ≡ all_up dial dial_raw replies (i + 1) urls =
          all_up-suc replies i url urls ∙ rw e refl in
        elim (all_up-Connects replies (i + 1) urls) [
          | inl (up, all) ↦ inl (step ∙ up, Connects-suc url urls c e all)
          | inr (down, (k, u, at, bad)) ↦ inr (step ∙ down, (suc k, u, at, bad))
        ]
  ]

module _ {R : Type 0} (dial dial_raw : Text → Option R) (replies : ℕ → Option ℕ)
    (urls : List Text) where
  abbrev answer : ℕ → Answer
  answer k = latest_height (replies k)

  -- `Node` returns the client made from the first of the URLs whose nodes have the latest block.
  pub record ServesLatest (s : PackageSdk (Client R)) : Type 0 where
    pub index : ℕ
    pub url : Text
    pub at : get_elem? urls index ≡ some url
    pub serving : node s ≡ some (new dial dial_raw url)
    pub alive : 0 < latest (replies index)
    pub highest : (k : ℕ) → k < length urls → latest (replies k) ≤ latest (replies index)
    pub first : (k : ℕ) → k < index → latest (replies k) < latest (replies index)

  -- Beside an error no SDK is returned.
  new_sdk-nil :
      (chain_id interval max_gap : ℕ)
      → (Package.new_sdk (config dial dial_raw) answer chain_id urls interval max_gap).1 ≡ true
      → Package.new_sdk (config dial dial_raw) answer chain_id urls interval max_gap ≡ (none, true)
  unfolding Package.new_sdk
  new_sdk-nil chain_id interval max_gap bad = ground arith

  Serves-ServesLatest :
      (s : PackageSdk (Client R)) → Serves (config dial dial_raw) answer urls s → ServesLatest s
  Serves-ServesLatest s w =
      let here = reported-latest_height (replies w.index) in
      record {
        index = w.index;
        url = w.url;
        at = w.at;
        serving = w.serving;
        alive = omega (arith, here, w.alive);
        highest = λ k l. omega (arith, here, w.highest k l, reported-latest_height (replies k));
        first = λ k l. omega (arith, here, w.first k l, reported-latest_height (replies k));
      }

  -- If `rpc.Dial` fails for some URL, `NewSDK` panics, as `New` drops the error. Otherwise either it
  -- returns an SDK and no error, and `Node` is then the client of the first of the URLs whose nodes
  -- have the latest block, or it returns nil and an error, and every node has failed to reply or is at
  -- block 0. Block numbers are compared by their low 64 bits.
  pub new_sdk-ServesLatest :
      (chain_id interval max_gap : ℕ)
      → let made = new_sdk dial dial_raw replies chain_id urls interval max_gap in
        (FailsToDial dial dial_raw urls × (made ≡ none))
        ⊎ (Connects dial dial_raw urls
            × (((s : PackageSdk (Client R)) × (made ≡ some (some s, false)) × ServesLatest s)
                ⊎ ((made ≡ some (none, true)) × AllDown replies urls)))
  unfolding new_sdk
  new_sdk-ServesLatest chain_id interval max_gap =
      elim (all_up-Connects dial dial_raw replies 0 urls) [
        | inr (down, bad) ↦ inl (bad, rw down refl)
        | inl (up, all) ↦ inr (
          all,
          elim (new_sdk-Serves (config dial dial_raw) answer urls chain_id interval max_gap) [
            | inl (s, made, w) ↦ inl (s, rw up (ap some made), Serves-ServesLatest s w)
            | inr (bad, silent) ↦ inr (
              rw up (ap some (new_sdk-nil chain_id interval max_gap bad)),
              record { silent = λ k l. sym (reported-latest_height (replies k)) ∙ silent k l },
            )
          ],
        )
      ]
