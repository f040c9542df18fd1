-- ===== src/Chains/Sdk/Fairness.antt =====
-- Calls of `Select` of `chains/chain.go`, one after another, between two rounds of polling.
use bridge_common.Prelude.{
  ℕ, zero, suc, ◌+◌, ◌-◌, ◌%◌, ◌≤◌, ◌<◌, ◌≡◌, refl, sym, ap, ◌∙◌, true, false, Option, none, some,
  length, get_elem?, get_elem?-lt-length, dec_lt, ℕ_discrete, arith,
}
use native.Mathlib.Nat.{mod-eq_of_lt, mod-eq-sub-mod, mod-add-mod}
use bridge_common.Chains.Sdk.{ChainSdk, select}
use bridge_common.Chains.Sdk.RoundRobin.{Found, select_lem, offset}

-- How far ahead a place is.
ahead :
    (len cursor j : ℕ) → cursor < len → j < len → (m : ℕ) × (m < len) × ((cursor + 1 + m) % len ≡ j)
ahead len cursor j h l = elim (ℕ_discrete j cursor) [
  | yes same ↦ (
    len - 1,
    omega arith,
    mod-eq-sub-mod {n = cursor + 1 + (len - 1)} {m = len} (omega arith)
        ∙ ap (λ k. k % len) {y = j} (omega arith)
        ∙ mod-eq_of_lt l,
  )
  | no away ↦ let (m, few, at) = offset len cursor j h l away in (m, omega arith, at)
]

module _ {N : Type 0} where
  -- The state after so many calls of `Select`.
  unfoldable pub selects : ℕ → ChainSdk N → Option (ChainSdk N)
  selects zero s = some s
  selects (suc k) s = elim (select s) [ none ↦ none | some (c, s') ↦ selects k s' ]

  -- The call after `k` others returns `j`.
  pub record Returns (s : ChainSdk N) (j k : ℕ) : Type 0 where
    pub before : ChainSdk N
    pub after : ChainSdk N
    pub calls : selects k s ≡ some before
    pub returns : select before ≡ some (j, after)

  Returns-suc :
      (s s' : ChainSdk N) (c j k : ℕ)
      → select s ≡ some (c, s')
      → Returns s' j k
      → Returns s j (suc k)
  unfolding selects
  Returns-suc s s' c j k e w = record {
    before = w.before;
    after = w.after;
    calls = ground (arith, e, w.calls);
    returns = w.returns;
  }

  -- An eligible place is not skipped.
  not_past :
      (s : ChainSdk N) (j m c : ℕ)
      → get_elem? s.state j ≡ some true
      → (s.cursor + 1 + m) % length s.nodes ≡ j
      → (w : Found s.state
          (length s.nodes)
          (s.cursor % length s.nodes)
          (s.cursor + 1)
          (length s.nodes - 1)
          c)
      → w.steps ≤ m
  not_past s j m c good at w = elim (dec_lt m w.steps) [
    | no few ↦ omega arith
    | yes past ↦
        let bad = (w.skips m past).1 in
        let skipped : get_elem? s.state j ≡ some false = ap (get_elem? s.state) (sym at) ∙ bad in
        cc (sym good ∙ skipped)
  ]

  reaches :
      (fuel m j : ℕ) (s : ChainSdk N)
      → m < fuel
      → 0 < length s.nodes
      → length s.state ≡ length s.nodes
      → get_elem? s.state j ≡ some true
      → (s.cursor + 1 + m) % length s.nodes ≡ j
      → (k : ℕ) × (k ≤ m) × Returns s j k
  unfolding selects
  reaches zero m j s h pos flags good at = absurd (omega arith)
  reaches (suc fuel) m j s h pos flags good at =
      let len = length s.nodes in
      let (c, found, w) = select_lem s pos flags in
      let few = not_past s j m c good at w in
      elim (dec_lt w.steps m) [
        | yes more ↦
            let left = m - w.steps - 1 in
            let onward : (c + 1 + left) % len ≡ j =
              ap (λ x. x % len) {x = c + 1 + left} {y = c + (1 + left)} (omega arith)
              ∙ ap (λ y. (y + (1 + left)) % len) w.place
              ∙ mod-add-mod (s.cursor + 1 + w.steps) len (1 + left)
              ∙ ap (λ x. x % len) (omega arith)
              ∙ at in
            let (k, l, r) =
              reaches fuel left j (record s { cursor = c }) (omega arith) pos flags good onward in
            (suc k, omega arith, Returns-suc s (record s { cursor = c }) c j k found r)
        | no all ↦
            let same : c ≡ j = w.place ∙ ap (λ k. (s.cursor + 1 + k) % len) (omega arith) ∙ at in
            (
              0,
              omega arith,
              record {
                before = s;
                after = record s { cursor = c };
                calls = refl;
                returns = found ∙ ap (λ k. some (k, record s { cursor = c })) same;
              },
            )
      ]

  -- No eligible node starves: as long as the flags stay, one of the next calls of `Select`, as many as
  -- there are nodes, returns it.
  pub select-Returns :
      (s : ChainSdk N) (j : ℕ)
      → length s.state ≡ length s.nodes
      → s.cursor < length s.nodes
      → get_elem? s.state j ≡ some true
      → (k : ℕ) × (k < length s.nodes) × Returns s j k
  select-Returns s j flags inside good =
      let in_range : j < length s.nodes = omega (arith, get_elem?-lt-length s.state j good) in
      let (m, few, at) = ahead (length s.nodes) s.cursor j inside in_range in
      let (k, l, r) = reaches (suc m) m j s (omega arith) (omega arith) flags good at in
      (k, omega arith, r)
