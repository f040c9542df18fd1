-- ===== src/Chains/Sdk/RoundRobin.antt =====
-- `Select` of `chains/chain.go`: the next eligible node after the cursor, going round.
use bridge_common.Prelude.{
  ℕ, zero, suc, ◌+◌, ◌-◌, ◌%◌, ◌≤◌, ◌<◌, ◌≡◌, ◌≢◌, sym, ap, ◌∙◌, ◌⊎◌, inl, inr, Bool, true, false,
  List, some, length, get_elem?, get_elem?_of_lt, get_elem?-lt-length, dec_lt, arith, Bool-cases,
  ◌==◌, ==_iff,
}
use native.Mathlib.Nat.{mod-eq_of_lt, mod-eq-sub-mod}
use bridge_common.Chains.Sdk.{ChainSdk, seek, select}

-- How the loop of `Select` ends when it starts at `cursor`: after skipping `steps` nodes that are
-- not eligible, at `c`, which is eligible or where the search began.
pub record Found (state : List Bool) (len start cursor bound c : ℕ) : Type 0 where
  pub steps : ℕ
  pub few : steps ≤ bound
  pub place : c ≡ (cursor + steps) % len
  pub stops : (c ≡ start) ⊎ (get_elem? state c ≡ some true)
  pub skips :
      (m : ℕ)
      → m < steps
      → ((cursor + m) % len ≢ start) × (get_elem? state ((cursor + m) % len) ≡ some false)

module _ (state : List Bool) (len start : ℕ) (pos : 0 < len) (flags : length state ≡ len) where
  seek-here :
      (fuel cursor : ℕ)
      → get_elem? state (cursor % len) ≡ some true
      → seek (suc fuel) state len start cursor ≡ some (cursor % len)
  unfolding seek
  seek-here fuel cursor at = ground arith

  seek-next :
      (fuel cursor : ℕ)
      → cursor % len ≢ start
      → get_elem? state (cursor % len) ≡ some false
      → seek (suc fuel) state len start cursor ≡ seek fuel state len start (cursor + 1)
  unfolding seek
  seek-next fuel cursor away at = ground arith

  Found-next :
      (cursor bound c : ℕ)
      → bound ≢ 0
      → cursor % len ≢ start
      → get_elem? state (cursor % len) ≡ some false
      → Found state len start (cursor + 1) (bound - 1) c
      → Found state len start cursor bound c
  Found-next cursor bound c more away at w = record {
    steps = suc w.steps;
    few = omega (arith, w.few);
    place = w.place ∙ ap (λ k. k % len) (omega arith);
    stops = w.stops;
    skips = passed;
  }
    where
      passed :
          (m : ℕ)
          → m < suc w.steps
          → ((cursor + m) % len ≢ start) × (get_elem? state ((cursor + m) % len) ≡ some false)
      passed zero l =
          let same : (cursor + 0) % len ≡ cursor % len = ap (λ k. k % len) (omega arith) in
          ((λ p. away (sym same ∙ p)), ap (get_elem? state) same ∙ at)
      passed (suc m) l =
          let same : (cursor + suc m) % len ≡ (cursor + 1 + m) % len =
            ap (λ k. k % len) (omega arith) in
          (
            (λ p. (w.skips m (omega arith)).0 (sym same ∙ p)),
            ap (get_elem? state) same ∙ (w.skips m (omega arith)).1,
          )

  -- The loop ends before it has gone round, without a read out of range.
  pub seek-Found :
      (fuel cursor bound : ℕ)
      → (cursor + bound) % len ≡ start
      → bound < fuel
      → (c : ℕ) × (seek fuel state len start cursor ≡ some c) × Found state len start cursor bound c
  unfolding seek
  seek-Found zero cursor bound e h = elim h [ ]
  seek-Found (suc fuel) cursor bound e h = elim (Bool-cases (cursor % len == start)) [
    | inl back ↦ (
      cursor % len,
      rw back,
      record {
        steps = 0;
        few = omega arith;
        place = ap (λ k. k % len) (omega arith);
        stops = inl ((==_iff _ _).0 back);
        skips = λ m l. elim l [ ];
      },
    )
    | inr on ↦
        let away : cursor % len ≢ start = λ p. cc ((==_iff _ _).1 p) in
        let (flagged, at) = get_elem?_of_lt state (cursor % len) (omega arith) in
        elim (Bool-cases flagged) [
          | inl good ↦ (
            cursor % len,
            seek-here fuel cursor (at ∙ ap some good),
            record {
              steps = 0;
              few = omega arith;
              place = ap (λ k. k % len) (omega arith);
              stops = inr (at ∙ ap some good);
              skips = λ m l. elim l [ ];
            },
          )
          | inr bad ↦
              let more : bound ≢ 0 = λ z. away (ap (λ k. k % len) (omega arith) ∙ e) in
              let (c, found, w) =
                seek-Found fuel (cursor + 1) (bound - 1) (ap (λ k. k % len) (omega arith) ∙ e)
                  (omega arith) in
              (
                c,
                seek-next fuel cursor away (at ∙ ap some bad) ∙ found,
                Found-next cursor bound c more away (at ∙ ap some bad) w,
              )
        ]
  ]

-- Steps from `cursor` that lead back to it have gone round.
goes_round :
    (len cursor k : ℕ) → cursor < len → k ≤ len - 1 → (cursor + 1 + k) % len ≡ cursor → k ≡ len - 1
goes_round len cursor k h few e = elim (dec_lt (cursor + 1 + k) len) [
  | yes p ↦ omega (arith, mod-eq_of_lt p)
  | no p ↦ omega (
    arith,
    mod-eq-sub-mod {n = cursor + 1 + k} {m = len} (omega arith),
    mod-eq_of_lt {n = cursor + 1 + k - len} {m = len} (omega arith),
  )
]

-- Every other place is passed on the way round.
pub offset :
    (len cursor j : ℕ)
    → cursor < len
    → j < len
    → j ≢ cursor
    → (m : ℕ) × (m < len - 1) × ((cursor + 1 + m) % len ≡ j)
offset len cursor j h l ne = elim (dec_lt cursor j) [
  | yes p ↦ (j - cursor - 1, omega arith, ap (λ k. k % len) (omega arith) ∙ mod-eq_of_lt l)
  | no p ↦ (
    len - cursor - 1 + j,
    omega arith,
    mod-eq-sub-mod {n = cursor + 1 + (len - cursor - 1 + j)} {m = len} (omega arith)
        ∙ ap (λ k. k % len) (omega arith)
        ∙ mod-eq_of_lt l,
  )
]

module _ {N : Type 0} where
  -- With nodes, and a flag for each, `Select` returns: it steps from the cursor, skips the nodes that
  -- are not eligible, and stops at the first eligible one or back where it began; only the cursor
  -- changes, to the index returned.
  pub select_lem :
      (s : ChainSdk N)
      → 0 < length s.nodes
      → length s.state ≡ length s.nodes
      → let len = length s.nodes in
        (c : ℕ) × (select s ≡ some (c, record s { cursor = c }))
        × Found s.state len (s.cursor % len) (s.cursor + 1) (len - 1) c
  unfolding select
  select_lem s pos flags =
      let len = length s.nodes in
      let whole : (s.cursor + 1 + (len - 1)) % len ≡ s.cursor % len =
        mod-eq-sub-mod {n = s.cursor + 1 + (len - 1)} {m = len} (omega arith)
        ∙ ap (λ k. k % len) (omega arith) in
      let (c, found, w) =
        seek-Found s.state len (s.cursor % len) pos flags len (s.cursor + 1) (len - 1) whole
          (omega arith) in
      (c, ground (arith, found), w)

  -- If a node other than the one at the cursor is eligible, `Select` returns an eligible node.
  pub select-eligible :
      (s : ChainSdk N) (j : ℕ)
      → length s.state ≡ length s.nodes
      → s.cursor < length s.nodes
      → get_elem? s.state j ≡ some true
      → j ≢ s.cursor
      → (c : ℕ) (s' : ChainSdk N) → select s ≡ some (c, s')
      → get_elem? s.state c ≡ some true
  select-eligible s j flags inside good away c s' e =
      let (c₀, found, w) = select_lem s (omega arith) flags in
      let same : c ≡ c₀ = cc found in
      let begins : s.cursor % length s.nodes ≡ s.cursor = mod-eq_of_lt inside in
      elim w.stops [
        | inr flagged ↦ ap (get_elem? s.state) same ∙ flagged
        | inl back ↦
            let all : w.steps ≡ length s.nodes - 1 =
              goes_round (length s.nodes) s.cursor w.steps inside w.few
                (sym w.place ∙ back ∙ begins) in
            let (m, few, at) =
              offset (length s.nodes) s.cursor j inside
                (omega (arith, get_elem?-lt-length s.state j good)) away in
            let skipped : get_elem? s.state j ≡ some false =
              ap (get_elem? s.state) (sym at) ∙ (w.skips m (omega arith)).1 in
            cc (sym good ∙ skipped)
      ]
