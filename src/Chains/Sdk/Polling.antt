-- ===== src/Chains/Sdk/Polling.antt =====
-- What a round of polling of `chains/chain.go` finds: the best height, and the first node to report it.
use bridge_common.Prelude.{
  ℕ, zero, suc, ◌+◌, ◌≤◌, ◌<◌, ◌≡◌, refl, sym, ap, ◌∙◌, ◌⊎◌, inl, inr, List, [], ◌∷◌, some, length,
  get_elem?, get_or, arith,
}
use bridge_common.Chains.Sdk.{Answer, Best, ping, ping_all}

-- The height that a node reports, 0 for one that fails.
abbrev pub reported : Answer → ℕ
reported (Answer.height h) = h
reported (Answer.failed v) = 0

module _ {N : Type 0} (answer : ℕ → Answer) where
  pub length-ping_all :
      (i : ℕ) (ns : List N) (b : Best N) → length (ping_all answer i ns b).1 ≡ length ns
  unfolding ping_all
  length-ping_all i [] b = refl
  length-ping_all i (n ∷ ns) b = ap suc (length-ping_all (i + 1) ns (ping (answer i) n i b).0)

  ping-reported : (n : N) (i : ℕ) (b : Best N) → (ping (answer i) n i b).1 ≡ reported (answer i)
  unfolding ping
  ping-reported n i b = ground arith

  ping-le : (n : N) (i : ℕ) (b : Best N) → b.height ≤ (ping (answer i) n i b).0.height
  unfolding ping
  ping-le n i b = ground arith

  ping-ge-reported :
      (n : N) (i : ℕ) (b : Best N) → reported (answer i) ≤ (ping (answer i) n i b).0.height
  unfolding ping
  ping-ge-reported n i b = ground arith

  -- The entry of `state` for each node is what it reports.
  pub ping_all-reported :
      (i : ℕ) (ns : List N) (b : Best N) (j k : ℕ)
      → k ≡ i + j
      → j < length ns
      → get_or (ping_all answer i ns b).1 j 0 ≡ reported (answer k)
  unfolding ping_all
  ping_all-reported i [] b j k e h = elim h [ ]
  ping_all-reported i (n ∷ ns) b zero k e h =
      ping-reported n i b ∙ ap (λ m. reported (answer m)) (omega arith)
  ping_all-reported i (n ∷ ns) b (suc j) k e h =
      ping_all-reported (i + 1) ns (ping (answer i) n i b).0 j k (omega arith) (omega arith)

  pub ping_all-le :
      (i : ℕ) (ns : List N) (b : Best N) → b.height ≤ (ping_all answer i ns b).0.height
  unfolding ping_all
  ping_all-le i [] b = omega arith
  ping_all-le i (n ∷ ns) b =
      omega (arith, ping-le n i b, ping_all-le (i + 1) ns (ping (answer i) n i b).0)

  -- No node reports more than the best height.
  pub ping_all-ge :
      (i : ℕ) (ns : List N) (b : Best N) (j k : ℕ)
      → k ≡ i + j
      → j < length ns
      → reported (answer k) ≤ (ping_all answer i ns b).0.height
  unfolding ping_all
  ping_all-ge i [] b j k e h = elim h [ ]
  ping_all-ge i (n ∷ ns) b zero k e h =
      let at : reported (answer k) ≡ reported (answer i) =
        ap (λ m. reported (answer m)) (omega arith) in
      omega (arith, ping-ge-reported n i b, ping_all-le (i + 1) ns (ping (answer i) n i b).0)
  ping_all-ge i (n ∷ ns) b (suc j) k e h =
      ping_all-ge (i + 1) ns (ping (answer i) n i b).0 j k (omega arith) (omega arith)

  -- Node `j` of `ns` is the first to report the height of `b'`, and `b'` names it.
  pub record IsFirstBest (i : ℕ) (ns : List N) (low : ℕ) (b' : Best N) (j : ℕ) : Type 0 where
    pub index : b'.index ≡ i + j
    pub found : get_elem? ns j ≡ b'.sdk
    pub in_range : j < length ns
    pub reports : answer (i + j) ≡ Answer.height b'.height
    pub higher : low < b'.height
    pub first : (m : ℕ) → m < j → reported (answer (i + m)) < b'.height

  ping-cases :
      (n : N) (i : ℕ) (b : Best N)
      → (b.height < (ping (answer i) n i b).0.height)
          × (answer i ≡ Answer.height (ping (answer i) n i b).0.height)
          × ((ping (answer i) n i b).0.sdk ≡ some n)
          × ((ping (answer i) n i b).0.index ≡ i)
        ⊎ ((ping (answer i) n i b).0 ≡ b)
  unfolding ping
  ping-cases n i b = ground arith

  pub ping_all-IsFirstBest :
      (i : ℕ) (ns : List N) (b : Best N)
      → ((j : ℕ) × IsFirstBest i ns b.height (ping_all answer i ns b).0 j)
        ⊎ ((ping_all answer i ns b).0 ≡ b)
  unfolding ping_all
  ping_all-IsFirstBest i [] b = inr refl
  ping_all-IsFirstBest i (n ∷ ns) b =
      elim (ping_all-IsFirstBest (i + 1) ns (ping (answer i) n i b).0) [
        | inl (j, w) ↦ inl (
          suc j,
          record {
            index = omega (arith, w.index);
            found = w.found;
            in_range = omega (arith, w.in_range);
            reports = ap answer (omega arith) ∙ w.reports;
            higher = omega (arith, w.higher, ping-le n i b);
            first = below j w;
          },
        )
        | inr e ↦ elim (ping-cases n i b) [
          | inl (h, r, d, x) ↦ inl (
            0,
            record {
              index = ap (λ (c : Best N). c.index) e ∙ x ∙ omega arith;
              found = sym (ap (λ (c : Best N). c.sdk) e ∙ d);
              in_range = omega arith;
              reports = rw e (ap answer (omega arith) ∙ r);
              higher = rw e h;
              first = λ m l. elim l [ ];
            },
          )
          | inr e' ↦ inr (e ∙ e')
        ]
      ]
    where
      below :
          (j : ℕ)
          → IsFirstBest
              (i + 1)
              ns
              (ping (answer i) n i b).0.height
              (ping_all answer (i + 1) ns (ping (answer i) n i b).0).0
              j
          → (m : ℕ) → m < suc j
          → reported (answer (i + m))
            < (ping_all answer (i + 1) ns (ping (answer i) n i b).0).0.height
      below j w zero l =
          let at : reported (answer (i + 0)) ≡ reported (answer i) =
            ap (λ k. reported (answer k)) (omega arith) in
          omega (arith, ping-ge-reported n i b, w.higher)
      below j w (suc m) l =
          let at : reported (answer (i + suc m)) ≡ reported (answer (i + 1 + m)) =
            ap (λ k. reported (answer k)) (omega arith) in
          omega (arith, w.first m (omega arith))
