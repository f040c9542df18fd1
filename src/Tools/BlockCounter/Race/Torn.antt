-- ===== src/Tools/BlockCounter/Race/Torn.antt =====
-- Two calls of `Tick` of `tools/counter.go` that spoil an entry of the ring.
use bridge_common.Prelude.{
  ℕ, ◌+◌, ◌%◌, ◌≤◌, ◌<◌, ◌≡◌, ◌≢◌, refl, ◌∙◌, false, List, [], ◌∷◌, map, get_or, get_or-set_self,
  get_or-set_ne, ◌==◌, dec_lt, arith,
}
use bridge_common.Tools.BlockCounter.{BlockCounter}
use bridge_common.Tools.BlockCounter.Window.{next_low, next_high}
use bridge_common.Tools.BlockCounter.Race.{returned, calls, advance, interleave, IsInRange}

next_ne : (i count : ℕ) → i < count → 2 ≤ count → (i + 1) % count ≢ i
next_ne i count h big = elim (dec_lt (i + 1) count) [
  | yes low ↦ λ e. omega (arith, e, next_low i count low)
  | no high ↦ λ e. omega (arith, e, big, h, high, next_high i count h high)
]

-- The first call has moved the tail and written its height when the second moves the tail on.
abbrev pub torn : List ℕ
torn = 0 ∷ 1 ∷ 0 ∷ 1 ∷ 0 ∷ 1 ∷ 0 ∷ 0 ∷ 1 ∷ 0 ∷ 0 ∷ 1 ∷ 1 ∷ 1 ∷ []

beq_ne : (m n : ℕ) → m ≢ n → (m == n) ≡ false
beq_ne m n h = ground (arith, h)

-- The lock does not guard `Tick`: in every counter two calls with new heights can interleave so that
-- both return, and the entry of the first has its height beside the time of the block that stood
-- there before.
pub interleave-torn :
    (c : BlockCounter) (a b s t : ℕ)
    → IsInRange c
    → 2 ≤ c.count
    → a ≢ c.last
    → b ≢ c.last
    → let (ts, c') = interleave torn (calls a s ∷ calls b t ∷ [], c) in
      let i = (c.tail + 1) % c.count in
      (map (λ t. t.stage) ts ≡ returned ∷ returned ∷ [])
      × (get_or c'.state i (0, 0) ≡ (a, (get_or c.state i (0, 0)).1))
unfolding interleave advance
interleave-torn c a b s t h big new_a new_b =
    let i = (c.tail + 1) % c.count in
    let j = (i + 1) % c.count in
    let within : i < c.count = omega (arith, big) in
    let ne : j ≢ i = next_ne i c.count within big in
    let first =
      get_or-set_self c.state i (a, (get_or c.state i (0, 0)).1) (0, 0)
        (omega (arith, h.size, within)) in
    rw (beq_ne a c.last new_a, beq_ne b c.last new_b, advance)
      (
        refl,
        get_or-set_ne _ j i _ (0, 0) ne
            ∙ get_or-set_ne _ j i _ (0, 0) ne
            ∙ get_or-set_ne _ j i _ (0, 0) ne
            ∙ first,
      )
