-- ===== src/Metrics/Tests.antt =====
-- The metrics loop, and its channels, on concrete metrics.
use bridge_common.Prelude.{
  none, ℕ, ◌≤◌, ◌<◌, ◌+◌, ◌≡◌, ◌⊎◌, length, refl, List, arith, [], ◌∷◌, ◌++◌,
}
use bridge_common.Prelude.Text.{Text, codes, insert, text_eq}
use bridge_common.Metrics.{Metric, record_metric, absorb}
use bridge_common.Metrics.Pipeline.{
  Pipeline, Step, start, records, absorbs, fires, sends, flushes, Run, here, next,
}
use bridge_common.Metrics.Pipeline.Resting.{IsOwn, IsResting, work, Since, begun, goes, Since-rests}
use bridge_common.Metrics.Pipeline.Ordered.{Shows, Ordered, Run-Ordered}

abbrev one : Metric
one = record { key = codes "a"; value = codes "1" }

abbrev two : Metric
two = record { key = codes "a"; value = codes "2" }

-- The text of a map is that of its keys and values.
abbrev text_of : List (Text × Text) → Text
text_of [] = codes "{}"
text_of ((k, v) ∷ m) = k ++ v ++ text_of m

-- One metric has been recorded, taken, sent and stored.
abbrev after_one : Pipeline
after_one = record {
  ch = [];
  state = (codes "p.a", codes "1") ∷ [];
  pending = none;
  updates = [];
  current = codes "p.a1{}";
  accepted = one ∷ [];
  taken = one ∷ [];
}

after_one-Run : Run text_of (codes "p") start after_one
unfolding record_metric absorb insert
after_one-Run =
    next
      (next (next (next here (records one (omega arith))) (fires refl refl))
        (sends refl (omega arith)))
      (flushes refl)

Run-Ordered_example :
    (k k' : ℕ) × (k ≤ k')
    × Ordered text_of (codes "p") k after_one
    × Ordered text_of (codes "p") k' after_one
Run-Ordered_example = Run-Ordered text_of (codes "p") after_one after_one after_one-Run here

-- Another metric has been recorded and taken, and the ticker had not fired.
abbrev after_two : Pipeline
after_two = record after_one {
  state = (codes "p.a", codes "2") ∷ [];
  accepted = one ∷ two ∷ [];
  taken = one ∷ two ∷ [];
}

after_two-Since : Since text_of (codes "p") 1 after_two
unfolding record_metric absorb insert text_eq
after_two-Since =
    let r : Since text_of (codes "p") 0 _ = begun in
    let r = goes r (records one (omega arith)) in
    let r = goes r (fires refl refl) in
    let r = goes r (sends refl (omega arith)) in
    let r = goes r (flushes refl) in
    let r = goes r (records two (omega arith)) in goes r (absorbs refl refl)

Since-rests_example :
    ((t : Pipeline) (step : Step text_of (codes "p") after_two t)
      → IsOwn text_of (codes "p") step
      → work t < work after_two)
    × (((t : Pipeline) × (step : Step text_of (codes "p") after_two t) × IsOwn text_of
            (codes "p")
            step)
        ⊎ (IsResting after_two
            × ((k : ℕ) × (k + 1 ≡ length after_two.accepted)
                × Shows text_of (codes "p") after_two.accepted k after_two.current)))
Since-rests_example = Since-rests text_of (codes "p") after_two-Since
