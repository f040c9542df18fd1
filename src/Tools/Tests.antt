-- ===== src/Tools/Tests.antt =====
-- The counters and metrics of `tools` on concrete values.
use bridge_common.Prelude.{
  some, ℕ, ◌≡◌, refl, false, List, [], ◌∷◌, map, if◌then◌else◌, ◌==◌, arith, All, get_or,
}
use bridge_common.Prelude.Text.{Text, codes}
use bridge_common.Tools.BlockCounter.{BlockCounter, new_block_counter, tick_all, block_time}
use bridge_common.Tools.BlockCounter.Window.{remember_all}
use bridge_common.Tools.BlockCounter.Average.{span, block_time_lem}
use bridge_common.Tools.BlockCounter.Race.{
  IsInRange, calls, returned, interleave, interleave-IsInRange,
}
use bridge_common.Tools.BlockCounter.Race.Torn.{torn, interleave-torn}
use bridge_common.Tools.MetricWriter.{
  Event, poll, received, fires, sending, start, wrote, quiet, writes, breaks,
}
use bridge_common.Tools.MetricWriter.Resend.{IsSending, Turns-IsSending}
use bridge_common.Tools.MetricWriter.Batches.{entries_of, IsBatch, poll-returns}

abbrev two_blocks : BlockCounter
two_blocks = record {
  state = (0, 0) ∷ (0, 0) ∷ [];
  count = 2;
  head = 1;
  tail = 0;
  last = 0;
  full = false;
}

block_time_lem_example :
    let seen : List (ℕ × ℕ) = (10, 1000) ∷ (11, 1500) ∷ (11, 1600) ∷ (13, 2500) ∷ [] in
    let (duration, blocks) = span 2 (remember_all seen []) in
    block_time 0 (λ a b. a) (tick_all seen two_blocks) ≡ (if blocks == 0 then 0 else duration)
unfolding new_block_counter
block_time_lem_example =
    block_time_lem 0 (λ a b. a) 2 two_blocks
      ((10, 1000) ∷ (11, 1500) ∷ (11, 1600) ∷ (13, 2500) ∷ []) refl

Turns-IsSending_example :
    IsSending (codes "m") (sending (codes "m") false)
    × All (λ n. n ≡ codes "m") (codes "m" ∷ codes "m" ∷ [])
Turns-IsSending_example = Turns-IsSending (codes "m") refl (
    quiet (wrote (codes "m") (wrote (codes "m") start (writes (codes "m"))) (writes (codes "m")))
      (breaks (codes "m") false))

poll-returns_example :
    let es = received (codes "a") ∷ received (codes "b") ∷ fires ∷ [] in
    (text : Text) × (rest : List Event) × (poll 2 es [] ≡ some (text, rest))
    × IsBatch 2 (entries_of es) text rest
poll-returns_example = poll-returns 2 (received (codes "a") ∷ []) (codes "b") [] (omega arith)

-- Three calls, a schedule that runs the second to its end first.
interleave-IsInRange_example :
    IsInRange
      (interleave
        (1 ∷ 0 ∷ 1 ∷ 1 ∷ 2 ∷ 1 ∷ 1 ∷ 1 ∷ 1 ∷ 0 ∷ 0 ∷ [])
        (calls 10 1000 ∷ calls 11 1500 ∷ calls 11 1600 ∷ [], two_blocks)).1
interleave-IsInRange_example =
    interleave-IsInRange (1 ∷ 0 ∷ 1 ∷ 1 ∷ 2 ∷ 1 ∷ 1 ∷ 1 ∷ 1 ∷ 0 ∷ 0 ∷ [])
      (calls 10 1000 ∷ calls 11 1500 ∷ calls 11 1600 ∷ []) two_blocks
      (record { size = refl; tail_in = omega arith; head_in = omega arith })

interleave-torn_example :
    let (ts, c') = interleave torn (calls 10 1000 ∷ calls 11 1500 ∷ [], two_blocks) in
    (map (λ t. t.stage) ts ≡ returned ∷ returned ∷ []) × (get_or c'.state 1 (0, 0) ≡ (10, 0))
interleave-torn_example =
    interleave-torn two_blocks 10 11 1000 1500
      (record { size = refl; tail_in = omega arith; head_in = omega arith }) (omega arith)
      (λ e. omega (arith, e)) (λ e. omega (arith, e))
