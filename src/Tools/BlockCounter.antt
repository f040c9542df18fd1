-- ===== src/Tools/BlockCounter.antt =====
-- The block counter of `tools/counter.go`: a ring of the last block heights with the times at which
-- they were seen.
pub mod Window
pub mod Average
pub mod Race
use bridge_common.Prelude.{
  ℕ, ◌+◌, ◌-◌, ◌%◌, Bool, true, false, not, ◌&&◌, List, [], ◌∷◌, Option, none, some, get_or, set,
  replicate, if◌then◌else◌, ltb, ◌==◌, sub64,
}

-- `int` fields stay in the range of the slice `state`, so they do not wrap.
pub record BlockCounter : Type 0 where
  pub state : List (ℕ × ℕ)
  pub count : ℕ
  pub head : ℕ
  pub tail : ℕ
  pub last : ℕ
  pub full : Bool

unfoldable pub new_block_counter : ℕ → Option BlockCounter
new_block_counter count =
    if ltb count 2
    then none
    else some (record {
      state = replicate count (0, 0);
      count = count;
      head = 1;
      tail = 0;
      last = 0;
      full = false;
    })

-- `Tick`, with the value of `NowMS` as an argument.
unfoldable pub tick : ℕ → ℕ → BlockCounter → BlockCounter
tick height now c =
    if height == c.last
    then c
    else let full = if not c.full && (c.tail == c.count - 1) then true else c.full in
      let tail = (c.tail + 1) % c.count in
      record c {
        last = height;
        full = full;
        tail = tail;
        state = set c.state tail (height, now);
        head = if full then (tail + 1) % c.count else c.head;
      }

-- The calls of `Tick` in order.
unfoldable pub tick_all : List (ℕ × ℕ) → BlockCounter → BlockCounter
tick_all [] c = c
tick_all ((height, now) ∷ ticks) c = tick_all ticks (tick height now c)

-- `float32`, of which only the division is used, is a parameter.
module _ {F : Type 0} (zero_float : F) (ratio : ℕ → ℕ → F) where
  unfoldable pub block_time : BlockCounter → F
  block_time c =
      let (h, h_time) = get_or c.state (c.head % c.count) (0, 0) in
      let (t, t_time) = get_or c.state (c.tail % c.count) (0, 0) in
      let duration = sub64 t_time h_time in
      let blocks = sub64 t h in if blocks == 0 then zero_float else ratio duration blocks
