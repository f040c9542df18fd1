-- ===== src/Tools/TimedCounter.antt =====
-- The timed counter of `tools/counter.go`. `int` values are 64-bit patterns, whose addition wraps;
-- the ticker of `run` is an event.
use bridge_common.Prelude.{
  ℕ, ◌+◌, ◌/◌, ◌%◌, ◌^◌, ◌<◌, ◌≡◌, refl, ap, ◌∙◌, List, [], ◌∷◌, ◌++◌, map, Option, none, some,
  if◌then◌else◌, leb, ◌==◌, add64, arith,
}

-- Durations are nanoseconds.
pub record TimedCounter : Type 0 where
  pub interval : ℕ
  pub value : ℕ
  pub current : ℕ

-- A duration is an `int64` pattern, so it is not positive if it is 0 or its sign bit is set.
unfoldable pub new_timed_counter : ℕ → Option TimedCounter
new_timed_counter interval =
    if interval == 0
    then none
    else if leb (2 ^ 63) interval
    then none
    else some (record { interval = interval; value = 0; current = 0 })

unfoldable pub tick : ℕ → TimedCounter → TimedCounter
tick count c = if count == 0 then c else record c { value = add64 c.value count }

-- What `run` does when its ticker fires.
unfoldable pub roll : TimedCounter → TimedCounter
roll c = record c { current = c.value; value = 0 }

abbrev pub second : ℕ
second = 1_000_000_000

module _ {F : Type 0} (zero_float : F) (ratio : ℕ → ℕ → F) where
  unfoldable pub tps : TimedCounter → F
  tps c =
      let duration = c.interval / second in
      if duration == 0 then zero_float else ratio c.current duration

pub data Event : Type 0 where
  ticks : ℕ → Event
  rolls : Event

unfoldable pub step : Event → TimedCounter → TimedCounter
unfolding tick roll
step (ticks count) c = tick count c
step rolls c = roll c

unfoldable pub run : List Event → TimedCounter → TimedCounter
run [] c = c
run (e ∷ es) c = run es (step e c)

pub sum : List ℕ → ℕ
sum [] = 0
sum (n ∷ ns) = n + sum ns

run-append : (xs ys : List Event) (c : TimedCounter) → run (xs ++ ys) c ≡ run ys (run xs c)
unfolding run
run-append [] ys c = refl
run-append (x ∷ xs) ys c = run-append xs ys (step x c)

-- Ticks add up in `value`, modulo the word, and leave the rest alone.
value-tick :
    (n : ℕ) (c : TimedCounter) → c.value < 2 ^ 64 → (tick n c).value ≡ (c.value + n) % 2 ^ 64
unfolding tick
value-tick n c h = ground arith

current-tick : (n : ℕ) (c : TimedCounter) → (tick n c).current ≡ c.current
unfolding tick
current-tick n c = ground arith

run-ticks :
    (ns : List ℕ) (c : TimedCounter)
    → c.value < 2 ^ 64
    → ((run (map ticks ns) c).value ≡ (c.value + sum ns) % 2 ^ 64)
      × ((run (map ticks ns) c).current ≡ c.current)
unfolding run step sum
run-ticks [] c h = (omega arith, refl)
run-ticks (n ∷ ns) c h =
    let at = value-tick n c h in
    let rest = run-ticks ns (tick n c) (omega arith) in
    (omega (arith, rest.0), rest.1 ∙ current-tick n c)

-- A window is isolated: between two firings of the ticker `Value` is the sum of the ticks of the
-- window before, whatever happened earlier and whatever has been counted since, and the count since
-- is kept for the next window. Sums are modulo the word.
pub run-windows :
    (before : List Event) (window since : List ℕ) (c : TimedCounter)
    → let c' = run (before ++ (rolls ∷ (map ticks window ++ (rolls ∷ map ticks since)))) c in
      (c'.current ≡ sum window % 2 ^ 64) × (c'.value ≡ sum since % 2 ^ 64)
unfolding run step roll
run-windows before window since c =
    let c₁ = roll (run before c) in
    let c₂ = run (map ticks window) c₁ in
    let first = run-ticks window c₁ (omega arith) in
    let later = run-ticks since (roll c₂) (omega arith) in
    rw
      (
        run-append before (rolls ∷ (map ticks window ++ (rolls ∷ map ticks since))) c,
        run-append (map ticks window) (rolls ∷ map ticks since) c₁,
      )
      (
        later.1 ∙ first.0 ∙ ap (λ n. n % 2 ^ 64) {x = 0 + sum window} (omega arith),
        later.0 ∙ ap (λ n. n % 2 ^ 64) {x = 0 + sum since} (omega arith),
      )
