-- ===== src/Chains/Sdk/Race.antt =====
-- `Select` of `chains/chain.go` by several goroutines at once. The method takes only the read lock, so
-- its statements interleave with those of other calls; the flags stay, since the writer is kept out.
-- `s.cursor++` is a read and a write. `s.cursor` is an `int` of 64 bits. The runs here are those in
-- which it does not overflow: past 2 ^ 63 - 1 the source stores a negative number, and then the
-- remainder is negative too, and `s.state[c]` may panic.
pub mod Returning
pub mod Alone
pub mod Locked
pub mod Exclusion
pub mod Livelock
pub mod Prompt
use bridge_common.Prelude.{
  ℕ, ◌+◌, ◌%◌, ◌^◌, ◌<◌, ◌≡◌, ◌≢◌, ◌⊎◌, Bool, true, false, List, some, get_elem?, if◌then◌else◌,
  ◌==◌,
}

-- The first number that is too great for an `int`.
abbrev pub int_size : ℕ
int_size = 2 ^ 63

-- Where a call stands; its local `cursor` is the first number, and its local `c` the second.
pub data Pc : Type 0 where
  outside : Pc
  -- Before `s.cursor++`.
  entered : ℕ → Pc
  -- In it, with the value read.
  loaded : ℕ → ℕ → Pc
  -- After it, before `c := s.cursor % len(s.nodes)`.
  bumped : ℕ → Pc
  -- At the test of the loop.
  tests : ℕ → ℕ → Pc
  returned : ℕ → ℕ → Pc

-- One statement of a call, on the shared `s.cursor`.
pub data Move (flags : List Bool) (len : ℕ) : ℕ → Pc → ℕ → Pc → Type 0 where
  enters : {x a : ℕ} → a ≡ x % len → Move flags len x Pc.outside x (entered a)
  loads : {x a : ℕ} → Move flags len x (entered a) x (loaded a x)
  stores : {x a v w : ℕ} → v + 1 < int_size → w ≡ v + 1 → Move flags len x (loaded a v) w (bumped a)
  looks : {x a c : ℕ} → c ≡ x % len → Move flags len x (bumped a) x (tests a c)
  skips :
      {x a c : ℕ}
      → c ≢ a
      → get_elem? flags c ≡ some false
      → Move flags len x (tests a c) x (entered a)
  returns :
      {x a c : ℕ}
      → (c ≡ a) ⊎ (get_elem? flags c ≡ some true)
      → Move flags len x (tests a c) c (returned a c)

-- The shared cursor, and where the call of each goroutine stands.
pub record Calls : Type 0 where
  pub cursor : ℕ
  pub pc : ℕ → Pc

abbrev pub update : (ℕ → Pc) → ℕ → Pc → ℕ → Pc
update pc i p j = if i == j then p else pc j

pub data Step (flags : List Bool) (len : ℕ) (s : Calls) : Calls → Type 0 where
  pick :
      (i : ℕ) {p q : Pc} {x : ℕ}
      → s.pc i ≡ p
      → Move flags len s.cursor p x q
      → Step flags len s (record { cursor = x; pc = update s.pc i q })

pub data Run (flags : List Bool) (len : ℕ) (s : Calls) : Calls → Type 0 where
  here : Run flags len s s
  next : {t u : Calls} → Run flags len s t → Step flags len t u → Run flags len s u

-- No call has begun.
abbrev pub start : ℕ → Calls
start x = record { cursor = x; pc = λ i. Pc.outside }
