-- ===== src/Chains/Sdk/Race/Locked.antt =====
-- Calls of `Select` of `chains/chain.go` beside `updateSelection`, with the lock that both use: a
-- `sync.RWMutex`, whose `Lock` waits for the readers inside, and keeps new readers out meanwhile.
use bridge_common.Prelude.{ℕ, ◌≡◌, Bool, true, false, List, length}
use bridge_common.Chains.Sdk.Race.{
  Pc, outside, entered, loaded, bumped, tests, returned, Move, update,
}

-- The flags `s.state`, and whether `updateSelection` waits in `Lock`.
pub record Shared : Type 0 where
  pub cursor : ℕ
  pub flags : List Bool
  pub waiting : Bool
  pub pc : ℕ → Pc

-- A call that does not hold the read lock.
abbrev pub IsIdle : Pc → Type 0
IsIdle outside = Unit
IsIdle (entered a) = ⊥
IsIdle (loaded a v) = ⊥
IsIdle (bumped a) = ⊥
IsIdle (tests a c) = ⊥
IsIdle (returned a c) = Unit

pub data Step (len : ℕ) (s : Shared) : Shared → Type 0 where
  -- A statement of the call of goroutine `i`; none begins while the writer waits.
  moves :
      (i : ℕ) {p q : Pc} {x : ℕ}
      → s.pc i ≡ p
      → Move s.flags len s.cursor p x q
      → (p ≡ Pc.outside → s.waiting ≡ false)
      → Step len s (record s { cursor = x; pc = update s.pc i q })
  -- The goroutine `i` may call again.
  leaves :
      (i : ℕ) {a c : ℕ}
      → s.pc i ≡ Pc.returned a c
      → Step len s (record s { pc = update s.pc i Pc.outside })
  -- `updateSelection` comes to `Lock`.
  waits : Step len s (record s { waiting = true })
  -- It holds the lock, stores new flags, and lets it go.
  stores_flags :
      (flags : List Bool)
      → s.waiting ≡ true
      → ((i : ℕ) → IsIdle (s.pc i))
      → length flags ≡ len
      → Step len s (record s { flags = flags; waiting = false })

pub data Run (len : ℕ) (s : Shared) : Shared → Type 0 where
  here : Run len s s
  next : {t u : Shared} → Run len s t → Step len t u → Run len s u

-- No call has begun, and the writer is elsewhere.
abbrev pub start : List Bool → ℕ → Shared
start flags x = record { cursor = x; flags = flags; waiting = false; pc = λ i. Pc.outside }
