-- ===== src/Chains/Sdk/Race/Exclusion.antt =====
-- The flags that a call of `Select` of `chains/chain.go` reads stay the same while it runs.
use bridge_common.Prelude.{ℕ, ◌≡◌, refl}
use bridge_common.Chains.Sdk.Race.Locked.{Shared, IsIdle, Step, moves, leaves, waits, stores_flags}

-- A step changes the flags only where no call holds the read lock, so that the flags may be taken as
-- fixed for the calls that run.
pub Step-flags :
    {len : ℕ} {s t : Shared} (i : ℕ) → (IsIdle (s.pc i) → ⊥) → Step len s t → t.flags ≡ s.flags
Step-flags i inside (moves j at mv open_lock) = refl
Step-flags i inside (leaves j at) = refl
Step-flags i inside waits = refl
Step-flags i inside (stores_flags flags wait idle size) = absurd (inside (idle i))
