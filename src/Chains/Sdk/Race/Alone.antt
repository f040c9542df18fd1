-- ===== src/Chains/Sdk/Race/Alone.antt =====
-- A call of `Select` that no other call disturbs.
use bridge_common.Prelude.{ℕ, ◌≡◌, refl, sym, subst, Bool, List, arith, ==_iff}
use bridge_common.Chains.Sdk.Race.{Pc, Move, Calls, update, pick, Run, next}

update_self : (pc : ℕ → Pc) (i : ℕ) (p : Pc) → update pc i p i ≡ p
update_self pc i p = ground (arith, ==_iff i i)

module _ (flags : List Bool) (len : ℕ) where
  -- From `s` a run leads to the cursor `x`, with the call of goroutine `i` at `p`.
  pub record Leads (s : Calls) (i x : ℕ) (p : Pc) : Type 0 where
    pub last : Calls
    pub run : Run flags len s last
    pub stands : last.pc i ≡ p
    pub cursor : last.cursor ≡ x

  advance :
      (s : Calls) (i : ℕ) {x y : ℕ} {p q : Pc}
      → Leads s i x p
      → Move flags len x p y q
      → Leads s i y q
  advance s i {x} {y} {p} {q} w mv = record {
    last = record { cursor = y; pc = update w.last.pc i q };
    run = next w.run (pick i w.stands (subst (λ z. Move flags len z p y q) (sym w.cursor) mv));
    stands = update_self w.last.pc i q;
    cursor = refl;
  }
