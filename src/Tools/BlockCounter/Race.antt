-- ===== src/Tools/BlockCounter/Race.antt =====
-- `Tick` of the block counter of `tools/counter.go` by several goroutines at once. It unlocks right
-- after it locks, so its statements interleave with those of other calls; each is one step here.
pub mod Torn
use bridge_common.Prelude.{
  ℕ, zero, suc, ◌+◌, ◌-◌, ◌%◌, ◌<◌, ◌≡◌, refl, ◌∙◌, inl, inr, Option-cases, Bool-cases, ap, Bool,
  true, false, not, ◌&&◌, List, [], ◌∷◌, Option, none, some, length, length-set, get_elem?, get_or,
  set, if◌then◌else◌, ◌==◌, arith,
}
use bridge_common.Tools.BlockCounter.{BlockCounter, tick}

-- Which statement of `Tick` a call stands before.
pub data Stage : Type 0 where
  -- `if height == c.last`
  checks : Stage
  -- `c.last = height`
  sets_last : Stage
  -- `if !c.full && c.tail == c.count-1`
  fills : Stage
  -- `c.tail = (c.tail + 1) % c.count`
  moves : Stage
  -- `c.state[c.tail][0] = height`
  writes_height : Stage
  -- `c.state[c.tail][1] = uint64(NowMS())`
  writes_time : Stage
  -- `if c.full`
  sets_head : Stage
  returned : Stage

-- The statement of a call with this height, and this value of `NowMS`.
unfoldable pub advance : ℕ → ℕ → Stage → BlockCounter → Stage × BlockCounter
advance height now checks c = ((if height == c.last then returned else sets_last), c)
advance height now sets_last c = (fills, record c { last = height })
advance height now fills c =
    (moves, record c { full = if not c.full && (c.tail == c.count - 1) then true else c.full })
advance height now moves c = (writes_height, record c { tail = (c.tail + 1) % c.count })
advance height now writes_height c = (
  writes_time,
  record c { state = set c.state c.tail (height, (get_or c.state c.tail (0, 0)).1) },
)
advance height now writes_time c =
    (sets_head, record c { state = set c.state c.tail ((get_or c.state c.tail (0, 0)).0, now) })
advance height now sets_head c =
    (returned, record c { head = if c.full then (c.tail + 1) % c.count else c.head })
advance height now returned c = (returned, c)

-- A call: its height, its time, and where it stands.
pub record Thread : Type 0 where
  pub height : ℕ
  pub now : ℕ
  pub stage : Stage

abbrev pub calls : ℕ → ℕ → Thread
calls height now = record { height = height; now = now; stage = checks }

-- The schedule names the call whose statement comes next.
unfoldable pub interleave : List ℕ → List Thread × BlockCounter → List Thread × BlockCounter
unfolding advance
interleave [] s = s
interleave (i ∷ is) (ts, c) = elim (get_elem? ts i) [
  | none ↦ interleave is (ts, c)
  | some t ↦
      let (stage, c') = advance t.height t.now t.stage c in
      interleave is (set ts i (record t { stage = stage }), c')
]

-- No index is out of range: `Tick` writes at `tail`, `BlockTime` reads at `tail` and `head`.
pub record IsInRange (c : BlockCounter) : Type 0 where
  pub size : length c.state ≡ c.count
  pub tail_in : c.tail < c.count
  pub head_in : c.head < c.count

-- The two writes of a call make one.
set-set-get_or :
    (xs : List (ℕ × ℕ)) (i height now : ℕ) (d : ℕ × ℕ)
    → i < length xs
    → let ys = set xs i (height, (get_or xs i d).1) in
      set ys i ((get_or ys i d).0, now) ≡ set xs i (height, now)
set-set-get_or [] i height now d h = refl
set-set-get_or (x ∷ xs) zero height now d h = refl
set-set-get_or (x ∷ xs) (suc i) height now d h =
    ap (λ l. x ∷ l) (set-set-get_or xs i height now d (omega (arith, h)))

-- The statements of a call that runs alone do what `tick` does.
pub interleave-tick :
    (height now : ℕ) (c : BlockCounter)
    → IsInRange c
    → (interleave (0 ∷ 0 ∷ 0 ∷ 0 ∷ 0 ∷ 0 ∷ 0 ∷ []) (calls height now ∷ [], c)).1 ≡ tick height now c
unfolding interleave advance tick
interleave-tick height now c h = elim (Bool-cases (height == c.last)) [
  | inl same ↦ rw (same, advance, tick) refl
  | inr other ↦
      rw
        (
          other,
          advance,
          tick,
          set-set-get_or c.state ((c.tail + 1) % c.count) height now (0, 0)
              (omega (arith, h.size, h.tail_in)),
        )
        refl
]

advance-IsInRange :
    (height now : ℕ) (stage : Stage) (c : BlockCounter)
    → IsInRange c
    → IsInRange (advance height now stage c).1
unfolding advance
advance-IsInRange height now checks c h = h
advance-IsInRange height now sets_last c h = record {
  size = h.size;
  tail_in = h.tail_in;
  head_in = h.head_in;
}
advance-IsInRange height now fills c h = record {
  size = h.size;
  tail_in = h.tail_in;
  head_in = h.head_in;
}
advance-IsInRange height now moves c h = record {
  size = h.size;
  tail_in = omega (arith, h.tail_in);
  head_in = h.head_in;
}
advance-IsInRange height now writes_height c h = record {
  size = length-set _ _ _ ∙ h.size;
  tail_in = h.tail_in;
  head_in = h.head_in;
}
advance-IsInRange height now writes_time c h = record {
  size = length-set _ _ _ ∙ h.size;
  tail_in = h.tail_in;
  head_in = h.head_in;
}
advance-IsInRange height now sets_head c h = record {
  size = h.size;
  tail_in = h.tail_in;
  head_in = ground (arith, h.tail_in, h.head_in);
}
advance-IsInRange height now returned c h = h

-- However calls of `Tick` interleave, whatever they are called with and however many there are, no
-- index leaves the ring: `tail`, where they write, and `head`, from where `BlockTime` reads, stay in
-- range.
pub interleave-IsInRange :
    (schedule : List ℕ) (ts : List Thread) (c : BlockCounter)
    → IsInRange c
    → IsInRange (interleave schedule (ts, c)).1
unfolding interleave
interleave-IsInRange [] ts c h = h
interleave-IsInRange (i ∷ is) ts c h = elim (Option-cases (get_elem? ts i)) [
  | inl e ↦ rw (e, interleave) (interleave-IsInRange is ts c h)
  | inr (t, e) ↦
      rw (e, interleave)
        (interleave-IsInRange is _ _ (advance-IsInRange t.height t.now t.stage c h))
]
