-- ===== src/Tools/BlockCounter/Average.antt =====
-- What `BlockTime` of `tools/counter.go` computes from the ring.
use bridge_common.Prelude.{
  ℕ, zero, suc, ◌+◌, ◌-◌, ◌%◌, ◌≤◌, ◌<◌, ◌≡◌, refl, sym, ap, ◌∙◌, inl, inr, false, List, [], ◌∷◌,
  some, length, get_or, replicate, length-replicate, if◌then◌else◌, ltb, ◌==◌, sub64, arith, subst,
}
use native.Mathlib.Nat.{mod-eq_of_lt}
use bridge_common.Tools.BlockCounter.{BlockCounter, new_block_counter, tick, tick_all, block_time}
use bridge_common.Tools.BlockCounter.Window.{remember_all, slot, Holds, slot_low, tick_all-Holds}

count-tick : (height now : ℕ) (c : BlockCounter) → (tick height now c).count ≡ c.count
unfolding tick
count-tick height now c = ground arith

count-tick_all : (ticks : List (ℕ × ℕ)) (c : BlockCounter) → (tick_all ticks c).count ≡ c.count
unfolding tick_all
count-tick_all [] c = refl
count-tick_all ((height, now) ∷ ticks) c =
    count-tick_all ticks (tick height now c) ∙ count-tick height now c

zero_cell : ℕ × ℕ
zero_cell = (0, 0)

get_or-replicate : (n i : ℕ) → get_or (replicate n zero_cell) i zero_cell ≡ zero_cell
get_or-replicate zero i = refl
get_or-replicate (suc n) zero = refl
get_or-replicate (suc n) (suc i) = get_or-replicate n i

abbrev fresh : ℕ → BlockCounter
fresh count = record {
  state = replicate count (0, 0);
  count = count;
  head = 1;
  tail = 0;
  last = 0;
  full = false;
}

new_block_counter-fresh :
    (count : ℕ) (c : BlockCounter)
    → new_block_counter count ≡ some c
    → (2 ≤ count) × (fresh count ≡ c)
unfolding new_block_counter
new_block_counter-fresh count c e = ground arith

fresh-Holds : (count : ℕ) → 2 ≤ count → Holds (fresh count) []
unfolding zero_cell
fresh-Holds count h = record {
  big = h;
  cells = length-replicate count (0, 0);
  tail_in = omega arith;
  newest = refl;
  shape = inl (refl, refl, refl);
  recent = λ k l. elim l [ ];
  blank = λ e. (get_or-replicate count 0, get_or-replicate count 1);
}

-- The times that `BlockTime` divides: of the newest block, and of the oldest that is kept.
abbrev pub span : ℕ → List (ℕ × ℕ) → ℕ × ℕ
span count seen =
    let kept = if ltb count (length seen) then count else length seen in
    let (h, h_time) = get_or seen (kept - 1) (0, 0) in
    let (t, t_time) = get_or seen 0 (0, 0) in (sub64 t_time h_time, sub64 t h)

-- How many blocks are kept.
abbrev kept : ℕ → ℕ → ℕ
kept count seen = if ltb count seen then count else seen

kept_low : (count seen : ℕ) → seen ≤ count → kept count seen ≡ seen
kept_low count seen h = ground arith

kept_high : (count seen : ℕ) → count ≤ seen → kept count seen ≡ count
kept_high count seen h = ground arith

entry :
    (c : BlockCounter) (seen : List (ℕ × ℕ)) (i k : ℕ)
    → Holds c seen
    → k < length seen
    → k < c.count
    → i ≡ slot c k
    → get_or c.state i (0, 0) ≡ get_or seen k (0, 0)
entry c seen i k v h l e = ap (λ m. get_or c.state m (0, 0)) e ∙ v.recent k h l

tail_entry :
    (c : BlockCounter) (seen : List (ℕ × ℕ))
    → Holds c seen
    → get_or c.state (c.tail % c.count) (0, 0) ≡ get_or seen 0 (0, 0)
tail_entry c [] v =
    ap (λ i. get_or c.state i (0, 0)) (mod-eq_of_lt v.tail_in ∙ omega (arith, v.shape, v.big))
    ∙ (v.blank refl).0
tail_entry c (s ∷ seen) v =
    entry c (s ∷ seen) (c.tail % c.count) 0 v (omega arith) (omega (arith, v.big)) (
      mod-eq_of_lt v.tail_in
      ∙ sym (slot_low c.tail c.count 0 v.tail_in (omega arith) ∙ omega arith))

head_place :
    (c : BlockCounter) (s : ℕ × ℕ) (seen : List (ℕ × ℕ))
    → Holds c (s ∷ seen)
    → c.head % c.count ≡ slot c (kept c.count (length (s ∷ seen)) - 1)
head_place c s seen v = elim v.shape [
  | inl (open_end, t, h) ↦
      let few : kept c.count (length (s ∷ seen)) ≡ length (s ∷ seen) =
        kept_low c.count (length (s ∷ seen)) (omega (arith, v.tail_in)) in
      ap (λ i. i % c.count) h
      ∙ mod-eq_of_lt {n = 1} {m = c.count} (omega (arith, v.big))
      ∙ sym (
          slot_low c.tail c.count (kept c.count (length (s ∷ seen)) - 1) v.tail_in
            (omega (arith, few))
          ∙ omega (arith, few))
  | inr (wrapped, many, h) ↦
      let all : kept c.count (length (s ∷ seen)) ≡ c.count =
        kept_high c.count (length (s ∷ seen)) many in
      ap (λ i. i % c.count) h
      ∙ mod-eq_of_lt {n = (c.tail + 1) % c.count} {m = c.count} (omega (arith, v.big))
      ∙ ap (λ i. i % c.count) (omega (arith, all, v.big))
]

head_entry :
    (c : BlockCounter) (seen : List (ℕ × ℕ))
    → Holds c seen
    → get_or c.state (c.head % c.count) (0, 0) ≡ get_or seen (kept c.count (length seen) - 1) (0, 0)
head_entry c [] v =
    ap (λ i. get_or c.state i (0, 0))
      (ap (λ i. i % c.count) {x = c.head} {y = 1} (omega (arith, v.shape, v.big))
        ∙ mod-eq_of_lt {n = 1} {m = c.count} (omega (arith, v.big)))
    ∙ (v.blank refl).1
head_entry c (s ∷ seen) v =
    entry c (s ∷ seen) (c.head % c.count) (kept c.count (length (s ∷ seen)) - 1) v
      (ground (arith, v.big)) (ground (arith, v.big)) (head_place c s seen v)

module _ {F : Type 0} (zero_float : F) (ratio : ℕ → ℕ → F) where
  -- After any ticks `BlockTime` is the average over the blocks seen, as many of the latest as the
  -- ring has room for: the time from the oldest of them to the newest, through the difference of
  -- their heights, and zero if that is zero.
  pub block_time_lem :
      (count : ℕ) (c : BlockCounter) (ticks : List (ℕ × ℕ))
      → new_block_counter count ≡ some c
      → let (duration, blocks) = span count (remember_all ticks []) in
        block_time zero_float ratio (tick_all ticks c)
        ≡ (if blocks == 0 then zero_float else ratio duration blocks)
  unfolding block_time
  block_time_lem count c ticks e =
      let (big, start) = new_block_counter-fresh count c e in
      let v : Holds (tick_all ticks c) (remember_all ticks []) =
        tick_all-Holds ticks c [] (subst (λ b. Holds b []) start (fresh-Holds count big)) in
      let size : (tick_all ticks c).count ≡ count =
        count-tick_all ticks c ∙ sym (ap (λ (b : BlockCounter). b.count) start) in
      rw (tail_entry _ _ v, head_entry _ _ v, size)
