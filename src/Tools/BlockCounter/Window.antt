-- ===== src/Tools/BlockCounter/Window.antt =====
-- The ring of a block counter holds the latest blocks seen, as many as it has room for.
use bridge_common.Prelude.{
  ℕ, zero, suc, ◌+◌, ◌-◌, ◌%◌, ◌≤◌, ◌<◌, ◌≡◌, ◌≢◌, refl, sym, ap, ◌∙◌, ◌⊎◌, Bool, true, false, List,
  [], ◌∷◌, length, get_or, set, length-set, get_or-set_self, get_or-set_ne, if◌then◌else◌, ◌==◌,
  arith, dec_lt, not, ◌&&◌, subst,
}
use native.Mathlib.Nat.{mod-eq_of_lt, mod-eq-sub-mod}
use bridge_common.Tools.BlockCounter.{BlockCounter, tick, tick_all}

-- The specification: every block with a new height, newest first.
abbrev pub last_height : List (ℕ × ℕ) → ℕ
last_height [] = 0
last_height ((height, now) ∷ seen) = height

abbrev pub remember : ℕ → ℕ → List (ℕ × ℕ) → List (ℕ × ℕ)
remember height now seen = if height == last_height seen then seen else (height, now) ∷ seen

unfoldable pub remember_all : List (ℕ × ℕ) → List (ℕ × ℕ) → List (ℕ × ℕ)
remember_all [] seen = seen
remember_all ((height, now) ∷ ticks) seen = remember_all ticks (remember height now seen)

-- Where the block seen `k` blocks before the last one is kept.
abbrev pub slot : BlockCounter → ℕ → ℕ
slot c k = (c.tail + c.count - k) % c.count

pub record Holds (c : BlockCounter) (seen : List (ℕ × ℕ)) : Type 0 where
  pub big : 2 ≤ c.count
  pub cells : length c.state ≡ c.count
  pub tail_in : c.tail < c.count
  pub newest : c.last ≡ last_height seen
  pub shape :
      (c.full ≡ false) × (c.tail ≡ length seen) × (c.head ≡ 1)
      ⊎ (c.full ≡ true) × (c.count ≤ length seen) × (c.head ≡ (c.tail + 1) % c.count)
  pub recent :
      (k : ℕ)
      → k < length seen
      → k < c.count
      → get_or c.state (slot c k) (0, 0) ≡ get_or seen k (0, 0)
  pub blank :
      length seen ≡ 0 → (get_or c.state 0 (0, 0) ≡ (0, 0)) × (get_or c.state 1 (0, 0) ≡ (0, 0))

pub slot_low : (tail count k : ℕ) → tail < count → k ≤ tail → (tail + count - k) % count ≡ tail - k
slot_low tail count k h l =
    mod-eq-sub-mod {n = tail + count - k} {m = count} (omega arith)
    ∙ ap (λ i. i % count) (omega arith)
    ∙ mod-eq_of_lt {n = tail - k} {m = count} (omega arith)

-- The place after the tail, on both sides of the end of the ring.
pub next_low : (tail count : ℕ) → tail + 1 < count → (tail + 1) % count ≡ tail + 1
next_low tail count h = mod-eq_of_lt h

pub next_high : (tail count : ℕ) → tail < count → ¬ (tail + 1 < count) → (tail + 1) % count ≡ 0
next_high tail count h p =
    mod-eq-sub-mod {n = tail + 1} {m = count} (omega arith)
    ∙ ap (λ i. i % count) (omega arith)
    ∙ mod-eq_of_lt {n = 0} {m = count} (omega arith)

-- One place further round the ring is one block later.
slot_next :
    (tail count k : ℕ)
    → tail < count
    → suc k < count
    → ((tail + 1) % count + count - suc k) % count ≡ (tail + count - k) % count
slot_next tail count k h l = elim (dec_lt (tail + 1) count) [
  | yes p ↦ ap (λ i. i % count) (omega (arith, next_low tail count p))
  | no p ↦
      ap (λ i. i % count) {x = (tail + 1) % count + count - suc k} {y = tail - k}
        (omega (arith, next_high tail count h p))
      ∙ mod-eq_of_lt {n = tail - k} {m = count} (omega arith)
      ∙ sym (slot_low tail count k h (omega arith))
]

slot_ne :
    (tail count k : ℕ)
    → tail < count
    → suc k < count
    → (tail + 1) % count ≢ (tail + count - k) % count
slot_ne tail count k h l e = elim (dec_lt (tail + 1) count) [
  | yes p ↦ elim (dec_lt tail k) [
    | yes q ↦ absurd (
        omega (
          arith,
          next_low tail count p,
          mod-eq_of_lt {n = tail + count - k} {m = count} (omega arith),
        ))
    | no q ↦ absurd (omega (arith, next_low tail count p, slot_low tail count k h (omega arith)))
  ]
  | no p ↦ absurd (omega (arith, next_high tail count h p, slot_low tail count k h (omega arith)))
]

-- What `Tick` does with a new height.
abbrev now_full : BlockCounter → Bool
now_full c = if not c.full && (c.tail == c.count - 1) then true else c.full

abbrev advance : ℕ → ℕ → BlockCounter → BlockCounter
advance height now c =
    let tail = (c.tail + 1) % c.count in
    record c {
      last = height;
      full = now_full c;
      tail = tail;
      state = set c.state tail (height, now);
      head = if now_full c then (tail + 1) % c.count else c.head;
    }

module _ (height now : ℕ) (c : BlockCounter) (seen : List (ℕ × ℕ)) (v : Holds c seen) where
  next_in : (c.tail + 1) % c.count < c.count
  next_in = omega (arith, v.big)

  advance-recent :
      (k : ℕ)
      → k < suc (length seen)
      → k < c.count
      → get_or (advance height now c).state (slot (advance height now c) k) (0, 0)
        ≡ get_or ((height, now) ∷ seen) k (0, 0)
  advance-recent zero h l =
      ap (λ i. get_or (set c.state ((c.tail + 1) % c.count) (height, now)) i (0, 0))
        (slot_low ((c.tail + 1) % c.count) c.count 0 next_in (omega arith) ∙ omega arith)
      ∙ get_or-set_self c.state _ (height, now) (0, 0) (omega (arith, v.cells, next_in))
  advance-recent (suc k) h l =
      ap (λ i. get_or (set c.state ((c.tail + 1) % c.count) (height, now)) i (0, 0))
        (slot_next c.tail c.count k v.tail_in l)
      ∙ get_or-set_ne c.state _ _ (height, now) (0, 0) (slot_ne c.tail c.count k v.tail_in l)
      ∙ v.recent k (omega arith) (omega arith)

  advance-shape :
      let c' = advance height now c in
      (c'.full ≡ false) × (c'.tail ≡ suc (length seen)) × (c'.head ≡ 1)
      ⊎ (c'.full ≡ true) × (c.count ≤ suc (length seen)) × (c'.head ≡ (c'.tail + 1) % c.count)
  advance-shape = ground (arith, v.shape, v.tail_in, v.big, next_low c.tail c.count)

  advance-Holds : Holds (advance height now c) ((height, now) ∷ seen)
  advance-Holds = record {
    big = v.big;
    cells = length-set c.state _ _ ∙ v.cells;
    tail_in = next_in;
    newest = refl;
    shape = advance-shape;
    recent = advance-recent;
    blank = λ e. absurd (omega arith);
  }

  either-Holds :
      (old : Bool)
      → Holds (if old then c else advance height now c) (if old then seen else (height, now) ∷ seen)
  either-Holds true = v
  either-Holds false = advance-Holds

  tick-Holds : Holds (tick height now c) (remember height now seen)
  unfolding tick
  tick-Holds =
      subst
        (λ l.
          Holds (if height == c.last then c else advance height now c)
            (if height == l then seen else (height, now) ∷ seen))
        v.newest (either-Holds (height == c.last))

pub tick_all-Holds :
    (ticks : List (ℕ × ℕ)) (c : BlockCounter) (seen : List (ℕ × ℕ))
    → Holds c seen
    → Holds (tick_all ticks c) (remember_all ticks seen)
unfolding tick_all remember_all
tick_all-Holds [] c seen v = v
tick_all-Holds ((height, now) ∷ ticks) c seen v =
    tick_all-Holds ticks (tick height now c) (remember height now seen)
      (tick-Holds height now c seen v)
