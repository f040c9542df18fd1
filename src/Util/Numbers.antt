-- ===== src/Util/Numbers.antt =====
-- `Min`, `NonZeroMin` and `SetDecimals` of `util/util.go`.
use bridge_common.Prelude.{
  ℕ, ◌*◌, ◌^◌, ◌≤◌, ◌≡◌, ◌≢◌, ◌⊎◌, inl, inr, refl, ◌&&◌, ◌||◌, not, List, [], ◌∷◌, All,
  if◌then◌else◌, ltb, ◌==◌, arith,
}

min_from : ℕ → List ℕ → ℕ
min_from m [] = m
min_from m (n ∷ ns) = min_from (if ltb n m then n else m) ns

unfoldable pub min : List ℕ → ℕ
unfolding min_from
min [] = 0
min (n ∷ ns) = min_from n ns

non_zero_min_from : ℕ → List ℕ → ℕ
non_zero_min_from m [] = m
non_zero_min_from m (n ∷ ns) =
    non_zero_min_from (if (m == 0) || (ltb n m && not (n == 0)) then n else m) ns

unfoldable pub non_zero_min : List ℕ → ℕ
unfolding non_zero_min_from
non_zero_min = non_zero_min_from 0

-- `a * 10^decimals` on integers of any size.
unfoldable pub set_decimals : ℕ → ℕ → ℕ
set_decimals a decimals = a * 10 ^ decimals

-- The value stands in the list.
abbrev pub In : ℕ → List ℕ → Type 0
In a [] = ⊥
In a (n ∷ ns) = (a ≡ n) ⊎ In a ns

min_from-le : (m : ℕ) (ns : List ℕ) → min_from m ns ≤ m
unfolding min_from
min_from-le m [] = omega arith
min_from-le m (n ∷ ns) = ground (arith, min_from-le (if ltb n m then n else m) ns)

min_from-lower : (m : ℕ) (ns : List ℕ) → All (λ n. min_from m ns ≤ n) ns
unfolding min_from
min_from-lower m [] = tt
min_from-lower m (n ∷ ns) = (
  ground (arith, min_from-le (if ltb n m then n else m) ns),
  min_from-lower (if ltb n m then n else m) ns,
)

min_from-In : (m : ℕ) (ns : List ℕ) → (min_from m ns ≡ m) ⊎ In (min_from m ns) ns
unfolding min_from
min_from-In m [] = inl refl
min_from-In m (n ∷ ns) = ground (arith, min_from-In (if ltb n m then n else m) ns)

-- Of a list that is not empty `Min` returns an element that no other is below; of none it returns 0.
pub min_lem :
    (n : ℕ) (ns : List ℕ)
    → All (λ a. min (n ∷ ns) ≤ a) (n ∷ ns) × In (min (n ∷ ns)) (n ∷ ns) × (min [] ≡ 0)
unfolding min
min_lem n ns = ((min_from-le n ns, min_from-lower n ns), min_from-In n ns, refl)

-- Below every value that is not 0, unless it is 0 itself.
abbrev Under : ℕ → ℕ → Type 0
Under m n = (n ≢ 0) → (m ≢ 0) × (m ≤ n)

non_zero_min_from-Under : (m : ℕ) (ns : List ℕ) → Under (non_zero_min_from m ns) m
unfolding non_zero_min_from
non_zero_min_from-Under m [] h = (h, omega arith)
non_zero_min_from-Under m (n ∷ ns) h =
    ground
      (arith, non_zero_min_from-Under (if (m == 0) || (ltb n m && not (n == 0)) then n else m) ns)

non_zero_min_from-lower : (m : ℕ) (ns : List ℕ) → All (λ n. Under (non_zero_min_from m ns) n) ns
unfolding non_zero_min_from
non_zero_min_from-lower m [] = tt
non_zero_min_from-lower m (n ∷ ns) =
    let m' = if (m == 0) || (ltb n m && not (n == 0)) then n else m in
    ((λ h. ground (arith, non_zero_min_from-Under m' ns)), non_zero_min_from-lower m' ns)

non_zero_min_from-In :
    (m : ℕ) (ns : List ℕ) → (non_zero_min_from m ns ≡ m) ⊎ In (non_zero_min_from m ns) ns
unfolding non_zero_min_from
non_zero_min_from-In m [] = inl refl
non_zero_min_from-In m (n ∷ ns) =
    ground (arith, non_zero_min_from-In (if (m == 0) || (ltb n m && not (n == 0)) then n else m) ns)

In-All : (P : ℕ → Type 0) (n : ℕ) (ns : List ℕ) → All P ns → In n ns → P n
In-All P n [] h i = absurd i
In-All P n (m ∷ ns) h (inl e) = rw e h.0
In-All P n (m ∷ ns) h (inr i) = In-All P n ns h.1 i

-- If a value of the list is not 0, `NonZeroMin` is a value of the list that is not 0, and it is not
-- above that value.
pub non_zero_min_lem :
    (ns : List ℕ) (n : ℕ)
    → In n ns
    → n ≢ 0
    → (non_zero_min ns ≢ 0) × (non_zero_min ns ≤ n) × In (non_zero_min ns) ns
unfolding non_zero_min
non_zero_min_lem ns n i ne =
    let (pos, low) =
      In-All (Under (non_zero_min_from 0 ns)) n ns (non_zero_min_from-lower 0 ns) i ne in
    (pos, low, ground (arith, non_zero_min_from-In 0 ns))
