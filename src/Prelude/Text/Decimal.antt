-- ===== src/Prelude/Text/Decimal.antt =====
-- The texts of numbers in decimal: they are read back, and hold nothing but digits.
use Prim.Native.Nat.{ℕ, zero, suc, ◌+◌, ◌*◌, ◌-◌, ◌/◌, ◌%◌, ◌<◌, ◌≤◌}
use mathlib.Core.Path.{◌≡◌, refl, sym, ap, ◌∙◌}
use mathlib.Core.Logic.{◌≢◌, inl, inr}
use mathlib.Core.List.{[], ◌∷◌, ◌++◌}
use native.Mathlib.Omega.{arith}
use bridge_common.Prelude.Tests.{ltb, Bool-cases}
use bridge_common.Prelude.Lists.{All}
use bridge_common.Prelude.Text.{Text, decimal, decimal_digits}

-- Reading digits after a number.
unfoldable pub read : ℕ → Text → ℕ
read n [] = n
read n (c ∷ cs) = read (n * 10 + (c - 48)) cs

read-decimal_digits :
    (fuel n : ℕ) (acc : Text) → n < fuel → read 0 (decimal_digits fuel n acc) ≡ read n acc
unfolding read decimal_digits
read-decimal_digits zero n acc h = absurd (omega (arith, h))
read-decimal_digits (suc fuel) n acc h = elim (Bool-cases (ltb n 10)) [
  | inl small ↦ rw small (ap (λ m. read m acc) (ground (arith, small)))
  | inr large ↦ rw large (
      read-decimal_digits fuel (n / 10) ((48 + n % 10) ∷ acc) (ground (arith, large))
      ∙ ap (λ m. read m acc) (omega arith))
]

pub read-decimal : (n : ℕ) → read 0 (decimal n) ≡ n
unfolding decimal read
read-decimal n = read-decimal_digits (suc n) n [] (omega arith)

pub decimal_injective : (m n : ℕ) → decimal m ≡ decimal n → m ≡ n
decimal_injective m n e = sym (read-decimal m) ∙ ap (read 0) e ∙ read-decimal n

-- Nothing but digits.
abbrev pub IsNumeral : Text → Type 0
IsNumeral = All (λ c. (b'0' ≤ c) × (c ≤ b'9'))

decimal_digits-IsNumeral :
    (fuel n : ℕ) (acc : Text) → IsNumeral acc → IsNumeral (decimal_digits fuel n acc)
unfolding decimal_digits
decimal_digits-IsNumeral zero n acc h = h
decimal_digits-IsNumeral (suc fuel) n acc h = elim (Bool-cases (ltb n 10)) [
  | inl small ↦ rw small ((omega arith, omega arith), h)
  | inr large ↦
      rw large (
        decimal_digits-IsNumeral fuel (n / 10) ((48 + n % 10) ∷ acc)
          ((omega arith, omega arith), h))
]

pub decimal-IsNumeral : (n : ℕ) → IsNumeral (decimal n)
unfolding decimal
decimal-IsNumeral n = decimal_digits-IsNumeral (suc n) n [] tt

abbrev pub HasNoColon : Text → Type 0
HasNoColon = All (λ c. c ≢ b':')

IsNumeral-HasNoColon : (cs : Text) → IsNumeral cs → HasNoColon cs
IsNumeral-HasNoColon [] h = tt
IsNumeral-HasNoColon (c ∷ cs) h = ((λ e. omega (arith, e, h.0.1)), IsNumeral-HasNoColon cs h.1)

pub decimal-HasNoColon : (n : ℕ) → HasNoColon (decimal n)
decimal-HasNoColon n = IsNumeral-HasNoColon (decimal n) (decimal-IsNumeral n)

-- A text is cut at its first colon in one way.
pub colon_inj :
    (xs ys us vs : Text)
    → HasNoColon xs
    → HasNoColon ys
    → xs ++ (b':' ∷ us) ≡ ys ++ (b':' ∷ vs)
    → (xs ≡ ys) × (us ≡ vs)
colon_inj [] [] us vs h k e = (refl, cc)
colon_inj [] (y ∷ ys) us vs h k e = absurd (k.0 cc)
colon_inj (x ∷ xs) [] us vs h k e = absurd (h.0 cc)
colon_inj (x ∷ xs) (y ∷ ys) us vs h k e =
    let (same, rest) = colon_inj xs ys us vs h.1 k.1 cc in
    let first : x ≡ y = cc in (rw (first, same) refl, rest)
