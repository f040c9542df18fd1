-- ===== src/Log/Levels.antt =====
-- The level that the variable `LOG` sets in `log/log.go`.
use bridge_common.Prelude.{
  ℕ, ◌+◌, ◌-◌, ◌*◌, ◌^◌, ◌≤◌, ◌<◌, ◌≡◌, refl, ap, ◌∙◌, Bool, false, [], ◌∷◌, arith,
}
use bridge_common.Prelude.Int.{ℤ, pos}
use bridge_common.Prelude.Text.{Text, decimal}
use bridge_common.Prelude.Text.Decimal.{read, read-decimal, IsNumeral, decimal-IsNumeral}
use bridge_common.Log.{fits, read_digits, clamped, number, atoi, load, init}

-- Reading on does not make a number smaller.
read-ge : (n : ℕ) (cs : Text) → n ≤ read n cs
unfolding read
read-ge n [] = omega arith
read-ge n (c ∷ cs) = omega (arith, read-ge (n * 10 + (c - 48)) cs)

read_digits-read :
    (n : ℕ) (cs : Text) → IsNumeral cs → read n cs < 2 ^ 64 → read_digits n cs ≡ fits (read n cs)
unfolding read_digits read
read_digits-read n [] h l = refl
read_digits-read n (c ∷ cs) h l =
    let rest = read_digits-read (n * 10 + (c - 48)) cs h.1 l in
    let room = read-ge (n * 10 + (c - 48)) cs in ground (arith, h.0, rest, room, l)

number-read : (cs : Text) → IsNumeral cs → read 0 cs < 2 ^ 63 → number false cs ≡ pos (read 0 cs)
unfolding number read
number-read [] h l = refl
number-read (c ∷ cs) h l =
    rw (read_digits-read 0 (c ∷ cs) h (omega (arith, l))) (in_range (read 0 (c ∷ cs)) l)
  where
    in_range : (n : ℕ) → n < 2 ^ 63 → clamped false (fits n) ≡ pos n
    in_range n l = ground (arith, l)

atoi-read : (cs : Text) → IsNumeral cs → read 0 cs < 2 ^ 63 → atoi cs ≡ pos (read 0 cs)
unfolding atoi read
atoi-read [] h l = refl
atoi-read (c ∷ cs) h l = let known = number-read (c ∷ cs) h l in ground (arith, h.0, known)

-- `Atoi` reads back what `%d` prints.
pub atoi-decimal : (n : ℕ) → n < 2 ^ 63 → atoi (decimal n) ≡ pos n
atoi-decimal n l =
    atoi-read (decimal n) (decimal-IsNumeral n) (omega (arith, l, read-decimal n))
    ∙ ap pos (read-decimal n)

-- A positive `int` in the variable `LOG` is the level from the start, and `Init` leaves it so, whatever
-- the terminal.
pub init-load :
    (info : ℤ) (n : ℕ) (terminal : Bool) (term : Text)
    → 0 < n
    → n < 2 ^ 63
    → let l = load info (decimal n) in
      (l.level ≡ pos n) × ((init terminal term l).level ≡ pos n) × (l.verbosity ≡ pos n)
unfolding load init
init-load info n terminal term h l = let e = atoi-decimal n l in rw e (ground (arith, h))
