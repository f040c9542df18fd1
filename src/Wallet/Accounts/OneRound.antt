-- ===== src/Wallet/Accounts/OneRound.antt =====
-- As many calls of `Select` of `wallet/wallet.go` as there are accounts.
use mathlib.Core.List.{Perm, perm_append_comm}
use bridge_common.Prelude.{
  list_ext, length-drop, length-take, take-append-drop, get_elem?-drop, get_elem?-take,
  get_elem?-append_left, get_elem?-append_right, ℕ, ◌+◌, ◌-◌, ◌%◌, ◌<◌, ◌≡◌, ap, sym, ◌∙◌, subst,
  List, ◌++◌, some, length, length-append, get_elem?, take, drop, dec_lt, arith,
}
use native.Mathlib.Nat.{mod-eq_of_lt, mod-eq-sub-mod}
use bridge_common.Prelude.Keyed.{Eq}
use bridge_common.Wallet.Accounts.{Wallet}
use bridge_common.Wallet.Accounts.RoundRobin.{select_times, select_times-each}

-- The element at a place of a list that is turned round.
get_elem?-rotated :
    {A : Type 0} (n k : ℕ) (xs : List A)
    → n < length xs
    → k < length xs
    → get_elem? (drop n xs ++ take n xs) k ≡ get_elem? xs ((n + k) % length xs)
get_elem?-rotated n k xs h l =
    let size = length-drop n xs in
    elim (dec_lt k (length xs - n)) [
      | yes early ↦
          get_elem?-append_left (drop n xs) (take n xs) k (omega (arith, size, early))
          ∙ get_elem?-drop n k xs
          ∙ ap (get_elem? xs) (sym (mod-eq_of_lt (omega (arith, early))))
      | no late ↦
          let left = k - (length xs - n) in
          ap (get_elem? (drop n xs ++ take n xs)) {x = k} {y = length (drop n xs) + left}
            (omega (arith, size, late))
          ∙ get_elem?-append_right (drop n xs) (take n xs) left
          ∙ get_elem?-take n left xs (omega (arith, late, l))
          ∙ ap (get_elem? xs) (turn left (omega (arith, late, h)) (omega (arith, late, l, h)))
    ]
  where
    turn : (left : ℕ) → left + length xs ≡ n + k → left < length xs → left ≡ (n + k) % length xs
    turn left e small =
        sym (mod-eq_of_lt small)
        ∙ ap (λ x. x % length xs) {x = left} {y = n + k - length xs} (omega (arith, e))
        ∙ sym (mod-eq-sub-mod {n = n + k} {m = length xs} (omega (arith, e)))

module _ {A P N : Type 0} ⦃e : Eq A⦄ where
  -- As many calls of `Select` in a row as there are accounts return each account as often as the wallet
  -- has it, wherever the cursor stands and in whatever order Go has visited the providers.
  pub select_times-Perm :
      (w : Wallet A P N)
      → w.cursor < length w.accounts
      → (rest : List A) × (select_times (length w.accounts) w ≡ some rest) × Perm rest w.accounts
  select_times-Perm w h =
      let n = w.cursor in
      let xs = w.accounts in
      let (rest, run, size, each) = select_times-each (length xs) w h in
      let turned : rest ≡ drop n xs ++ take n xs =
        list_ext rest (drop n xs ++ take n xs)
          (omega (
            arith,
            size,
            length-append (drop n xs) (take n xs),
            length-drop n xs,
            length-take n xs (omega (arith, h)),
            h,
          ))
          (λ k l.
            each k (omega (arith, size, l))
            ∙ sym (get_elem?-rotated n k xs h (omega (arith, size, l)))) in
      (
        rest,
        run,
        subst (λ ys. Perm ys xs) (sym turned)
            (subst (Perm (drop n xs ++ take n xs)) (take-append-drop n xs)
              (perm_append_comm (drop n xs) (take n xs))),
      )
