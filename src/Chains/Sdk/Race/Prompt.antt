-- ===== src/Chains/Sdk/Race/Prompt.antt =====
-- `Select` of `chains/chain.go` while every node is eligible: no call is held up by others.
use bridge_common.Prelude.{
  ◌+◌, ◌≤◌, ℕ, suc, ◌<◌, ◌%◌, ◌≡◌, ◌≢◌, ◌⊎◌, refl, sym, ap, ◌∙◌, subst, inl, inr, Bool, true, List,
  some, get_elem?, arith,
}
use bridge_common.Chains.Sdk.Race.{
  Pc, int_size, outside, entered, loaded, bumped, tests, returned, Move, enters, loads, stores,
  looks, skips, returns, Calls, update, start,
}

-- How many statements a call has behind it that has not gone round the loop again.
abbrev pub steps_done : Pc → ℕ
steps_done outside = 0
steps_done (entered a) = 1
steps_done (loaded a v) = 2
steps_done (bumped a) = 3
steps_done (tests a c) = 4
steps_done (returned a c) = 5

-- Statements of calls of any goroutines, of which `n` are those of goroutine `i`.
pub data Turns (flags : List Bool) (len i : ℕ) (s : Calls) : ℕ → Calls → Type 0 where
  none_yet : Turns flags len i s 0 s
  own :
      {n : ℕ} {t : Calls} {p q : Pc} {x : ℕ}
      → Turns flags len i s n t
      → t.pc i ≡ p
      → Move flags len t.cursor p x q
      → Turns flags len i s (suc n) (record { cursor = x; pc = update t.pc i q })
  others :
      {n : ℕ} {t : Calls} {p q : Pc} {x : ℕ} (j : ℕ)
      → j ≢ i
      → Turns flags len i s n t
      → t.pc j ≡ p
      → Move flags len t.cursor p x q
      → Turns flags len i s n (record { cursor = x; pc = update t.pc j q })

module _ (flags : List Bool) (len : ℕ) (pos : 0 < len)
    (eligible : (k : ℕ) → k < len → get_elem? flags k ≡ some true) where
  -- The index at the test is one of a node.
  abbrev InRange : Pc → Type 0
  InRange outside = Unit
  InRange (entered a) = Unit
  InRange (loaded a v) = Unit
  InRange (bumped a) = Unit
  InRange (tests a c) = c < len
  InRange (returned a c) = Unit

  Move-steps_done :
      {x y : ℕ} {p q : Pc}
      → Move flags len x p y q
      → InRange p
      → (steps_done q ≡ suc (steps_done p)) × InRange q
  Move-steps_done (enters e) h = (refl, tt)
  Move-steps_done loads h = (refl, tt)
  Move-steps_done (stores room e) h = (refl, tt)
  Move-steps_done (looks e) h = (refl, omega (arith, e))
  Move-steps_done (skips {c = c} ne f) h = absurd (cc (sym f ∙ eligible c h))
  Move-steps_done (returns e) h = (refl, tt)

  update_same : (pc : ℕ → Pc) (i : ℕ) (p : Pc) → update pc i p i ≡ p
  update_same pc i p = ground arith

  update_other : (pc : ℕ → Pc) (i j : ℕ) (p : Pc) → j ≢ i → update pc j p i ≡ pc i
  update_other pc i j p ne = ground (arith, ne)

  -- What holds of the call of goroutine `i` after `n` of its statements.
  abbrev Done : ℕ → Pc → Type 0
  Done n p = (steps_done p ≡ n) × InRange p

  Turns-Done : {i x n : ℕ} {t : Calls} → Turns flags len i (start x) n t → Done n (t.pc i)
  Turns-Done none_yet = (refl, tt)
  Turns-Done {i} (own {n = n} {t = t} {q = q} r at mv) =
      let (done, inside) = subst (Done n) at (Turns-Done r) in
      let (more, inside') = Move-steps_done mv inside in
      subst (Done (suc n)) (sym (update_same t.pc i q)) (more ∙ ap suc done, inside')
  Turns-Done {i} (others {n = n} {t = t} {q = q} j ne r at mv) =
      subst (Done n) (sym (update_other t.pc i j q ne)) (Turns-Done r)

  -- The call has read the greatest `int`, or more, and is about to add one.
  abbrev pub AtGreatest : Pc → Type 0
  AtGreatest outside = ⊥
  AtGreatest (entered a) = ⊥
  AtGreatest (loaded a v) = int_size ≤ v + 1
  AtGreatest (bumped a) = ⊥
  AtGreatest (tests a c) = ⊥
  AtGreatest (returned a c) = ⊥

  -- A call that has not returned can go on.
  goes_on :
      (p : Pc) (x : ℕ)
      → InRange p
      → ((steps_done p < 5) × (((y : ℕ) × (q : Pc) × Move flags len x p y q) ⊎ AtGreatest p))
        ⊎ (steps_done p ≡ 5)
  goes_on outside x h = inl (omega arith, inl (x, entered (x % len), enters refl))
  goes_on (entered a) x h = inl (omega arith, inl (x, loaded a x, loads))
  goes_on (loaded a v) x h =
      let cases : (v + 1 < int_size) ⊎ (int_size ≤ v + 1) = omega arith in
      elim cases [
        | inl room ↦ inl (omega arith, inl (suc v, bumped a, stores room (omega arith)))
        | inr full ↦ inl (omega arith, inr full)
      ]
  goes_on (bumped a) x h = inl (omega arith, inl (x, tests a (x % len), looks refl))
  goes_on (tests a c) x h = inl (omega arith, inl (c, returned a c, returns (inr (eligible c h))))
  goes_on (returned a c) x h = inr refl

  at_end : (p : Pc) → steps_done p ≡ 5 → (a : ℕ) × (c : ℕ) × (p ≡ returned a c)
  at_end outside e = absurd (omega (arith, e))
  at_end (entered a) e = absurd (omega (arith, e))
  at_end (loaded a v) e = absurd (omega (arith, e))
  at_end (bumped a) e = absurd (omega (arith, e))
  at_end (tests a c) e = absurd (omega (arith, e))
  at_end (returned a c) e = (a, c, refl)

  -- While every node is eligible `Select` is wait-free: however its statements interleave with those
  -- of other calls, a call has returned after five of its own, and before that it can always go on,
  -- whatever the others have done to the cursor, unless they have counted it up to the greatest `int`.
  pub Turns-returned :
      {i x n : ℕ} {t : Calls}
      → Turns flags len i (start x) n t
      → ((n ≡ 5) × ((a : ℕ) × (c : ℕ) × (t.pc i ≡ returned a c)))
        ⊎ ((n < 5)
            × (((y : ℕ) × (q : Pc) × Move flags len t.cursor (t.pc i) y q) ⊎ AtGreatest (t.pc i)))
  Turns-returned {i} {x} {n} {t} r =
      let (done, inside) = Turns-Done r in
      elim (goes_on (t.pc i) t.cursor inside) [
        | inl (more, next) ↦ inr (omega (arith, done, more), next)
        | inr end ↦ inl (sym done ∙ end, at_end (t.pc i) end)
      ]
