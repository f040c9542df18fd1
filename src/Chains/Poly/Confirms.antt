-- ===== src/Chains/Poly/Confirms.antt =====
-- What `Confirm` of `chains/poly/poly.go` returns.
use bridge_common.Prelude.{
  ℕ, zero, suc, ◌%◌, ◌^◌, ◌≤◌, ◌<◌, ◌≡◌, refl, sym, ap, ◌⊎◌, ◌↔◌, ◌∙◌, subst, inl, inr, Bool, true,
  false, Option, none, some, add32, Option-cases, arith,
}
use bridge_common.Chains.Poly.{settled, leaves_error, confirm_from, confirm}

-- A round that shows the transaction at height `h`, as deep as asked, in `uint32` arithmetic.
pub record IsSettled (blocks : ℕ) (r : Option ℕ × Option ℕ) (h : ℕ) : Type 0 where
  pub mined : r.0 ≡ some h
  pub deep : (blocks ≡ 0) ⊎ (n : ℕ) × (r.1 ≡ some n) × (add32 h (blocks % 2 ^ 32) ≤ n)

-- A round in which an error comes in place of a reply.
abbrev pub Failed : Option ℕ × Option ℕ → Type 0
Failed r = (r.0 ≡ none) ⊎ (r.1 ≡ none)

settled-IsSettled :
    (blocks : ℕ) (r : Option ℕ × Option ℕ) (h : ℕ)
    → settled blocks r ≡ some h
    → IsSettled blocks r h
unfolding settled
settled-IsSettled blocks (none, latest) h e = absurd (ground arith)
settled-IsSettled zero (some k, latest) h e = record { mined = e; deep = inl refl }
settled-IsSettled (suc b) (some k, none) h e = absurd (ground arith)
settled-IsSettled (suc b) (some k, some current) h e = record {
  mined = ground arith;
  deep = inr (current, refl, ground arith);
}

IsSettled-settled :
    (blocks : ℕ) (r : Option ℕ × Option ℕ) (h : ℕ)
    → IsSettled blocks r h
    → settled blocks r ≡ some h
unfolding settled
IsSettled-settled blocks (none, latest) h w = ground (arith, w.mined)
IsSettled-settled zero (some k, latest) h w = w.mined
IsSettled-settled (suc b) (some k, none) h w = absurd (ground (arith, w.deep))
IsSettled-settled (suc b) (some k, some current) h w = ground (arith, w.mined, w.deep)

leaves_error-Failed : (r : Option ℕ × Option ℕ) → (leaves_error r ≡ true) ↔ Failed r
unfolding leaves_error
leaves_error-Failed (none, latest) = (λ e. inl refl, λ f. refl)
leaves_error-Failed (some h, none) = (λ e. inr refl, λ f. refl)
leaves_error-Failed (some h, some current) =
    (λ e. absurd cc, λ f. absurd (elim f [ inl e ↦ cc | inr e ↦ cc ]))

-- The results of a call that no round settled: an error just if there was a round and the last one
-- failed.
pub record IsUnsettled (rounds : ℕ → Option ℕ × Option ℕ) (count blocks : ℕ) (bad last : Bool)
    : Type 0 where
  pub never : (i h : ℕ) → i < count → IsSettled blocks (rounds i) h → ⊥
  pub error :
      (count ≡ 0) × (last ≡ bad) ⊎ (i : ℕ) × (suc i ≡ count) × ((last ≡ true) ↔ Failed (rounds i))

never-suc :
    (count blocks : ℕ) (rounds : ℕ → Option ℕ × Option ℕ)
    → settled blocks (rounds 0) ≡ none
    → ((i h : ℕ) → i < count → IsSettled blocks (rounds (suc i)) h → ⊥)
    → (i h : ℕ) → i < suc count
    → IsSettled blocks (rounds i) h
    → ⊥
never-suc count blocks rounds z never zero h l w =
    cc (sym z ∙ IsSettled-settled blocks (rounds 0) h w)
never-suc count blocks rounds z never (suc i) h l w = never i h (omega (arith, l)) w

confirm_from_lem :
    (count : ℕ) (rounds : ℕ → Option ℕ × Option ℕ) (blocks : ℕ) (bad : Bool)
    → let (h, err) = confirm_from count rounds blocks bad in
      ((i : ℕ) × (i < count) × IsSettled blocks (rounds i) h × (err ≡ false))
      ⊎ (h ≡ 0) × IsUnsettled rounds count blocks bad err
unfolding confirm_from
confirm_from_lem zero rounds blocks bad =
    inr (refl, record { never = λ i h l w. omega (arith, l); error = inl (refl, refl) })
confirm_from_lem (suc count) rounds blocks bad = elim (Option-cases (settled blocks (rounds 0))) [
  | inr (h, s) ↦
      rw (s, confirm_from) (inl (0, omega arith, settled-IsSettled blocks (rounds 0) h s, refl))
  | inl z ↦
      rw (z, confirm_from)
        (elim (confirm_from_lem count (λ i. rounds (suc i)) blocks (leaves_error (rounds 0))) [
          | inl (i, l, s, ok) ↦ inl (suc i, omega (arith, l), s, ok)
          | inr (none_yet, u) ↦ inr (
            none_yet,
            record {
              never = never-suc count blocks rounds z u.never;
              error = inr (elim u.error [
                | inl (empty, kept) ↦ (
                  0,
                  ap suc (sym empty),
                  subst (λ e. (e ≡ true) ↔ Failed (rounds 0)) (sym kept)
                      (leaves_error-Failed (rounds 0)),
                )
                | inr (i, p, q) ↦ (suc i, ap suc p, q)
              ]);
            },
          )
        ])
]

-- `Confirm` either returns the height of the transaction, without an error, from a round that showed
-- the latest block at least `blocks` above it, in `uint32` arithmetic, or any block if `blocks` is
-- 0; or it returns the height 0, no round among the `count` showed that, and there is an error just
-- if there was a round and the last one got no height of the transaction or no latest block, so that
-- there is none if that round only found the transaction too young.
pub confirm-IsSettled :
    (rounds : ℕ → Option ℕ × Option ℕ) (blocks count : ℕ)
    → let (h, err) = confirm rounds blocks count in
      ((i : ℕ) × (i < count) × IsSettled blocks (rounds i) h × (err ≡ false))
      ⊎ (h ≡ 0) × IsUnsettled rounds count blocks false err
unfolding confirm
confirm-IsSettled rounds blocks count = confirm_from_lem count rounds blocks false
