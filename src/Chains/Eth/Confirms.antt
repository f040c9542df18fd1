-- ===== src/Chains/Eth/Confirms.antt =====
-- What `Confirm` of `chains/eth/eth.go` returns.
pub mod Returns
use bridge_common.Prelude.{
  ℕ, zero, suc, ◌+◌, ◌-◌, ◌%◌, ◌^◌, ◌≤◌, ◌<◌, ◌≡◌, ◌≢◌, refl, sym, ap, subst, ◌∙◌, ◌⊎◌, inl, inr,
  Bool, true, false, [], ◌∷◌, Option, none, some, Option-cases, arith,
}
use mathlib.Core.Option.{some-injective}
use bridge_common.Prelude.Text.{Text}
use bridge_common.Chains.Eth.{
  TxReply, unreachable, unknown, found, get_tx_height, latest_height, Confirmed, check_depth, round,
  confirm_from, confirm,
}

module _ (other : Text → ℕ) where
  -- A round that shows the transaction, with no error, at a positive height, as deep as asked.
  pub record IsConfirmed (blocks : ℕ) (r : TxReply × Option ℕ) (c : Confirmed other) : Type 0 where
    pub mined : get_tx_height other r.0 ≡ some (c.height, false, false)
    pub positive : 0 < c.height
    pub not_pending : c.pending ≡ false
    pub no_error : c.bad ≡ false
    pub deep :
        (blocks ≡ 0) × (c.confirms ≡ 0)
        ⊎ (n : ℕ) × (r.1 ≡ some n) × (c.height + c.confirms ≡ n % 2 ^ 64) × (blocks ≤ c.confirms)

  -- What a round that does not settle the call leaves: what it shows of the transaction and, if that
  -- has a height, the depth below the latest block, 0 if that is lower or unknown, and its error.
  pub record IsLeft (blocks : ℕ) (r : TxReply × Option ℕ) (c : Confirmed other) : Type 0 where
    pub shown :
        (bad : Bool) × (get_tx_height other r.0 ≡ some (c.height, c.pending, bad))
        × ((c.height ≡ 0) × (c.confirms ≡ 0) × (c.bad ≡ bad)
            ⊎ (0 < c.height) × (r.1 ≡ none) × (c.confirms ≡ 0) × (c.bad ≡ true)
            ⊎ (0 < c.height)
              × ((n : ℕ) × (r.1 ≡ some n)
                  × (c.bad ≡ false)
                  × (c.confirms ≡ n % 2 ^ 64 - c.height)
                  × ((c.confirms < blocks) ⊎ (n % 2 ^ 64 < c.height))))

  -- No round of the `count` showed the transaction like that, and the results are what the last one
  -- left, or those before the first, if there was none.
  pub record IsUnconfirmed (rounds : ℕ → TxReply × Option ℕ) (count blocks : ℕ)
      (before c : Confirmed other) : Type 0 where
    pub never : (i : ℕ) (d : Confirmed other) → i < count → IsConfirmed blocks (rounds i) d → ⊥
    pub last : (count ≡ 0) × (c ≡ before) ⊎ (i : ℕ) × (suc i ≡ count) × IsLeft blocks (rounds i) c

  deep-IsConfirmed :
      (blocks : ℕ) (tx : TxReply) (latest : Option ℕ) (h : ℕ) (pending bad : Bool)
      (c : Confirmed other)
      → get_tx_height other tx ≡ some (h, pending, bad)
      → (h ≡ 0) ⊎ (pending ≡ false) × (bad ≡ false)
      → check_depth other blocks h pending bad (latest_height latest) ≡ (c, true)
      → IsConfirmed blocks (tx, latest) c
  unfolding check_depth latest_height
  deep-IsConfirmed blocks tx none h pending bad c t v e = record {
    mined = ground (arith, t);
    positive = ground arith;
    not_pending = ground arith;
    no_error = ground arith;
    deep = ground arith;
  }
  deep-IsConfirmed blocks tx (some n) h pending bad c t v e = record {
    mined = ground (arith, t);
    positive = ground arith;
    not_pending = ground arith;
    no_error = ground arith;
    deep =
        let depth : (blocks ≡ 0) × (c.confirms ≡ 0)
            ⊎ (c.height + c.confirms ≡ n % 2 ^ 64) × (blocks ≤ c.confirms) =
          ground arith in
        elim depth [ inl now ↦ inl now | inr (sum, enough) ↦ inr (n, refl, sum, enough) ];
  }

  -- A transaction with a height is not pending and comes without an error.
  get_tx_height-cases :
      (tx : TxReply) (h : ℕ) (pending bad : Bool)
      → get_tx_height other tx ≡ some (h, pending, bad)
      → (h ≡ 0) ⊎ (pending ≡ false) × (bad ≡ false)
  unfolding get_tx_height
  get_tx_height-cases unreachable h pending bad e = ground arith
  get_tx_height-cases unknown h pending bad e = ground arith
  get_tx_height-cases (found none) h pending bad e = ground arith
  get_tx_height-cases (found (some [])) h pending bad e = absurd (ground arith)
  get_tx_height-cases (found (some (b ∷ []))) h pending bad e = absurd (ground arith)
  get_tx_height-cases (found (some (b ∷ x ∷ ds))) h pending bad e = ground arith

  round-found :
      (blocks : ℕ) (tx : TxReply) (latest : Option ℕ) (h : ℕ) (pending bad : Bool)
      → get_tx_height other tx ≡ some (h, pending, bad)
      → round other blocks (tx, latest)
        ≡ some (check_depth other blocks h pending bad (latest_height latest))
  unfolding round
  round-found blocks tx latest h pending bad t = ground (arith, t)

  round-IsConfirmed :
      (blocks : ℕ) (r : TxReply × Option ℕ) (c : Confirmed other)
      → round other blocks r ≡ some (c, true)
      → IsConfirmed blocks r c
  unfolding round
  round-IsConfirmed blocks (tx, latest) c e = elim (Option-cases (get_tx_height other tx)) [
    | inl panic ↦ absurd (ground (arith, panic))
    | inr ((h, pending, bad), t) ↦
        deep-IsConfirmed blocks tx latest h pending bad c t (get_tx_height-cases tx h pending bad t)
          (some-injective _ _ (sym (round-found blocks tx latest h pending bad t) ∙ e))
  ]

  check_depth-IsLeft :
      (blocks : ℕ) (tx : TxReply) (latest : Option ℕ) (h : ℕ) (pending bad : Bool)
      (c : Confirmed other)
      → get_tx_height other tx ≡ some (h, pending, bad)
      → check_depth other blocks h pending bad (latest_height latest) ≡ (c, false)
      → IsLeft blocks (tx, latest) c
  unfolding check_depth latest_height
  check_depth-IsLeft blocks tx none h pending bad c t e = record {
    shown = (bad, ground (arith, t), ground arith);
  }
  check_depth-IsLeft blocks tx (some n) h pending bad c t e = record {
    shown = (
      bad,
      ground (arith, t),
      let left : (c.height ≡ 0) × (c.confirms ≡ 0) × (c.bad ≡ bad)
              ⊎ (0 < c.height)
                × (c.bad ≡ false)
                × (c.confirms ≡ n % 2 ^ 64 - c.height)
                × ((c.confirms < blocks) ⊎ (n % 2 ^ 64 < c.height)) =
            ground arith in
          elim left [
            | inl none_yet ↦ inl none_yet
            | inr (some_height, ok, depth, less) ↦
                inr (inr (some_height, (n, refl, ok, depth, less)))
          ],
    );
  }

  round-IsLeft :
      (blocks : ℕ) (r : TxReply × Option ℕ) (c : Confirmed other)
      → round other blocks r ≡ some (c, false)
      → IsLeft blocks r c
  unfolding round
  round-IsLeft blocks (tx, latest) c e = elim (Option-cases (get_tx_height other tx)) [
    | inl panic ↦ absurd (ground (arith, panic))
    | inr ((h, pending, bad), t) ↦
        check_depth-IsLeft blocks tx latest h pending bad c t
          (some-injective _ _ (sym (round-found blocks tx latest h pending bad t) ∙ e))
  ]

  deep-stops :
      (blocks h : ℕ) (latest : Option ℕ) (d : Confirmed other)
      → 0 < h
      → (blocks ≡ 0)
        ⊎ ((n : ℕ) × (latest ≡ some n) × (h + d.confirms ≡ n % 2 ^ 64) × (blocks ≤ d.confirms))
      → (check_depth other blocks h false false (latest_height latest)).1 ≡ true
  unfolding check_depth latest_height
  deep-stops blocks h none d pos (inl z) = ground (arith, z, pos)
  deep-stops blocks h (some m) d pos (inl z) = ground (arith, z, pos)
  deep-stops blocks h none d pos (inr (n, at, sum, enough)) = absurd cc
  deep-stops blocks h (some m) d pos (inr (n, at, sum, enough)) =
      let same : m ≡ n = some-injective _ _ at in
      let sum' : h + d.confirms ≡ m % 2 ^ 64 = sum ∙ ap (λ k. k % 2 ^ 64) (sym same) in
      ground (arith, pos, sum', enough)

  -- A round that shows the transaction like that settles the call.
  IsConfirmed-round :
      (blocks : ℕ) (r : TxReply × Option ℕ) (d f : Confirmed other)
      → IsConfirmed blocks r d
      → round other blocks r ≢ some (f, false)
  IsConfirmed-round blocks (tx, latest) d f w e =
      let stops =
        deep-stops blocks d.height latest d w.positive
          (elim w.deep [ inl (z, _) ↦ inl z | inr at ↦ inr at ]) in
      let goes : check_depth other blocks d.height false false (latest_height latest) ≡ (f, false) =
        some-injective _ _ (sym (round-found blocks tx latest d.height false false w.mined) ∙ e) in
      cc (sym stops ∙ ap (λ (p : Confirmed other × Bool). p.1) goes)

  never-suc :
      (count : ℕ) (rounds : ℕ → TxReply × Option ℕ) (blocks : ℕ) (d : Confirmed other)
      → round other blocks (rounds 0) ≡ some (d, false)
      → ((i : ℕ) (f : Confirmed other) → i < count → IsConfirmed blocks (rounds (suc i)) f → ⊥)
      → (i : ℕ) (f : Confirmed other) → i < suc count
      → IsConfirmed blocks (rounds i) f
      → ⊥
  never-suc count rounds blocks d r never zero f l w = IsConfirmed-round blocks (rounds 0) f d w r
  never-suc count rounds blocks d r never (suc i) f l w = never i f (omega (arith, l)) w

  -- One round more before a call that ends unconfirmed.
  IsUnconfirmed-suc :
      (count : ℕ) (rounds : ℕ → TxReply × Option ℕ) (blocks : ℕ) (before d c : Confirmed other)
      → round other blocks (rounds 0) ≡ some (d, false)
      → IsUnconfirmed (λ i. rounds (suc i)) count blocks d c
      → IsUnconfirmed rounds (suc count) blocks before c
  IsUnconfirmed-suc count rounds blocks before d c r u = record {
    never = never-suc count rounds blocks d r u.never;
    last = inr (elim u.last [
      | inl (z, same) ↦ (
        0,
        ap suc (sym z),
        subst (IsLeft blocks (rounds 0)) (sym same) (round-IsLeft blocks (rounds 0) d r),
      )
      | inr (i, p, q) ↦ (suc i, ap suc p, q)
    ]);
  }

  confirm_from_lem :
      (count : ℕ) (rounds : ℕ → TxReply × Option ℕ) (blocks : ℕ) (before c : Confirmed other)
      → confirm_from other count rounds blocks before ≡ some c
      → ((i : ℕ) × (i < count) × IsConfirmed blocks (rounds i) c)
        ⊎ IsUnconfirmed rounds count blocks before c
  unfolding confirm_from
  confirm_from_lem zero rounds blocks before c e =
      inr (record { never = λ i d h w. omega (arith, h); last = inl (refl, ground arith) })
  confirm_from_lem (suc count) rounds blocks before c e =
      elim (Option-cases (round other blocks (rounds 0))) [
        | inl panic ↦ absurd (ground (arith, panic))
        | inr ((d, true), r) ↦
            let same : d ≡ c = ground (arith, r) in
            inl (
              0,
              omega arith,
              round-IsConfirmed blocks (rounds 0) c (r ∙ ap (λ f. some (f, true)) same),
            )
        | inr ((d, false), r) ↦
            let rest : confirm_from other count (λ i. rounds (suc i)) blocks d ≡ some c =
              ground (arith, r) in
            elim (confirm_from_lem count (λ i. rounds (suc i)) blocks d c rest) [
              | inl (i, l, v) ↦ inl (suc i, omega (arith, l), v)
              | inr u ↦ inr (IsUnconfirmed-suc count rounds blocks before d c r u)
            ]
      ]

  abbrev pub none_yet : Confirmed other
  none_yet = record { height = 0; confirms = 0; pending = false; bad = false }

  -- If `Confirm` returns without a panic, either some round among the `count` showed the transaction
  -- at the positive height returned, without an error, and, unless no blocks are asked for, at least
  -- `blocks` below the latest block, by the number `confirms` returned; or no round did, and the
  -- results are what the last round left: what it showed of the transaction and, if that has a height,
  -- the depth below the latest block and the error of asking for it.
  pub confirm-IsConfirmed :
      (rounds : ℕ → TxReply × Option ℕ) (blocks count : ℕ) (c : Confirmed other)
      → confirm other rounds blocks count ≡ some c
      → ((i : ℕ) × (i < count) × IsConfirmed blocks (rounds i) c)
        ⊎ IsUnconfirmed rounds count blocks none_yet c
  unfolding confirm
  confirm-IsConfirmed rounds blocks count c e = confirm_from_lem count rounds blocks _ c e
