-- ===== src/Chains/Eth/Confirms/Returns.antt =====
-- `Confirm` of `chains/eth/eth.go` returns, unless the node sends a text that it cannot slice.
use bridge_common.Prelude.{
  ℕ, zero, suc, ◌<◌, ◌≡◌, refl, ◌⊎◌, inl, inr, Bool, Bool-cases, [], ◌∷◌, Option, none, some, arith,
}
use bridge_common.Prelude.Text.{Text}
use bridge_common.Chains.Eth.{
  TxReply, unreachable, unknown, found, get_tx_height, latest_height, Confirmed, check_depth, round,
  confirm_from, confirm,
}
use bridge_common.Chains.Eth.Confirms.{IsConfirmed, IsUnconfirmed, none_yet, confirm-IsConfirmed}

module _ (other : Text → ℕ) where
  -- The text of a block number has the two bytes that the code slices off.
  abbrev pub Slices : TxReply → Type 0
  Slices unreachable = Unit
  Slices unknown = Unit
  Slices (found none) = Unit
  Slices (found (some [])) = ⊥
  Slices (found (some (b ∷ []))) = ⊥
  Slices (found (some (b ∷ x ∷ digits))) = Unit

  get_tx_height-Slices :
      (tx : TxReply) → Slices tx → (r : ℕ × Bool × Bool) × (get_tx_height other tx ≡ some r)
  unfolding get_tx_height
  get_tx_height-Slices unreachable h = (_, refl)
  get_tx_height-Slices unknown h = (_, refl)
  get_tx_height-Slices (found none) h = (_, refl)
  get_tx_height-Slices (found (some [])) h = absurd h
  get_tx_height-Slices (found (some (b ∷ []))) h = absurd h
  get_tx_height-Slices (found (some (b ∷ x ∷ digits))) h = (_, refl)

  round-Slices :
      (blocks : ℕ) (r : TxReply × Option ℕ)
      → Slices r.0
      → (d : Confirmed other × Bool) × (round other blocks r ≡ some d)
  unfolding round
  round-Slices blocks (tx, latest) h =
      let ((height, pending, bad), e) = get_tx_height-Slices tx h in
      (check_depth other blocks height pending bad (latest_height latest), rw (e, round) refl)

  confirm_from-Slices :
      (count : ℕ) (rounds : ℕ → TxReply × Option ℕ) (blocks : ℕ) (before : Confirmed other)
      → ((i : ℕ) → i < count → Slices (rounds i).0)
      → (c : Confirmed other) × (confirm_from other count rounds blocks before ≡ some c)
  unfolding confirm_from
  confirm_from-Slices zero rounds blocks before h = (before, refl)
  confirm_from-Slices (suc count) rounds blocks before h =
      let ((d, stop), r) = round-Slices blocks (rounds 0) (h 0 (omega arith)) in
      elim (Bool-cases stop) [
        | inl yes_stop ↦ (d, ground (arith, r, yes_stop))
        | inr goes_on ↦
            let (c, e) =
              confirm_from-Slices count (λ i. rounds (suc i)) blocks d
                (λ i l. h (suc i) (omega (arith, l))) in
            (c, ground (arith, r, goes_on, e))
      ]

  -- When the node sends no block number of less than two bytes, `Confirm` returns, and either some
  -- round among the `count` showed the transaction at the positive height returned, without an error,
  -- and, unless no blocks are asked for, at least `blocks` below the latest block, by the number
  -- `confirms` returned; or no round did, and the results are what the last round left: what it showed of the
  -- transaction and, if that has a height, the depth below the latest block and the error of asking
  -- for it.
  pub confirm-returns :
      (rounds : ℕ → TxReply × Option ℕ) (blocks count : ℕ)
      → ((i : ℕ) → i < count → Slices (rounds i).0)
      → (c : Confirmed other) × (confirm other rounds blocks count ≡ some c)
        × (((i : ℕ) × (i < count) × IsConfirmed other blocks (rounds i) c)
            ⊎ IsUnconfirmed other rounds count blocks (none_yet other) c)
  unfolding confirm
  confirm-returns rounds blocks count h =
      let (c, e) = confirm_from-Slices count rounds blocks _ h in
      (c, e, confirm-IsConfirmed other rounds blocks count c e)
