-- ===== src/Chains/Poly/Heights.antt =====
-- Which height `GetSideChainHeight` of `chains/poly/poly.go` reads.
use bridge_common.Prelude.{
  ℕ, ◌<◌, ◌≡◌, ◌≢◌, sym, ap, ◌∙◌, ◌⊎◌, inl, inr, false, [], ◌++◌, some, arith, subst, append-nil,
}
use bridge_common.Chains.Storage.{
  holds, Store, Native, put_le, get_le, space, get_le-put_le, length-put_le,
}
use bridge_common.Chains.Poly.{stored_height, get_side_chain_height}

whole : (width h : ℕ) → h < space width → get_le width (put_le width h) ≡ some h
whole width h l = ap (get_le width) (sym (append-nil (put_le width h))) ∙ get_le-put_le width h [] l

eight : (h : ℕ) → h < space 8 → stored_height (put_le 8 h) ≡ some h
unfolding stored_height
eight h l = rw (length-put_le 8 h) (whole 8 h l)

four : (h : ℕ) → h < space 4 → stored_height (put_le 4 h) ≡ some h
unfolding stored_height
four h l = rw (length-put_le 4 h) (whole 4 h l)

read_back :
    (width h : ℕ)
    → (width ≡ 8) ⊎ (width ≡ 4)
    → h < space width
    → stored_height (put_le width h) ≡ some h
read_back width h (inl p) l =
    subst (λ w. stored_height (put_le w h) ≡ some h) (sym p)
      (eight h (subst (λ w. h < space w) p l))
read_back width h (inr p) l =
    subst (λ w. stored_height (put_le w h) ≡ some h) (sym p) (four h (subst (λ w. h < space w) p l))

module _ (native : Native) (store : Store) where
  -- A height stored for a chain other than NEO in eight bytes, or in four, the least significant
  -- first, under the chain's key, is the height that is returned, without an error.
  pub get_side_chain_height-put_le :
      (neo chain_id width h : ℕ)
      → chain_id ≢ neo
      → (width ≡ 8) ⊎ (width ≡ 4)
      → h < space width
      → store native.header_sync (native.current_header_height ++ put_le 8 chain_id)
        ≡ holds (some (put_le width h))
      → get_side_chain_height native store neo chain_id ≡ some (h, false)
  unfolding get_side_chain_height
  get_side_chain_height-put_le neo chain_id width h other e l stored =
      ground (arith, stored, read_back width h e l)
