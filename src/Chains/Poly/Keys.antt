-- ===== src/Chains/Poly/Keys.antt =====
-- The storage keys that the client of `chains/poly/poly.go` reads: which chain and height a key is for.
use bridge_common.Prelude.{
  append_inj, append_cancel, u32_mod, ℕ, ◌%◌, ◌^◌, ◌<◌, ◌≡◌, sym, ap, ◌∙◌, [], ◌∷◌, ◌++◌,
  append-nil, append_assoc, some, length, arith,
}
use mathlib.Core.List.{flatten}
use bridge_common.Util.Bytes.{Bytes, concat}
use bridge_common.Util.Bytes.Laws.{concat_lem}
use bridge_common.Chains.Storage.{Stored, holds, Store, Native}
use bridge_common.Chains.Poly.{
  get_side_chain_header, get_side_chain_header_index, get_side_chain_msg,
  get_side_chain_epoch_with_height, get_done_tx,
}

-- A store that answers with the key itself.
abbrev pub echo : Store
echo contract key = holds (some key)

-- The serialisers of the native contracts write numbers in eight and in four bytes, and numbers that
-- fit in them differently.
pub record FixedWidth (native : Native) : Type 0 where
  pub wide : (n : ℕ) → length (native.uint64_bytes n) ≡ 8
  pub narrow : (n : ℕ) → length (native.uint32_bytes n) ≡ 4
  pub wide_injective :
      (m n : ℕ) → m < 2 ^ 64 → n < 2 ^ 64 → native.uint64_bytes m ≡ native.uint64_bytes n → m ≡ n
  pub narrow_injective :
      (m n : ℕ) → m < 2 ^ 32 → n < 2 ^ 32 → native.uint32_bytes m ≡ native.uint32_bytes n → m ≡ n

-- What is read for a chain at a height.
pub data Kind : Type 0 where
  header epoch header_index msg : Kind

abbrev pub read : Native → Kind → ℕ → ℕ → Stored
read native header c h = get_side_chain_header native echo c h
read native epoch c h = get_side_chain_epoch_with_height native echo c h
read native header_index c h = get_side_chain_header_index native echo c h
read native msg c h = get_side_chain_msg native echo c h

-- Heights that a key of this kind does not tell apart.
abbrev pub SameHeight : Kind → ℕ → ℕ → Type 0
SameHeight header h k = h ≡ k
SameHeight epoch h k = h ≡ k
SameHeight header_index h k = h % 2 ^ 32 ≡ k % 2 ^ 32
SameHeight msg h k = h % 2 ^ 32 ≡ k % 2 ^ 32

module _ (native : Native) (w : FixedWidth native) where
  -- A chain and what follows it.
  after_chain :
      (prefix us vs : Bytes) (c d : ℕ)
      → c < 2 ^ 64
      → d < 2 ^ 64
      → prefix ++ (native.uint64_bytes c ++ us) ≡ prefix ++ (native.uint64_bytes d ++ vs)
      → (c ≡ d) × (us ≡ vs)
  after_chain prefix us vs c d hc hd e =
      let (chain, rest) =
        append_inj (native.uint64_bytes c) (native.uint64_bytes d) us vs (w.wide c ∙ sym (w.wide d))
          (append_cancel prefix e) in
      (w.wide_injective c d hc hd chain, rest)

  short_height :
      (h k : ℕ)
      → native.uint32_bytes (h % u32_mod) ≡ native.uint32_bytes (k % u32_mod)
      → h % 2 ^ 32 ≡ k % 2 ^ 32
  short_height h k e = w.narrow_injective (h % 2 ^ 32) (k % 2 ^ 32) (omega arith) (omega arith) e

  key_of : {k l : Bytes} → Stored.holds (some k) ≡ holds (some l) → k ≡ l
  key_of e = cc

  three :
      (xs ys zs us vs ts : Bytes)
      → concat (xs ∷ ys ∷ zs ∷ []) ≡ concat (us ∷ vs ∷ ts ∷ [])
      → xs ++ (ys ++ zs) ≡ us ++ (vs ++ ts)
  unfolding flatten
  three xs ys zs us vs ts e =
      let plain : (ps qs rs : Bytes) → concat (ps ∷ qs ∷ rs ∷ []) ≡ ps ++ (qs ++ rs) =
        λ ps qs rs. concat_lem (ps ∷ qs ∷ rs ∷ []) ∙ ap (λ r. ps ++ (qs ++ r)) (append-nil rs) in
      sym (plain xs ys zs) ∙ e ∙ plain us vs ts

  -- Reads for a transaction are of the same key only for the same chain and transaction.
  pub get_done_tx-inj :
      (c d : ℕ) (id id' : Bytes)
      → c < 2 ^ 64
      → d < 2 ^ 64
      → get_done_tx native echo c id ≡ get_done_tx native echo d id'
      → (c ≡ d) × (id ≡ id')
  unfolding get_done_tx
  get_done_tx-inj c d id id' hc hd e =
      after_chain native.done_tx id id' c d hc hd
        (sym (append_assoc native.done_tx _ _) ∙ key_of e ∙ append_assoc native.done_tx _ _)

  -- Reads of a header or of an epoch are of the same key only for the same chain and height, reads of a
  -- header's index or of a message only for the same chain and heights that agree in their low 32 bits.
  -- Chains and heights are `uint64` values, and the serialisers write numbers in a fixed width.
  pub read-inj :
      (kind : Kind) (c d h k : ℕ)
      → c < 2 ^ 64
      → d < 2 ^ 64
      → h < 2 ^ 64
      → k < 2 ^ 64
      → read native kind c h ≡ read native kind d k
      → (c ≡ d) × SameHeight kind h k
  unfolding get_side_chain_header get_side_chain_epoch_with_height get_side_chain_header_index
      get_side_chain_msg
  read-inj header c d h k hc hd hh hk e =
      let (chain, rest) =
        after_chain native.main_chain (native.uint64_bytes h) (native.uint64_bytes k) c d hc hd (
          sym (append_assoc native.main_chain _ _)
          ∙ key_of e
          ∙ append_assoc native.main_chain _ _) in
      (chain, w.wide_injective h k hh hk rest)
  read-inj epoch c d h k hc hd hh hk e =
      let (chain, rest) =
        after_chain native.epoch_switch (native.uint64_bytes h) (native.uint64_bytes k) c d hc hd
          (three _ _ _ _ _ _ (key_of e)) in
      (chain, w.wide_injective h k hh hk rest)
  read-inj header_index c d h k hc hd hh hk e =
      let (chain, rest) =
        after_chain native.header_index (native.uint32_bytes (h % u32_mod))
          (native.uint32_bytes (k % u32_mod)) c d hc hd
          (sym (append_assoc native.header_index _ _)
            ∙ key_of e
            ∙ append_assoc native.header_index _ _) in
      (chain, short_height h k rest)
  read-inj msg c d h k hc hd hh hk e =
      let (chain, rest) =
        after_chain native.cross_chain_msg (native.uint32_bytes (h % u32_mod))
          (native.uint32_bytes (k % u32_mod)) c d hc hd (three _ _ _ _ _ _ (key_of e)) in
      (chain, short_height h k rest)
