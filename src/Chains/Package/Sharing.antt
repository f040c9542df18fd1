-- ===== src/Chains/Package/Sharing.antt =====
-- Which options share a singleton in `WithOptions` of the packages under `chains`, by the keys of
-- `chains/chain.go`.
use bridge_common.Prelude.{ℕ, ◌≡◌, ◌≢◌, refl, Bool, false, List, Option, append_cancel, arith}
use bridge_common.Prelude.Text.{Text, codes, decimal, join, lookup-insert_ne}
use bridge_common.Prelude.Text.Decimal.{decimal_injective, decimal-HasNoColon, colon_inj}
use bridge_common.Util.Singleton.{store_key, single, single_all, single_again}
use bridge_common.Chains.Sdk.{Answer}
use bridge_common.Chains.Package.{
  Options, PackageSdk, PackageConfig, Instances, key_of, options_key, create, request_key,
  with_options,
}

-- Keys are equal only for the same chain and the same URLs joined.
pub key_of-inj :
    (c d : ℕ) (xs ys : List Text)
    → key_of c xs ≡ key_of d ys
    → (c ≡ d) × (join xs (codes ":") ≡ join ys (codes ":"))
key_of-inj c d xs ys e =
    let (chain, urls) =
      colon_inj (decimal c) (decimal d) (join xs (codes ":")) (join ys (codes ":"))
        (decimal-HasNoColon c) (decimal-HasNoColon d) (append_cancel (codes "SDK:") e) in
    (decimal_injective c d chain, urls)

module _ {C : Type 0} (config : PackageConfig C) where
  request_key-inj :
      (o p : Options)
      → request_key config o ≡ request_key config p
      → (o.chain_id ≡ p.chain_id) × (join o.nodes (codes ":") ≡ join p.nodes (codes ":"))
  unfolding request_key options_key store_key
  request_key-inj o p e = key_of-inj o.chain_id p.chain_id o.nodes p.nodes (
      append_cancel config.key_prefix
        (append_cancel (codes ":") (append_cancel config.type_name e)))

  request_key-same :
      (o p : Options)
      → o.chain_id ≡ p.chain_id
      → o.nodes ≡ p.nodes
      → request_key config o ≡ request_key config p
  unfolding request_key options_key
  request_key-same o p e f = rw (e, f) refl

  -- The interval and the gap are not part of the key: once a call of `WithOptions` has succeeded, a
  -- later one for the same chain and URLs returns the same SDK, with the interval and the gap of the
  -- first, whatever interval and gap it asks for, whatever is asked for in between, and whatever the
  -- nodes answer then.
  pub with_options_shared :
      (answer later : ℕ → Answer) (o p : Options) (state state' : Instances C)
      (s : Option (PackageSdk C)) (calls : List (Text × Option (PackageSdk C) × Bool))
      → o.chain_id ≡ p.chain_id
      → o.nodes ≡ p.nodes
      → with_options config answer o state ≡ (s, false, state')
      → let state'' = single_all calls state' in
        with_options config later p state'' ≡ (s, false, state'')
  unfolding with_options
  with_options_shared answer later o p state state' s calls chain nodes e = ground (
    arith,
    request_key-same o p chain nodes,
    single_again (request_key config o) (create config answer o) (create config later p) calls
        state,
  )

  single-other :
      {V : Type 0} (j k : Text) (made later : V × Bool) (state : List (Text × V))
      → k ≢ j
      → ((single j later (single k made state).2).0 ≡ (single j later state).0)
        × ((single j later (single k made state).2).1 ≡ (single j later state).1)
  unfolding single
  single-other j k (ins, bad) (ins', bad') state ne =
      ground (arith, lookup-insert_ne k j ins state ne)

  -- Chains do not share SDKs: what `WithOptions` returns for a chain is the same whether or not an SDK
  -- of another chain was asked for before.
  pub with_options_other :
      (answer later : ℕ → Answer) (o p : Options) (state : Instances C)
      → o.chain_id ≢ p.chain_id
      → let (s, bad, state') = with_options config answer o state in
        ((with_options config later p state').0 ≡ (with_options config later p state).0)
        × ((with_options config later p state').1 ≡ (with_options config later p state).1)
  unfolding with_options
  with_options_other answer later o p state other =
      let ne : request_key config o ≢ request_key config p = λ e. other (request_key-inj o p e).0 in
      let (ins, bad) =
        single-other (request_key config p) (request_key config o) (create config answer o)
          (create config later p) state ne in
      ground (arith, ins, bad)
