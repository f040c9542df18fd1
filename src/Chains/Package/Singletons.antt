-- ===== src/Chains/Package/Singletons.antt =====
-- `WithOptions`: the SDKs as singletons.
use bridge_common.Prelude.{ℕ, ◌≡◌, Bool, true, false, List, Option, none, arith}
use bridge_common.Prelude.Text.{Text}
use bridge_common.Util.Singleton.{single, single_all, single_again, single-made, single-bad}
use bridge_common.Chains.Sdk.{Answer}
use bridge_common.Chains.Package.{
  Options, PackageSdk, PackageConfig, Instances, create, request_key, with_options,
}

module _ {C : Type 0} (config : PackageConfig C) where
  -- Once a call of `WithOptions` has succeeded, every later one with the same options returns the
  -- same SDK, whatever is asked for in between and whatever the nodes answer then.
  pub with_options_again :
      (answer later : ℕ → Answer) (o : Options) (state state' : Instances C)
      (s : Option (PackageSdk C)) (calls : List (Text × Option (PackageSdk C) × Bool))
      → with_options config answer o state ≡ (s, false, state')
      → let state'' = single_all calls state' in
        with_options config later o state'' ≡ (s, false, state'')
  unfolding with_options
  with_options_again answer later o state state' s calls e = ground (
    arith,
    single_again (request_key config o) (create config answer o) (create config later o) calls
        state,
  )

  create-failed :
      (answer : ℕ → Answer) (o : Options)
      → config.keeps_failed ≡ false
      → (create config answer o).1 ≡ true
      → (create config answer o).0 ≡ none
  unfolding create
  create-failed answer o drops e = ground arith

  create-bad :
      (answer : ℕ → Answer) (o : Options) (state : Instances C)
      → (single (request_key config o) (create config answer o) state).1 ≡ true
      → (create config answer o).1 ≡ true
  create-bad answer o state e = single-bad _ _ state e

  -- A failed creation is kept too. In a package whose `NewSDK` returns nil beside an error, after a
  -- call that fails every later one with the same options returns nil and no error, whatever is
  -- asked for in between and whatever the nodes answer then.
  pub with_options_failed :
      (answer later : ℕ → Answer) (o : Options) (state state' : Instances C)
      (calls : List (Text × Option (PackageSdk C) × Bool))
      → config.keeps_failed ≡ false
      → with_options config answer o state ≡ (none, true, state')
      → let state'' = single_all calls state' in
        with_options config later o state'' ≡ (none, false, state'')
  unfolding with_options
  with_options_failed answer later o state state' calls drops e = ground (
    arith,
    single_again (request_key config o) (create config answer o) (create config later o) calls
        state,
    single-made (request_key config o) (create config answer o) state,
    create-bad answer o state,
    create-failed answer o drops,
  )
