-- ===== src/Util/Singleton.antt =====
-- `util/single.go`: the store of singleton instances. `V` is the type of the instances; `Create`
-- belongs to the caller, so its result is an argument: an instance, and whether it failed.
use bridge_common.Prelude.{
  ◌≡◌, List, [], ◌∷◌, ◌++◌, Bool, true, false, none, some, if◌then◌else◌, arith,
}
use bridge_common.Prelude.Text.{
  Text, codes, text_eq_iff, lookup, insert, text_eq, lookup-insert, lookup-insert_self,
}

-- `reflect.TypeOf(o).String() + ":" + o.Key()`
unfoldable pub store_key : Text → Text → Text
store_key type_name key = type_name ++ (codes ":" ++ key)

module _ {V : Type 0} where
  -- `SingletonStore.Single`: the instance, whether an error is returned, and the store.
  unfoldable pub single : Text → V × Bool → List (Text × V) → V × Bool × List (Text × V)
  single key (ins, bad) state = elim (lookup key state) [
    | some old ↦ (old, false, state)
    | none ↦ (ins, bad, insert key ins state)
  ]

  -- The store after the calls of other goroutines, one after another under the lock.
  unfoldable pub single_all : List (Text × V × Bool) → List (Text × V) → List (Text × V)
  unfolding single
  single_all [] state = state
  single_all ((key, ins, bad) ∷ calls) state = single_all calls (single key (ins, bad) state).2

  lookup-single :
      (j key : Text) (made : V × Bool) (state : List (Text × V)) {old : V}
      → lookup j state ≡ some old
      → lookup j (single key made state).2 ≡ some old
  unfolding single
  lookup-single j key (ins, bad) state h =
      ground (arith, lookup-insert key j ins state, text_eq_iff key j)

  lookup-single_all :
      (j : Text) (calls : List (Text × V × Bool)) (state : List (Text × V)) {old : V}
      → lookup j state ≡ some old
      → lookup j (single_all calls state) ≡ some old
  unfolding single_all
  lookup-single_all j [] state h = h
  lookup-single_all j ((key, ins, bad) ∷ calls) state h =
      lookup-single_all j calls (single key (ins, bad) state).2
        (lookup-single j key (ins, bad) state h)

  single-stored :
      (key : Text) (made : V × Bool) (state : List (Text × V))
      → lookup key (single key made state).2 ≡ some (single key made state).0
  unfolding single
  single-stored key (ins, bad) state = ground (arith, lookup-insert_self key ins state)

  single-found :
      (key : Text) (made : V × Bool) (state : List (Text × V)) (old : V)
      → lookup key state ≡ some old
      → single key made state ≡ (old, false, state)
  unfolding single
  single-found key (ins, bad) state old h = ground arith

  -- The store afterwards: what is returned stands under the key, and the rest is as it was.
  pub lookup-single_iff :
      (j key : Text) (made : V × Bool) (state : List (Text × V))
      → lookup j (single key made state).2
        ≡ (if text_eq key j then some (single key made state).0 else lookup j state)
  unfolding single
  lookup-single_iff j key (ins, bad) state =
      ground (arith, lookup-insert key j ins state, text_eq_iff key j)

  -- Whatever calls come between, every later call for a key returns the instance that the first call
  -- returned, without an error and without a change of the store, and this also when the first
  -- creation failed.
  pub single_again :
      (key : Text) (made later : V × Bool) (calls : List (Text × V × Bool))
      (state : List (Text × V))
      → let first = single key made state in
        let state' = single_all calls first.2 in single key later state' ≡ (first.0, false, state')
  single_again key made later calls state =
      single-found key later _ _ (lookup-single_all key calls _ (single-stored key made state))

  -- An error comes from a creation.
  pub single-made :
      (key : Text) (made : V × Bool) (state : List (Text × V))
      → (single key made state).1 ≡ true
      → (single key made state).0 ≡ made.0
  unfolding single
  single-made key (ins, bad) state h = ground arith

  pub single-bad :
      (key : Text) (made : V × Bool) (state : List (Text × V))
      → (single key made state).1 ≡ true
      → made.1 ≡ true
  unfolding single
  single-bad key (ins, bad) state h = ground arith
