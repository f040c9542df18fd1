-- ===== src/Util/Retry.antt =====
-- `Retry` of `util/util.go`. A round is what the function returns when it is called, none for no
-- error, and whether the context is done before the interval has passed. `E` is the type of errors.
use bridge_common.Prelude.{
  ℕ, ◌+◌, ◌≤◌, ◌<◌, ◌≡◌, ◌∙◌, ◌⊎◌, inr, refl, Bool, true, false, ◌&&◌, List, [], ◌∷◌, ◌++◌, Option,
  none, some, length, All, if◌then◌else◌, ltb, arith,
}

abbrev exhausted : ℕ → ℕ → Bool
exhausted count c = ltb 0 count && ltb count c

module _ {E : Type 0} where
  -- The result is the error that `Retry` returns, and the rounds that are left; `none` means that it
  -- has not returned when the rounds end.
  retry_from :
      ℕ → ℕ → Option E → List (Option E × Bool) → Option (Option E × List (Option E × Bool))
  retry_from count c err [] = if exhausted count c then some (err, []) else none
  retry_from count c err ((result, done) ∷ rounds) =
      let c' = if ltb 0 count then c + 1 else c in
      let again = retry_from count c' result rounds in
      if exhausted count c then some (err, (result, done) ∷ rounds) else elim result [
        | none ↦ some (none, rounds)
        | some e ↦ if done then some (some e, rounds) else again
      ]

  unfoldable pub retry : ℕ → List (Option E × Bool) → Option (Option E × List (Option E × Bool))
  unfolding retry_from
  retry count = retry_from count 0 none

  -- A round after which `Retry` tries again, if it may.
  abbrev pub Fails : Option E × Bool → Type 0
  Fails (none, done) = ⊥
  Fails (some e, done) = done ≡ false

  last_error : Option E → List (Option E × Bool) → Option E
  last_error e [] = e
  last_error e ((result, done) ∷ rounds) = last_error result rounds

  retry_from-failed :
      (count c : ℕ) (err : Option E) (before rest : List (Option E × Bool))
      → All Fails before
      → (count ≡ 0) ⊎ (c + length before ≤ count + 1)
      → (c' : ℕ) × (retry_from count c err (before ++ rest)
          ≡ retry_from count c' (last_error err before) rest)
        × ((count ≡ 0) ⊎ (c' ≡ c + length before))
  unfolding retry_from last_error
  retry_from-failed count c err [] rest h few = (c, refl, inr (omega arith))
  retry_from-failed count c err ((none, done) ∷ before) rest h few = absurd h.0
  retry_from-failed count c err ((some e, done) ∷ before) rest h few =
      let (c', same, at) =
        retry_from-failed count (if ltb 0 count then c + 1 else c) (some e) before rest h.1
          (ground (arith, few)) in
      (c', ground (arith, same, h.0, few), ground (arith, at, few))

  stop :
      (count c : ℕ) (err : Option E) (rest : List (Option E × Bool))
      → 0 < count
      → count < c
      → retry_from count c err rest ≡ some (err, rest)
  unfolding retry_from
  stop count c err [] pos over = ground arith
  stop count c err ((result, done) ∷ rest) pos over = ground arith

  ends :
      (count c : ℕ) (err result : Option E) (done : Bool) (rest : List (Option E × Bool))
      → (count ≡ 0) ⊎ (c ≤ count)
      → (result ≡ none) ⊎ (done ≡ true)
      → retry_from count c err ((result, done) ∷ rest) ≡ some (result, rest)
  unfolding retry_from
  ends count c err none done rest few last = ground (arith, few)
  ends count c err (some e) done rest few last = ground (arith, few, last)

  goes_on :
      (count c : ℕ) (err : Option E) (e : E) (rest : List (Option E × Bool))
      → 0 < count
      → c ≤ count
      → retry_from count c err ((some e, false) ∷ rest) ≡ retry_from count (c + 1) (some e) rest
  unfolding retry_from
  goes_on count c err e rest pos few = ground arith

  -- `Retry` returns right after the first call that succeeds or finds the context done, with what
  -- that call returned, if no more than `count` calls failed before it, or `count` is 0.
  pub retry-ends :
      (count : ℕ) (before : List (Option E × Bool)) (result : Option E) (done : Bool)
      (rest : List (Option E × Bool))
      → All Fails before
      → (count ≡ 0) ⊎ (length before ≤ count)
      → (result ≡ none) ⊎ (done ≡ true)
      → retry count (before ++ ((result, done) ∷ rest)) ≡ some (result, rest)
  unfolding retry
  retry-ends count before result done rest h few last =
      let (c', same, at) =
        retry_from-failed count 0 none before ((result, done) ∷ rest) h (ground (arith, few)) in
      same ∙ ends count c' (last_error none before) result done rest (ground (arith, at, few)) last

  -- With a positive `count` it gives up after `count + 1` calls that fail, one more than `count`, and
  -- returns the error of the last of them.
  pub retry-gives_up :
      (count : ℕ) (before : List (Option E × Bool)) (e : E) (rest : List (Option E × Bool))
      → 0 < count
      → All Fails before
      → length before ≡ count
      → retry count (before ++ ((some e, false) ∷ rest)) ≡ some (some e, rest)
  unfolding retry
  retry-gives_up count before e rest pos h size =
      let (c', same, at) =
        retry_from-failed count 0 none before ((some e, false) ∷ rest) h (omega arith) in
      same
      ∙ goes_on count c' (last_error none before) e rest pos (omega (arith, at))
      ∙ stop count (c' + 1) (some e) rest pos (omega (arith, at))
