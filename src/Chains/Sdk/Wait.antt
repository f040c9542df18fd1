-- ===== src/Chains/Sdk/Wait.antt =====
-- `WaitTillHeight` of `chains/chain.go`. A round is what `GetLatestHeight` answers, and whether the
-- context is done before the interval has passed; `none` means that the rounds given run out while
-- the code still waits.
use bridge_common.Prelude.{
  ℕ, ◌≡◌, Bool, true, false, ◌||◌, List, [], ◌∷◌, ◌++◌, Option, none, some, All, if◌then◌else◌, leb,
  arith,
}
use bridge_common.Chains.Sdk.{Answer}

-- The first result of `GetLatestHeight`, which is returned also beside an error.
abbrev pub value : Answer → ℕ
value (Answer.height h) = h
value (Answer.failed v) = v

abbrev pub reaches : ℕ → Answer → Bool
reaches target (Answer.height h) = leb target h
reaches target (Answer.failed v) = false

unfoldable pub wait_till_height : ℕ → List (Answer × Bool) → Option (ℕ × Bool)
wait_till_height target [] = none
wait_till_height target ((answer, done) ∷ rounds) =
    if reaches target answer
    then some (value answer, true)
    else if done
    then some (value answer, false)
    else wait_till_height target rounds

-- A round that ends the wait.
abbrev pub ends : ℕ → Answer × Bool → Bool
ends target (answer, done) = reaches target answer || done

-- The wait goes on past every round that neither reaches the height nor finds the context done, and
-- ends in the first other round, with that round's height and whether it reaches the target.
pub wait_till_height_lem :
    (target : ℕ) (before : List (Answer × Bool)) (answer : Answer) (done : Bool)
    (after : List (Answer × Bool))
    → All (λ r. ends target r ≡ false) before
    → ends target (answer, done) ≡ true
    → wait_till_height target (before ++ ((answer, done) ∷ after))
      ≡ some (value answer, reaches target answer)
unfolding wait_till_height
wait_till_height_lem target [] answer done after h e = ground arith
wait_till_height_lem target ((a, d) ∷ before) answer done after h e =
    ground (arith, wait_till_height_lem target before answer done after h.1 e)
