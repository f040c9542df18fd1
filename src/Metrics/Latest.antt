-- ===== src/Metrics/Latest.antt =====
-- Which values the map of `metrics/metrics.go` holds.
use bridge_common.Prelude.{
  ◌≡◌, refl, ap, ◌∙◌, Bool, true, false, List, [], ◌∷◌, ◌++◌, map, Option, some, if◌then◌else◌,
  arith,
}
use bridge_common.Prelude.Text.{Text, text_eq, lookup, lookup-insert}
use bridge_common.Metrics.{Metric, full_key, absorb, run}

-- The value recorded last for a key, or else the one before.
unfoldable pub latest : Text → List Metric → Option Text → Option Text
latest key [] before = before
latest key (m ∷ ms) before = latest key ms (if text_eq m.key key then some m.value else before)

text_eq-prefix : (p x y : Text) → text_eq (p ++ x) (p ++ y) ≡ text_eq x y
unfolding text_eq
text_eq-prefix [] x y = refl
text_eq-prefix (c ∷ p) x y = ground (arith, text_eq-prefix p x y)

text_eq-full_key : (p j k : Text) → text_eq (full_key p j) (full_key p k) ≡ text_eq j k
unfolding text_eq
text_eq-full_key p j k = ground (arith, text_eq-prefix p (b'.' ∷ j) (b'.' ∷ k))

lookup-absorb :
    (p key : Text) (m : Metric) (state : List (Text × Text))
    → lookup (full_key p key) (absorb p m state)
      ≡ (if text_eq m.key key then some m.value else lookup (full_key p key) state)
unfolding absorb
lookup-absorb p key m state = ground (
  arith,
  lookup-insert (full_key p m.key) (full_key p key) m.value state,
  text_eq-full_key p m.key key,
)

abbrev pub metrics_of : List (Metric × Bool) → List Metric
metrics_of ms = map (λ e. e.0) ms

lookup-run :
    (p key : Text) (ms : List (Metric × Bool)) (state : List (Text × Text))
    → lookup (full_key p key) (run p ms state).1
      ≡ latest key (metrics_of ms) (lookup (full_key p key) state)
unfolding run latest
lookup-run p key [] state = refl
lookup-run p key ((m, fired) ∷ ms) state =
    lookup-run p key ms (absorb p m state)
    ∙ ap (latest key (metrics_of ms)) (lookup-absorb p key m state)

-- The maps published at a firing of the ticker stand between those published before and after it.
run-fired :
    (p : Text) (before : List (Metric × Bool)) (m : Metric) (after : List (Metric × Bool))
    (state : List (Text × Text))
    → let state' = (run p (before ++ ((m, true) ∷ [])) state).1 in
      (run p (before ++ ((m, true) ∷ after)) state).0
      ≡ (run p before state).0 ++ (state' ∷ (run p after state').0)
unfolding run
run-fired p [] m after state = refl
run-fired p ((n, true) ∷ before) m after state =
    ap (λ us. absorb p n state ∷ us) (run-fired p before m after (absorb p n state))
run-fired p ((n, false) ∷ before) m after state = run-fired p before m after (absorb p n state)

-- Where the ticker fires after a metric, the map published then holds, under each key with the prefix,
-- the value recorded last for that key among the metrics taken so far, or else the one of the map at
-- the start; the maps published before and after it are those of the loop before and after it.
pub run-latest :
    (p key : Text) (before : List (Metric × Bool)) (m : Metric) (after : List (Metric × Bool))
    (state : List (Text × Text))
    → let state' = (run p (before ++ ((m, true) ∷ [])) state).1 in
      ((run p (before ++ ((m, true) ∷ after)) state).0
        ≡ (run p before state).0 ++ (state' ∷ (run p after state').0))
      × (lookup (full_key p key) state'
          ≡ latest key (metrics_of (before ++ ((m, true) ∷ []))) (lookup (full_key p key) state))
run-latest p key before m after state =
    (run-fired p before m after state, lookup-run p key (before ++ ((m, true) ∷ [])) state)
