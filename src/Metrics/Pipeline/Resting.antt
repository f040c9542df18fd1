-- ===== src/Metrics/Pipeline/Resting.antt =====
-- The loops of `metrics/metrics.go` by themselves, between one call of `Record` and the next.
use bridge_common.Prelude.{
  take_all, ℕ, suc, ◌+◌, ◌*◌, ◌<◌, ◌≡◌, refl, sym, ap, subst, ◌∙◌, ◌⊎◌, inl, inr, List, [], ◌∷◌,
  ◌++◌, none, length, length-append, append-nil, arith, List-cases, Option-cases,
}
use bridge_common.Prelude.Text.{Text}
use bridge_common.Metrics.{Metric, served}
use bridge_common.Metrics.Pipeline.{
  Pipeline, start, Step, records, drops, absorbs, fires, sends, flushes, Run, here, next,
}
use bridge_common.Metrics.Pipeline.Ordered.{
  Ordered, waiting, absorbed, Shows, Shows-append, absorbed-taken, start-Ordered, Run-Ordered_from,
}

-- The channels are empty, and nothing waits to be sent.
pub record IsResting (s : Pipeline) : Type 0 where
  pub no_metrics : s.ch ≡ []
  pub not_pending : s.pending ≡ none
  pub no_updates : s.updates ≡ []

-- What the loops have before them.
abbrev pub work : Pipeline → ℕ
work s = 3 * length s.ch + 2 * length (waiting s.pending) + length s.updates

-- The newest of the text served and those on the way.
abbrev newest : Pipeline → Text
newest s = served (s.updates ++ waiting s.pending) s.current

served-last : (us : List Text) (u c : Text) → served (us ++ (u ∷ [])) c ≡ u
unfolding served
served-last [] u c = refl
served-last (v ∷ us) u c = served-last us u v

module _ (marshal : List (Text × Text) → Text) (prefix : Text) where
  -- A step of one of the loops.
  abbrev pub IsOwn : {s t : Pipeline} → Step marshal prefix s t → Type 0
  IsOwn (records m room) = ⊥
  IsOwn (drops m full) = ⊥
  IsOwn (absorbs at idle) = Unit
  IsOwn (fires at idle) = Unit
  IsOwn (sends at room) = Unit
  IsOwn (flushes at) = Unit

  -- How many metrics have been taken since the ticker fired.
  abbrev pub late_after : {s t : Pipeline} → Step marshal prefix s t → ℕ → ℕ
  late_after (records m room) n = n
  late_after (drops m full) n = n
  late_after (absorbs at idle) n = suc n
  late_after (fires at idle) n = 0
  late_after (sends at room) n = n
  late_after (flushes at) n = n

  -- A run from the start, with that number.
  pub data Since : ℕ → Pipeline → Type 0 where
    begun : Since 0 start
    goes :
        {n : ℕ} {s t : Pipeline}
        → Since n s
        → (step : Step marshal prefix s t) → Since (late_after step n) t

  Since-Run : {n : ℕ} {s : Pipeline} → Since n s → Run marshal prefix start s
  Since-Run begun = here
  Since-Run (goes r step) = next (Since-Run r) step

  -- The newest text lacks the metrics taken since the ticker fired.
  abbrev Lacks : ℕ → Pipeline → Type 0
  Lacks n s = (k : ℕ) × (k + n ≡ length s.taken) × Shows marshal prefix s.taken k (newest s)

  Step-Lacks :
      (n : ℕ) {k : ℕ} {s t : Pipeline} (step : Step marshal prefix s t)
      → Ordered marshal prefix k s
      → Lacks n s
      → Lacks (late_after step n) t
  unfolding served
  Step-Lacks n (records m room) o h = h
  Step-Lacks n (drops m full) o h = h
  Step-Lacks n {s = s} (absorbs {m} at idle) o (k, sum, shows) = (
    k,
    omega (arith, sum, length-append s.taken (m ∷ [])),
    Shows-append marshal prefix s.taken m k (newest s) shows,
  )
  Step-Lacks n {s = s} (fires {m} at idle) o h =
      let taken = s.taken ++ (m ∷ []) in
      (
        length taken,
        omega arith,
        (
          omega arith,
          inr (
              served-last s.updates _ s.current
              ∙ ap marshal (absorbed-taken marshal prefix s m o.map)
              ∙ ap (λ ms. marshal (absorbed marshal prefix ms []))
                  (sym (take_all (length taken) taken refl))),
        ),
      )
  Step-Lacks n {s = s} (sends {u} at room) o (k, sum, shows) = (
    k,
    sum,
    subst (Shows marshal prefix s.taken k)
        (ap (λ us. served us s.current)
          (ap (λ p. s.updates ++ waiting p) at ∙ sym (append-nil (s.updates ++ (u ∷ [])))))
        shows,
  )
  Step-Lacks n {s = s} (flushes at) o (k, sum, shows) = (
    k,
    sum,
    subst (Shows marshal prefix s.taken k)
        (ap (λ us. served (us ++ waiting s.pending) s.current) at) shows,
  )

  Since-Lacks : {n : ℕ} {s : Pipeline} → Since n s → Lacks n s
  unfolding served absorbed
  Since-Lacks begun = (0, refl, (omega arith, inl (refl, refl)))
  Since-Lacks (goes {n} r step) =
      let (k, _, o) =
        Run-Ordered_from marshal prefix 0 (start-Ordered marshal prefix) (Since-Run r) in
      Step-Lacks n step o (Since-Lacks r)

  -- A step of a loop leaves less before them.
  IsOwn-work : {s t : Pipeline} (step : Step marshal prefix s t) → IsOwn step → work t < work s
  IsOwn-work (records m room) own = absurd own
  IsOwn-work (drops m full) own = absurd own
  IsOwn-work {s} (absorbs at idle) own = omega (arith, ap (λ (l : List Metric). length l) at)
  IsOwn-work {s} (fires at idle) own =
      omega (arith, ap (λ (l : List Metric). length l) at, ap (λ p. length (waiting p)) idle)
  IsOwn-work {s} (sends {u} at room) own =
      omega (arith, ap (λ p. length (waiting p)) at, length-append s.updates (u ∷ []))
  IsOwn-work {s} (flushes at) own = omega (arith, ap (λ (l : List Text). length l) at)

  -- The loops can go on unless they rest.
  IsOwn-next :
      (s : Pipeline)
      → ((t : Pipeline) × (step : Step marshal prefix s t) × IsOwn step) ⊎ IsResting s
  IsOwn-next s = elim (List-cases s.updates) [
    | inr (u, us, at) ↦ inl (_, flushes at, tt)
    | inl no_updates ↦ elim (Option-cases s.pending) [
      | inr (u, at) ↦
          inl (_, sends at (omega (arith, ap (λ (l : List Text). length l) no_updates)), tt)
      | inl not_pending ↦ elim (List-cases s.ch) [
        | inr (m, ms, at) ↦ inl (_, absorbs at not_pending, tt)
        | inl no_metrics ↦
            inr (record {
              no_metrics = no_metrics;
              not_pending = not_pending;
              no_updates = no_updates;
            })
      ]
    ]
  ]

  -- Between calls of `Record` the loops go on until they rest: each of their steps leaves fewer before
  -- them, and unless both channels are empty and nothing waits to be sent there is a next one. When
  -- they rest, the text served is that of the map after all the metrics accepted but those taken since
  -- the ticker fired (or `{}`, if that is none of them).
  pub Since-rests :
      {n : ℕ} {s : Pipeline}
      → Since n s
      → ((t : Pipeline) (step : Step marshal prefix s t) → IsOwn step → work t < work s)
        × (((t : Pipeline) × (step : Step marshal prefix s t) × IsOwn step)
            ⊎ (IsResting s
                × ((k : ℕ) × (k + n ≡ length s.accepted)
                    × Shows marshal prefix s.accepted k s.current)))
  unfolding served
  Since-rests {n} {s} r = (
    λ t step own. IsOwn-work step own,
    elim (IsOwn-next s) [
      | inl more ↦ inl more
      | inr rests ↦
          let (k, sum, shows) = Since-Lacks r in
          let (_, _, o) =
            Run-Ordered_from marshal prefix 0 (start-Ordered marshal prefix) (Since-Run r) in
          let all : s.taken ≡ s.accepted =
            sym (o.kept ∙ ap (λ ch. s.taken ++ ch) rests.no_metrics ∙ append-nil s.taken) in
          let same : newest s ≡ s.current =
            ap (λ us. served (us ++ waiting s.pending) s.current) rests.no_updates
            ∙ ap (λ p. served (waiting p) s.current) rests.not_pending in
          inr (
            rests,
            subst
                (λ taken. (k : ℕ) × (k + n ≡ length taken) × Shows marshal prefix taken k s.current)
                all (k, sum, subst (Shows marshal prefix s.taken k) same shows),
          )
    ],
  )
