-- ===== src/Metrics/Pipeline/Ordered.antt =====
-- What `GetMetrics` of `metrics/metrics.go` may serve, however its goroutines interleave.
use bridge_common.Prelude.{
  take-append_le, take_all, ℕ, ◌≤◌, ◌≡◌, refl, sym, ap, subst, ◌∙◌, ◌⊎◌, inl, inr, List, [], ◌∷◌,
  ◌++◌, Option, none, some, length, length-append, take, append-nil, append_assoc, arith,
}
use bridge_common.Prelude.Text.{Text, codes}
use bridge_common.Metrics.{Metric, channel_size, record_metric, absorb}
use bridge_common.Metrics.Pipeline.{
  Pipeline, start, updates_size, Step, records, drops, absorbs, fires, sends, flushes, Run, here,
  next,
}

-- The text waiting to be sent, if there is one.
abbrev pub waiting : Option Text → List Text
waiting none = []
waiting (some u) = u ∷ []

module _ (marshal : List (Text × Text) → Text) (prefix : Text) where
  -- The map after metrics in this order, starting from an empty one.
  unfoldable pub absorbed : List Metric → List (Text × Text) → List (Text × Text)
  absorbed [] state = state
  absorbed (m ∷ ms) state = absorbed ms (absorb prefix m state)

  absorbed-append :
      (ms : List Metric) (m : Metric) (state : List (Text × Text))
      → absorbed (ms ++ (m ∷ [])) state ≡ absorb prefix m (absorbed ms state)
  unfolding absorbed
  absorbed-append [] m state = refl
  absorbed-append (n ∷ ms) m state = absorbed-append ms m (absorb prefix n state)

  -- A text is that of the map after the first `k` of the metrics taken, or of the empty one at the
  -- start.
  abbrev pub Shows : List Metric → ℕ → Text → Type 0
  Shows taken k text =
      (k ≤ length taken)
      × (((k ≡ 0) × (text ≡ codes "{}")) ⊎ (text ≡ marshal (absorbed (take k taken) [])))

  -- The texts on the way are of later and later maps.
  abbrev Ascends : List Metric → ℕ → List Text → Type 0
  Ascends taken low [] = Unit
  Ascends taken low (u ∷ us) = (k : ℕ) × (low ≤ k) × Shows taken k u × Ascends taken k us

  pub record Ordered (k : ℕ) (s : Pipeline) : Type 0 where
    pub shown : Shows s.taken k s.current
    pub map : s.state ≡ absorbed s.taken []
    pub ascending : Ascends s.taken k (s.updates ++ waiting s.pending)
    pub kept : s.accepted ≡ s.taken ++ s.ch
    pub metrics_fit : length s.ch ≤ channel_size
    pub updates_fit : length s.updates ≤ updates_size

  pub Shows-append :
      (taken : List Metric) (m : Metric) (k : ℕ) (u : Text)
      → Shows taken k u
      → Shows (taken ++ (m ∷ [])) k u
  Shows-append taken m k u (few, inl first) =
      (omega (arith, few, length-append taken (m ∷ [])), inl first)
  Shows-append taken m k u (few, inr at) = (
    omega (arith, few, length-append taken (m ∷ [])),
    inr (at ∙ ap (λ ms. marshal (absorbed ms [])) (sym (take-append_le k taken (m ∷ []) few))),
  )

  Ascends-append :
      (taken : List Metric) (m : Metric) (low : ℕ) (us : List Text)
      → Ascends taken low us
      → Ascends (taken ++ (m ∷ [])) low us
  Ascends-append taken m low [] h = tt
  Ascends-append taken m low (u ∷ us) (k, le, shows, rest) =
      (k, le, Shows-append taken m k u shows, Ascends-append taken m k us rest)

  -- The newest map may come last.
  Ascends-last :
      (taken : List Metric) (low : ℕ) (us : List Text) (u : Text)
      → low ≤ length taken
      → u ≡ marshal (absorbed taken [])
      → Ascends taken low us
      → Ascends taken low (us ++ (u ∷ []))
  Ascends-last taken low [] u le e h =
      let all = ap (λ ms. marshal (absorbed ms [])) (sym (take_all (length taken) taken refl)) in
      (length taken, le, (omega arith, inr (e ∙ all)), tt)
  Ascends-last taken low (v ∷ us) u le e (k, lower, shows, rest) =
      (k, lower, shows, Ascends-last taken k us u shows.0 e rest)

  pub start-Ordered : Ordered 0 start
  unfolding absorbed
  start-Ordered = record {
    shown = (omega arith, inl (refl, refl));
    map = refl;
    ascending = tt;
    kept = refl;
    metrics_fit = omega arith;
    updates_fit = omega arith;
  }

  taken-kept :
      (accepted taken ch : List Metric) (m : Metric) (ms : List Metric)
      → accepted ≡ taken ++ ch
      → ch ≡ m ∷ ms
      → accepted ≡ (taken ++ (m ∷ [])) ++ ms
  taken-kept accepted taken ch m ms e f =
      e ∙ ap (λ xs. taken ++ xs) f ∙ sym (append_assoc taken (m ∷ []) ms)

  -- A round takes the oldest metric.
  pub absorbed-taken :
      (s : Pipeline) (m : Metric)
      → s.state ≡ absorbed s.taken []
      → absorb prefix m s.state ≡ absorbed (s.taken ++ (m ∷ [])) []
  absorbed-taken s m e = ap (absorb prefix m) e ∙ sym (absorbed-append s.taken m [])

  -- One step keeps the order, and what is served may go forward.
  Step-Ordered :
      {s t : Pipeline} (k : ℕ)
      → Ordered k s
      → Step marshal prefix s t
      → (k' : ℕ) × (k ≤ k') × Ordered k' t
  unfolding record_metric
  Step-Ordered {s} k w (records m room) = (
    k,
    omega arith,
    record {
      shown = w.shown;
      map = w.map;
      ascending = w.ascending;
      kept = ground (arith, w.kept, append_assoc s.taken s.ch (m ∷ []));
      metrics_fit = ground (arith, length-append s.ch (m ∷ []));
      updates_fit = w.updates_fit;
    },
  )
  Step-Ordered {s} k w (drops m full) = (
    k,
    omega arith,
    record {
      shown = w.shown;
      map = w.map;
      ascending = w.ascending;
      kept = ground (arith, w.kept);
      metrics_fit = ground (arith, w.metrics_fit);
      updates_fit = w.updates_fit;
    },
  )
  Step-Ordered {s} k w (absorbs {m} {ms} at idle) = (
    k,
    omega arith,
    record {
      shown = Shows-append s.taken m k s.current w.shown;
      map = absorbed-taken s m w.map;
      ascending = Ascends-append s.taken m k (s.updates ++ waiting s.pending) w.ascending;
      kept = taken-kept s.accepted s.taken s.ch m ms w.kept at;
      metrics_fit = omega (arith, w.metrics_fit, ap (λ (l : List Metric). length l) at);
      updates_fit = w.updates_fit;
    },
  )
  Step-Ordered {s} k w (fires {m} {ms} at idle) =
      let taken = s.taken ++ (m ∷ []) in
      let before : Ascends taken k s.updates = Ascends-append s.taken m k s.updates (
        subst (Ascends s.taken k) (ap (λ p. s.updates ++ waiting p) idle ∙ append-nil s.updates)
          w.ascending) in
      (
        k,
        omega arith,
        record {
          shown = Shows-append s.taken m k s.current w.shown;
          map = absorbed-taken s m w.map;
          ascending =
              Ascends-last taken k s.updates (marshal (absorb prefix m s.state))
                (omega (arith, w.shown.0, length-append s.taken (m ∷ [])))
                (ap marshal (absorbed-taken s m w.map)) before;
          kept = taken-kept s.accepted s.taken s.ch m ms w.kept at;
          metrics_fit = omega (arith, w.metrics_fit, ap (λ (l : List Metric). length l) at);
          updates_fit = w.updates_fit;
        },
      )
  Step-Ordered {s} k w (sends {u} at room) = (
    k,
    omega arith,
    record {
      shown = w.shown;
      map = w.map;
      ascending =
          subst (Ascends s.taken k)
            (ap (λ p. s.updates ++ waiting p) at ∙ sym (append-nil (s.updates ++ (u ∷ []))))
            w.ascending;
      kept = w.kept;
      metrics_fit = w.metrics_fit;
      updates_fit = omega (arith, room, length-append s.updates (u ∷ []));
    },
  )
  Step-Ordered {s} k w (flushes {u} {us} at) =
      let (k', le, shows, rest) =
        subst (Ascends s.taken k) (ap (λ l. l ++ waiting s.pending) at) w.ascending in
      (
        k',
        le,
        record {
          shown = shows;
          map = w.map;
          ascending = rest;
          kept = w.kept;
          metrics_fit = w.metrics_fit;
          updates_fit = omega (arith, w.updates_fit, ap (λ (l : List Text). length l) at);
        },
      )

  pub Run-Ordered_from :
      {s t : Pipeline} (k : ℕ)
      → Ordered k s
      → Run marshal prefix s t
      → (k' : ℕ) × (k ≤ k') × Ordered k' t
  Run-Ordered_from k w here = (k, omega arith, w)
  Run-Ordered_from k w (next r step) =
      let (k', le, w') = Run-Ordered_from k w r in
      let (k'', le', w'') = Step-Ordered k' w' step in (k'', omega arith, w'')

  -- However the goroutines interleave, the text served is `{}` or that of the map after some number of
  -- the metrics taken so far, and as the run goes on that number never goes down. The metrics accepted
  -- are those taken and those in the channel, in their order, and neither channel holds more than its
  -- size.
  pub Run-Ordered :
      (s t : Pipeline)
      → Run marshal prefix start s
      → Run marshal prefix s t
      → (k k' : ℕ) × (k ≤ k') × Ordered k s × Ordered k' t
  Run-Ordered s t r r' =
      let (k, _, w) = Run-Ordered_from 0 start-Ordered r in
      let (k', le, w') = Run-Ordered_from k w r' in (k, k', le, w, w')
