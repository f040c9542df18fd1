-- ===== src/Metrics/Pipeline.antt =====
-- The goroutines of `metrics/metrics.go` and the two channels between them, as a step relation: callers
-- of `Record`, the loop of `Metrics.start`, and the loop of `start`, which stores what `GetMetrics`
-- serves.
pub mod Ordered
pub mod Resting
use bridge_common.Prelude.{ℕ, ◌≤◌, ◌<◌, ◌≡◌, List, [], ◌∷◌, ◌++◌, Option, none, some, length}
use bridge_common.Prelude.Text.{Text, codes}
use bridge_common.Metrics.{Metric, channel_size, record_metric, absorb}

-- `make(chan []byte, 10)`
abbrev pub updates_size : ℕ
updates_size = 10

pub record Pipeline : Type 0 where
  -- The channel of metrics, oldest first.
  pub ch : List Metric
  pub state : List (Text × Text)
  -- The bytes that the loop of `Metrics.start` waits to send.
  pub pending : Option Text
  -- The channel `metricUpdates`, oldest first.
  pub updates : List Text
  -- `metricState.State`
  pub current : Text
  -- The metrics that the channel has accepted, and those that the loop has taken, which the code does
  -- not keep.
  pub accepted : List Metric
  pub taken : List Metric

abbrev pub start : Pipeline
start = record {
  ch = [];
  state = [];
  pending = none;
  updates = [];
  current = codes "{}";
  accepted = [];
  taken = [];
}

-- `marshal` is `json.Marshal`.
module _ (marshal : List (Text × Text) → Text) (prefix : Text) where
  pub data Step (s : Pipeline) : Pipeline → Type 0 where
    -- `Record`, with room in the channel and without.
    records :
        (m : Metric)
        → length s.ch < channel_size
        → Step s (record s { ch = record_metric m s.ch; accepted = s.accepted ++ (m ∷ []) })
    drops :
        (m : Metric) → channel_size ≤ length s.ch → Step s (record s { ch = record_metric m s.ch })
    -- A round of `Metrics.start` in which the ticker has not fired.
    absorbs :
        {m : Metric} {ms : List Metric}
        → s.ch ≡ m ∷ ms
        → s.pending ≡ none
        → Step s
            (record s { ch = ms; state = absorb prefix m s.state; taken = s.taken ++ (m ∷ []) })
    -- One in which it has, up to the send.
    fires :
        {m : Metric} {ms : List Metric}
        → s.ch ≡ m ∷ ms
        → s.pending ≡ none
        → Step s (record s {
          ch = ms;
          state = absorb prefix m s.state;
          pending = some (marshal (absorb prefix m s.state));
          taken = s.taken ++ (m ∷ []);
        })
    -- The send, which waits for room.
    sends :
        {u : Text}
        → s.pending ≡ some u
        → length s.updates < updates_size
        → Step s (record s { pending = none; updates = s.updates ++ (u ∷ []) })
    -- A round of `start`.
    flushes :
        {u : Text} {us : List Text}
        → s.updates ≡ u ∷ us
        → Step s (record s { updates = us; current = u })

  pub data Run (s : Pipeline) : Pipeline → Type 0 where
    here : Run s s
    next : {t u : Pipeline} → Run s t → Step t u → Run s u
