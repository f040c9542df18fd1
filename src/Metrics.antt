-- ===== src/Metrics.antt =====
-- `metrics/metrics.go`: the latest value of each metric, published from time to time. Values are as
-- `%v` prints them.
mod Tests
pub mod Latest
pub mod Pipeline
use bridge_common.Prelude.{ℕ, Bool, true, false, List, [], ◌∷◌, ◌++◌, length, if◌then◌else◌, ltb}
use bridge_common.Prelude.Text.{Text, codes, insert}

pub record Metric : Type 0 where
  pub key : Text
  pub value : Text

-- `make(chan Metric, 1000)`
abbrev pub channel_size : ℕ
channel_size = 1000

-- `Record`: the channel after it, oldest first. A full channel drops the metric.
unfoldable pub record_metric : Metric → List Metric → List Metric
record_metric m ch = if ltb (length ch) channel_size then ch ++ (m ∷ []) else ch

-- `fmt.Sprintf("%s.%s", m.prefix, metric.Key)`
abbrev pub full_key : Text → Text → Text
full_key prefix key = prefix ++ (b'.' ∷ key)

-- The map `state` of the goroutine after one metric.
unfoldable pub absorb : Text → Metric → List (Text × Text) → List (Text × Text)
absorb prefix m state = insert (full_key prefix m.key) m.value state

-- The loop of `start` on the metrics that come out of the channel, each with whether the ticker has
-- fired: the maps that are published, in order, and the map at the end.
unfoldable pub run :
    Text
    → List (Metric × Bool)
    → List (Text × Text)
    → List (List (Text × Text)) × List (Text × Text)
unfolding absorb
run prefix [] state = ([], state)
run prefix ((m, fired) ∷ ms) state =
    let state' = absorb prefix m state in
    let (published, final) = run prefix ms state' in
    (if fired then state' ∷ published else published, final)

-- The text that `GetMetrics` serves: the last map published, by the text of each, or `{}` before.
unfoldable pub served : List Text → Text → Text
served [] current = current
served (update ∷ updates) current = served updates update

-- What `GetMetrics` writes: a header and the body.
pub record Response : Type 0 where
  pub content_type : Text
  pub body : Text

unfoldable pub get_metrics : Text → Response
get_metrics state = record { content_type = codes "application/json"; body = state }

-- `Setup` of `metrics/router.go`: the pattern, and the handler of its requests.
unfoldable pub setup : Text × (Text → Response)
unfolding get_metrics
setup = (codes "/common/tools/metric/", get_metrics)
