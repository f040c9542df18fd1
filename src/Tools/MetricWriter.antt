-- ===== src/Tools/MetricWriter.antt =====
-- The metric writer of `tools/metric.go`: `Record` puts compiled entries into a channel, and a
-- goroutine takes them out in batches and writes them to a UDP connection.
pub mod Batches
pub mod Resend
use bridge_common.Prelude.{
  ℕ, ◌<◌, ◌≡◌, ◌≢◌, Bool, true, false, List, [], ◌∷◌, ◌++◌, Option, none, some, length,
  if◌then◌else◌, ltb, leb,
}
use bridge_common.Prelude.Text.{Text, join}

-- `make(chan string, 1000)`
abbrev pub channel_size : ℕ
channel_size = 1000

-- `Record`: the channel after it, oldest entry first. A full channel drops the entry.
unfoldable pub record_entry : Text → List Text → List Text
record_entry [] ch = ch
record_entry (c ∷ cs) ch = if ltb (length ch) channel_size then ch ++ ((c ∷ cs) ∷ []) else ch

-- What `poll` waits for: an entry from the channel, or the timer.
pub data Event : Type 0 where
  received : Text → Event
  fires : Event

-- The batch and the events that are left; `none` means that `poll` still waits at their end.
unfoldable pub poll : ℕ → List Event → List Text → Option (Text × List Event)
poll count [] entries = none
poll count (received m ∷ es) entries =
    if leb count (length (entries ++ (m ∷ [])))
    then some (join (entries ++ (m ∷ [])) [], es)
    else poll count es (entries ++ (m ∷ []))
poll count (fires ∷ es) entries =
    if ltb 0 (length entries) then some (join entries [], es) else poll count es entries

-- Where the goroutine of `NewMetricWriter` stands: at the head of the outer loop, or in the inner one
-- with a batch. The flag is `err == nil && conn != nil`.
pub data WriterState : Type 0 where
  polling : Bool → WriterState
  sending : Text → Bool → WriterState

-- One turn, with the text written to the connection, if any. Whether a write or a new `net.Dial`
-- works is up to the network.
pub data Turn : WriterState → Option Text → WriterState → Type 0 where
  nothing : (up : Bool) → Turn (polling up) none (polling up)
  takes : (m : Text) (up : Bool) → m ≢ [] → Turn (polling up) none (sending m up)
  writes : (m : Text) → Turn (sending m true) (some m) (sending m true)
  breaks : (m : Text) (redial : Bool) → Turn (sending m true) none (sending m redial)
  redials : (m : Text) (redial : Bool) → Turn (sending m false) none (sending m redial)

-- Turns in a row, with all that they write.
pub data Turns (s : WriterState) : List Text → WriterState → Type 0 where
  start : Turns s [] s
  quiet : {t u : WriterState} {ms : List Text} → Turns s ms t → Turn t none u → Turns s ms u
  wrote :
      {t u : WriterState} {ms : List Text} (m : Text)
      → Turns s ms t
      → Turn t (some m) u
      → Turns s (m ∷ ms) u
