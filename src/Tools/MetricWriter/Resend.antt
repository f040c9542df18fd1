-- ===== src/Tools/MetricWriter/Resend.antt =====
-- The inner loop of `NewMetricWriter` in `tools/metric.go`.
use bridge_common.Prelude.{◌≡◌, List, Option, none, some, All}
use bridge_common.Prelude.Text.{Text}
use bridge_common.Tools.MetricWriter.{
  WriterState, polling, sending, Turn, Turns, nothing, takes, writes, breaks, redials, start, quiet,
  wrote,
}

-- Sending the batch `m`, whatever the connection.
abbrev pub IsSending : Text → WriterState → Type 0
IsSending m (polling up) = ⊥
IsSending m (sending n up) = n ≡ m

Turn-IsSending :
    {s t : WriterState} {w : Option Text} (m : Text) → Turn s w t → IsSending m s → IsSending m t
Turn-IsSending m (nothing up) h = h
Turn-IsSending m (takes n up x) h = absurd h
Turn-IsSending m (writes n) h = h
Turn-IsSending m (breaks n redial) h = h
Turn-IsSending m (redials n redial) h = h

-- What a turn writes.
abbrev Writes : Text → Option Text → Type 0
Writes m none = Unit {0}
Writes m (some n) = n ≡ m

Turn-Writes :
    {s t : WriterState} {w : Option Text} (m : Text) → Turn s w t → IsSending m s → Writes m w
Turn-Writes m (nothing up) h = tt
Turn-Writes m (takes n up x) h = tt
Turn-Writes m (writes n) h = h
Turn-Writes m (breaks n redial) h = tt
Turn-Writes m (redials n redial) h = tt

-- Once the writer has a batch it never takes another: however writes and dials turn out, it goes on
-- sending that batch, and all that it writes is that batch again.
pub Turns-IsSending :
    {s t : WriterState} {ms : List Text} (m : Text)
    → IsSending m s
    → Turns s ms t
    → IsSending m t × All (λ n. n ≡ m) ms
Turns-IsSending m h start = (h, tt)
Turns-IsSending m h (quiet ts turn) =
    let (now, all) = Turns-IsSending m h ts in (Turn-IsSending m turn now, all)
Turns-IsSending m h (wrote n ts turn) =
    let (now, all) = Turns-IsSending m h ts in
    (Turn-IsSending m turn now, (Turn-Writes m turn now, all))
