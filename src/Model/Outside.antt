-- ===== src/Model/Outside.antt =====
-- What the program sends to Pusher and to Datadog: the trigger of a channel, and a metric.
use ugo.Base.{ℕ, String, List, Option}
use ugo.Model.Queue.{Item}

-- `pusher.trigger(channel, event, items)`.
pub record Trigger : Type 0 where
  pub channel : String
  pub event : String
  pub items : List Item

-- `metrics.gauge`, `metrics.increment` and `metrics.histogram`; the time is left out, which no
-- message gives.
pub data Metric : Type 0 where
  gauged : String → Option ℕ → List String → Metric
  incremented : String → ℕ → List String → Metric
  histogrammed : String → Option ℕ → List String → Metric
