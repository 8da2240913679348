-- ===== src/MetricsManager.antt =====
-- manager-metrics.js: the metrics that are sent to Datadog.
use ugo.Base.{ℕ, String, List, [], ◌∷◌, ◌++◌, Option, none, some}
use ugo.Model.Message.{Message}
use ugo.Model.Outside.{Metric, gauged, incremented, histogrammed}
use ugo.World.{Services, Promise, fulfilled}

-- `value = 1`.
abbrev pub or_one : Option ℕ → ℕ
or_one none = 1
or_one (some n) = n

module _ (s : Services) where
  abbrev pub record_metric : Metric → Promise s (Unit {0})
  record_metric m w = fulfilled tt (record w { metrics = w.metrics ++ m ∷ [] })

  unfoldable pub gauge : String → Option ℕ → List String → Promise s (Unit {0})
  gauge name value tags = record_metric (gauged name value tags)

  unfoldable pub increment : String → Option ℕ → List String → Promise s (Unit {0})
  increment name value tags = record_metric (incremented name (or_one value) tags)

  unfoldable pub histogram : String → Option ℕ → List String → Promise s (Unit {0})
  histogram name value tags = record_metric (histogrammed name value tags)

  unfoldable pub subscribers : Message → List (Promise s (Unit {0}))
  subscribers (Message.gauge name value tags) = gauge name value tags ∷ []
  subscribers (Message.increment name value tags) = increment name value tags ∷ []
  subscribers (Message.histogram name value tags) = histogram name value tags ∷ []
  subscribers _ = []
