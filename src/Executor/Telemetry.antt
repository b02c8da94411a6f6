-- ===== src/Executor/Telemetry.antt =====
-- executor.go: `MetricsAndTraces`, the default `MetricsAndTracesRegister`, with its `Close`.
use pucora_ce.Base.{String, ◌<>◌, List, [], ◌∷◌, ◌++◌, ◌≡◌, ◌↔◌, ◌⊎◌, Option, none, some, arith}
use pucora_ce.Executor.Collaborators.{Problem, sentinel, failed}
use pucora_ce.Base.Result.{Result, ok, err}
use pucora_ce.Executor.Event.{Level, debug, warning, error}

pub data Call (Shutdown : Type 0) : Type 0 where
  line : Level → List String → Call Shutdown
  metrics_made influx_made opencensus_made otel_made : Call Shutdown
  shut_down : Shutdown → Call Shutdown

-- `MetricsAndTraces`: the function that shuts the exporters down, nil at first.
pub record MetricsAndTraces (Shutdown : Type 0) : Type 0 where
  pub shutdown_fn : Option Shutdown

module _ {Shutdown : Type 0} where
  -- A line for a service that is registered, one for an error, none if it is not configured.
  registered : String → Option Problem → List (Call Shutdown)
  registered tag none = line debug ((tag <> " Service correctly registered") ∷ []) ∷ []
  registered tag (some sentinel) = []
  registered tag (some (failed e)) = line warning (tag ∷ e ∷ []) ∷ []

  otel_registered : MetricsAndTraces Shutdown → Result Shutdown → MetricsAndTraces Shutdown
  otel_registered m (ok f) = record m { shutdown_fn = some f }
  otel_registered m (err e) = m

  otel_lines : Result Shutdown → List (Call Shutdown)
  otel_lines (ok f) = []
  otel_lines (err e) =
      line error (("[SERVICE: OpenTelemetry] cannot register exporters: " <> e) ∷ []) ∷ []

  -- `Register`, with what the three libraries answer.
  unfoldable pub register :
      MetricsAndTraces Shutdown
      → Option Problem
      → Option Problem
      → Result Shutdown
      → MetricsAndTraces Shutdown × List (Call Shutdown)
  unfolding registered otel_registered otel_lines
  register m influx opencensus otel = (
    otel_registered m otel,
    (metrics_made ∷ influx_made ∷ registered "[SERVICE: InfluxDB]" influx)
        ++ ((opencensus_made ∷ registered "[SERVICE: OpenCensus]" opencensus)
            ++ (otel_made ∷ otel_lines otel)),
  )

  unfoldable pub close : MetricsAndTraces Shutdown → List (Call Shutdown)
  close m = elim m.shutdown_fn [ none ↦ [] | some f ↦ shut_down f ∷ [] ]

  -- After a registration, `Close` shuts down with the function that this registration of the
  -- exporters gave; if it failed, with the one of an earlier registration. The answers of the
  -- InfluxDB and OpenCensus libraries play no part.
  close-register_iff :
      (m : MetricsAndTraces Shutdown) (influx opencensus : Option Problem) (otel : Result Shutdown)
      (f : Shutdown)
      → (close (register m influx opencensus otel).0 ≡ shut_down f ∷ [])
        ↔ ((otel ≡ ok f) ⊎ ((e : String) × (otel ≡ err e) × (m.shutdown_fn ≡ some f)))
  unfolding close register
  close-register_iff m influx opencensus otel f = ground arith
