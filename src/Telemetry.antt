-- ===== src/Telemetry.antt =====
-- apps/api/internal/telemetry/telemetry.go: which requests are traced, and where the traces go. The
-- calls of OpenTelemetry are parameters.
use pf_media.Base.{Str, Bool, [], ◌++◌, codes, if◌then◌else◌, ◌==◌, ◌||◌, str_eq, not}
use pf_media.Base.Split.{has_suffix, trim_right_byte}
use pf_media.Base.Text.{trim_space}
use pf_media.Domain.{wrapped}
use pf_media.Exec.{Exec, ◌>>=◌, pure, raise, recover}

-- Whether a request to the path is traced.
unfoldable pub skip_probe : Str → Bool
skip_probe path = not (path == codes "/health" || path == codes "/ready" || path == codes "/live")

abbrev pub traces_path : Str
traces_path = codes "/v1/traces"

unfoldable pub traces_endpoint : Str → Str
unfolding has_suffix trim_right_byte trim_space
traces_endpoint otlp_endpoint =
    let endpoint = trim_right_byte 47 (trim_space otlp_endpoint) in
    if has_suffix endpoint traces_path then endpoint else endpoint ++ traces_path

-- `resource.New`, `otlptracehttp.New`, and the provider that is made of them and set: the function
-- that shuts it down.
pub record Tracing (R T E : Type 0) : Type 0 where
  pub resource : Str → Exec E R
  pub exporter : Str → Exec E T
  pub provide : R → T → Exec E (Exec E Unit)

-- `Init`, with the function that shuts the tracing down.
unfoldable pub init : {R T E : Type 0} → Tracing R T E → Str → Str → Exec E (Exec E Unit)
unfolding traces_endpoint
init otel service_name otlp_endpoint = if otlp_endpoint == [] then pure (pure tt) else do
  res ← otel.resource service_name
  exporter ←
      recover (otel.exporter (traces_endpoint otlp_endpoint))
        λ e. raise (wrapped (codes "trace exporter") e)
  otel.provide res exporter
