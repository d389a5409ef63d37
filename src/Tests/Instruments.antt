-- ===== src/Tests/Instruments.antt =====
-- The instruments of a service that traces a tenth of its requests, and a request that fails when it
-- is sent again.
use go_amizone.Base.{
  ◌≡◌, ◌||◌, refl, true, [], none, some, Text, codes, text_eq, ok, fail, leb, length, if◌then◌else◌,
}
use go_amizone.Client.Types.{Env}
use go_amizone.Client.Request.{post}
use go_amizone.Client.Retry.{do_request_with_headers}
use go_amizone.Client.Retry.Traced.{traced_do_request}
use go_amizone.Client.Retry.Traced.Marks.{counts_as_success, no_error, repeats, do_request_marks}
use go_amizone.Instrumentation.{Telemetry, Hub, TracerProvider, default_config, init, unset_hub}
use go_amizone.Instrumentation.Setup.{IsReady, init_samples, sampler_by_environment}
use go_amizone.Instrumentation.Counts.{
  Tracing, idle, starts, ends, Reach, here, next, Counted, Reach-Counted,
}
use go_amizone.Tests.Client.{portal, page_at, returning}

abbrev pub telemetry : Telemetry
telemetry = record {
  resource_error = λ env. none;
  otlp_exporter = λ endpoint. true;
  prometheus_exporter = true;
  makes = λ name. (true, none);
  tracer_shutdown = none;
  meter_shutdown = none;
}

abbrev production : Text → Text
production key = if text_eq key (codes "ENVIRONMENT") then codes "prod" else []

abbrev initialised : Hub
initialised = (init telemetry (default_config production) unset_hub).0

init_samples_example :
    IsReady initialised
    × ((p : TracerProvider) × (initialised.tracer_provider ≡ some p)
        × (p.sampler
            ≡ sampler_by_environment telemetry production
                (default_config production).otlp_endpoint))
unfolding init default_config text_eq
init_samples_example =
    init_samples telemetry production unset_hub initialised (record { has_meter_provider = true })
      (λ name e. refl) refl

abbrev ready : IsReady initialised
unfolding init default_config text_eq
ready = record {
  requests = refl;
  durations = refl;
  active = refl;
  challenges = refl;
  logins = refl;
  errors = refl;
}

-- Two requests start, and the second ends with status 503.
abbrev two_requests : (s : Tracing) × Reach (λ code. []) (idle initialised) s
two_requests = (
  _,
  next _ _
      (next _ _ (next _ _ here (starts 5 true post (codes "/x") []))
        (starts 6 true post (codes "/y") []))
      (ends [] _ _ refl 9 503 (some (codes "down"))),
)

Reach-Counted_example : Counted two_requests.0
Reach-Counted_example = Reach-Counted (λ code. []) initialised two_requests.0 ready two_requests.1

-- The portal, where the request that is sent again fails.
abbrev failing_again : Env
failing_again = record (portal 2) {
  transport =
      λ reqs. if leb 4 (length reqs) then fail (codes "timeout") else ok (page_at 2 (length reqs));
}

do_request_marks_example :
    counts_as_success (traced_do_request failing_again post (codes "/x") [] none true returning).2
    ≡ (no_error (do_request_with_headers failing_again post (codes "/x") none [] true returning).1
        || repeats failing_again post (codes "/x") [] none true returning)
do_request_marks_example = do_request_marks failing_again post (codes "/x") [] none true returning
