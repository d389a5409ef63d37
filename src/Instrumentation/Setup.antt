-- ===== src/Instrumentation/Setup.antt =====
-- What `Init` leaves behind, and how it samples.
use go_amizone.Base.{true, ◌≡◌, [], none, some, Text, codes, text_eq, ok, if◌then◌else◌, arith}
use go_amizone.Instrumentation.{
  Config, default_config, Sampler, always_sample, never_sample, trace_id_ratio_based,
  TracerProvider, Hub, Telemetry, init_metrics, sampler_of, tracer_provider_of, set_providers,
  Shutdown, init, is_production,
}

-- A meter that gives no error gives an instrument.
abbrev pub MakesInstruments : Telemetry → Type 0
MakesInstruments lib = (name : Text) → (lib.makes name).1 ≡ none → (lib.makes name).0 ≡ true

-- Every instrument is there and has measured nothing.
pub record IsReady (h : Hub) : Type 0 where
  pub requests : h.request_counter ≡ some []
  pub durations : h.request_duration ≡ some []
  pub active : h.active_requests ≡ some []
  pub challenges : h.cf_challenge_counter ≡ some []
  pub logins : h.login_attempt_counter ≡ some []
  pub errors : h.error_counter ≡ some []

module _ (lib : Telemetry) (law : MakesInstruments lib) where
  init_metrics-IsReady :
      (h h' : Hub)
      → init_metrics lib h ≡ (h', none)
      → IsReady h' × (h'.tracer_provider ≡ h.tracer_provider)
  unfolding init_metrics
  init_metrics-IsReady h h' e = ground (
    arith,
    law (codes "amizone.requests.total"),
    law (codes "amizone.request.duration"),
    law (codes "amizone.requests.active"),
    law (codes "amizone.cloudflare.challenges"),
    law (codes "amizone.login.attempts"),
    law (codes "amizone.errors.total"),
  )

  init_ready :
      (cfg : Config) (h h' : Hub) (s : Shutdown)
      → init lib cfg h ≡ (h', ok s)
      → IsReady h' × (h'.tracer_provider ≡ some (tracer_provider_of lib cfg))
  unfolding init set_providers
  init_ready cfg h h' s e =
      let metrics : init_metrics lib (set_providers lib cfg h) ≡ (h', none) = ground arith in
      init_metrics-IsReady (set_providers lib cfg h) h' metrics

-- The sampler by the environment alone; `endpoint` is that of the exporter.
abbrev pub sampler_by_environment : Telemetry → (Text → Text) → Text → Sampler
sampler_by_environment lib getenv endpoint =
    if lib.otlp_exporter endpoint
    then (if is_production (getenv (codes "ENVIRONMENT"))
        then trace_id_ratio_based 10
        else always_sample)
    else never_sample

default_sampler :
    (lib : Telemetry) (getenv : Text → Text)
    → (tracer_provider_of lib (default_config getenv)).sampler
      ≡ sampler_by_environment lib getenv (default_config getenv).otlp_endpoint
unfolding tracer_provider_of sampler_of default_config text_eq
default_sampler lib getenv = ground arith

-- When Init returns no error with the default configuration, every instrument is there, and all
-- requests are sampled, or a tenth of them in production, whatever OTEL_SAMPLE_RATE is; none is
-- sampled without an exporter. A meter gives an instrument where it gives no error.
pub init_samples :
    (lib : Telemetry) (getenv : Text → Text) (h h' : Hub) (s : Shutdown)
    → MakesInstruments lib
    → init lib (default_config getenv) h ≡ (h', ok s)
    → IsReady h'
      × ((p : TracerProvider) × (h'.tracer_provider ≡ some p)
          × (p.sampler ≡ sampler_by_environment lib getenv (default_config getenv).otlp_endpoint))
init_samples lib getenv h h' s law e =
    let (ready, installed) = init_ready lib law (default_config getenv) h h' s e in
    (ready, (tracer_provider_of lib (default_config getenv), installed, default_sampler lib getenv))
