-- ===== src/Instrumentation.antt =====
-- amizone/instrumentation/instrumentation.go: the configuration, and the set-up of the instruments and
-- providers. The libraries of OpenTelemetry are a parameter; the package's variables are the record
-- Hub, whose instruments hold what was handed to them, the latest first.
pub mod Requests
pub mod Setup
pub mod Counts
use go_amizone.Base.{
  ℕ, ℤ, Bool, true, false, not, ◌||◌, List, [], ◌∷◌, ◌++◌, Option, none, some, Text, codes, text_eq,
  is_empty, take, Result, ok, fail, if◌then◌else◌,
}

-- `HashCredentials`: the first sixteen characters of the sum, which `sha1` gives in hexadecimal.
unfoldable pub hash_credentials : (Text → Text) → Text → Text → Text
hash_credentials sha1 username password = take 16 (sha1 (username ++ (codes ":" ++ password)))

abbrev pub service_name : Text
service_name = codes "amizone-api"

-- `SampleRate` counts hundredths.
pub record Config : Type 0 where
  pub otlp_endpoint : Text
  pub environment : Text
  pub sample_rate : ℕ
  pub metrics_enabled : Bool

-- `getEnvOrDefault`, where `getenv` is `os.Getenv`: empty for a variable that is not set.
unfoldable pub get_env_or_default : (Text → Text) → Text → Text → Text
get_env_or_default getenv key default_val =
    if is_empty (getenv key) then default_val else getenv key

abbrev pub is_production : Text → Bool
is_production env = text_eq env (codes "production") || text_eq env (codes "prod")

unfoldable pub default_config : (Text → Text) → Config
unfolding get_env_or_default
default_config getenv =
    let env : Text =
      if is_empty (getenv (codes "ENVIRONMENT"))
      then codes "development"
      else getenv (codes "ENVIRONMENT") in
    let by_environment : ℕ = if is_production env then 10 else 100 in
    record {
      otlp_endpoint =
          get_env_or_default getenv (codes "OTEL_EXPORTER_OTLP_ENDPOINT") (codes "localhost:4318");
      environment = env;
      sample_rate = if is_empty (getenv (codes "OTEL_SAMPLE_RATE")) then by_environment else 10;
      metrics_enabled = not (text_eq (getenv (codes "METRICS_ENABLED")) (codes "false"));
    }

pub data AttributeValue : Type 0 where
  string : Text → AttributeValue
  number : ℕ → AttributeValue
  boolean : Bool → AttributeValue

abbrev pub Attributes : Type 0
Attributes = List (Text × AttributeValue)

pub record Measurement : Type 0 where
  pub value : ℤ
  pub attributes : Attributes

-- An instrument; `none` is a variable that is still nil.
abbrev pub Instrument : Type 0
Instrument = Option (List Measurement)

-- How a provider samples, in hundredths.
pub data Sampler : Type 0 where
  always_sample never_sample : Sampler
  trace_id_ratio_based : ℕ → Sampler

-- The tracer provider that `Init` installs: whether it exports, and its sampler.
pub record TracerProvider : Type 0 where
  pub exports : Bool
  pub sampler : Sampler
  pub environment : Text

-- The variables of the package, and the providers that it gives to the library.
pub record Hub : Type 0 where
  pub request_counter : Instrument
  pub request_duration : Instrument
  pub active_requests : Instrument
  pub cf_challenge_counter : Instrument
  pub login_attempt_counter : Instrument
  pub error_counter : Instrument
  pub has_tracer : Bool
  pub has_meter : Bool
  pub tracer_provider : Option TracerProvider
  pub has_meter_provider : Bool

-- Before `Init`.
abbrev pub unset_hub : Hub
unset_hub = record {
  request_counter = none;
  request_duration = none;
  active_requests = none;
  cf_challenge_counter = none;
  login_attempt_counter = none;
  error_counter = none;
  has_tracer = false;
  has_meter = false;
  tracer_provider = none;
  has_meter_provider = false;
}

-- What the libraries of OpenTelemetry answer. `makes` says for the name of an instrument whether the
-- meter gives one, and its error.
pub record Telemetry : Type 0 where
  pub resource_error : Text → Option Text
  pub otlp_exporter : Text → Bool
  pub prometheus_exporter : Bool
  pub makes : Text → Bool × Option Text
  pub tracer_shutdown : Option Text
  pub meter_shutdown : Option Text

-- A call that changes the variables and may return an error.
abbrev pub Initialiser : Type 0
Initialiser = Hub → Hub × Option Text

infixl 5 ◌>>◌
abbrev pub ◌>>◌ : Initialiser → Initialiser → Initialiser
◌>>◌ m k h = let (h', e) = m h in elim e [ none ↦ k h' | some err ↦ (h', some err) ]

-- One instrument: the variable is set whatever the error is.
abbrev pub create : Telemetry → Text → (Instrument → Hub → Hub) → Initialiser
create lib name assign h =
    let (made, err) = lib.makes name in (assign (if made then some [] else none) h, err)

unfoldable pub init_metrics : Telemetry → Initialiser
init_metrics lib =
    create lib (codes "amizone.requests.total") (λ i h. record h { request_counter = i })
    >> create lib (codes "amizone.request.duration") (λ i h. record h { request_duration = i })
    >> create lib (codes "amizone.requests.active") (λ i h. record h { active_requests = i })
    >> create lib (codes "amizone.cloudflare.challenges")
        (λ i h. record h { cf_challenge_counter = i })
    >> create lib (codes "amizone.login.attempts") (λ i h. record h { login_attempt_counter = i })
    >> create lib (codes "amizone.errors.total") (λ i h. record h { error_counter = i })

-- The sampler by the configuration.
unfoldable pub sampler_of : Config → Sampler
sampler_of cfg =
    if is_production cfg.environment then trace_id_ratio_based cfg.sample_rate else always_sample

unfoldable pub tracer_provider_of : Telemetry → Config → TracerProvider
unfolding sampler_of
tracer_provider_of lib cfg =
    if lib.otlp_exporter cfg.otlp_endpoint
    then record { exports = true; sampler = sampler_of cfg; environment = cfg.environment }
    else record { exports = false; sampler = never_sample; environment = cfg.environment }

-- The providers, the tracer and the meter.
unfoldable pub set_providers : Telemetry → Config → Hub → Hub
unfolding tracer_provider_of
set_providers lib cfg h = record h {
  tracer_provider = some (tracer_provider_of lib cfg);
  has_tracer = true;
  has_meter = true;
  has_meter_provider =
      if cfg.metrics_enabled
      then (if lib.prometheus_exporter then true else h.has_meter_provider)
      else h.has_meter_provider;
}

-- What the function that `Init` returns has of its locals.
pub record Shutdown : Type 0 where
  pub has_meter_provider : Bool

unfoldable pub init : Telemetry → Config → Hub → Hub × Result Shutdown
unfolding init_metrics set_providers
init lib cfg h = elim (lib.resource_error cfg.environment) [
  | some e ↦ (h, fail e)
  | none ↦
      let (h', err) = init_metrics lib (set_providers lib cfg h) in
      elim err [
        | some e ↦ (h', fail e)
        | none ↦ (
          h',
          ok (record {
            has_meter_provider = if cfg.metrics_enabled then lib.prometheus_exporter else false;
          }),
        )
      ]
]

-- The providers that the returned function shuts down.
pub data Provider : Type 0 where
  tracers meters : Provider

abbrev errors_of : Option Text → List Text
errors_of none = []
errors_of (some e) = e ∷ []

abbrev first_of : List Text → Option Text
first_of [] = none
first_of (e ∷ es) = some e

unfoldable pub run_shutdown : Telemetry → Shutdown → List Provider × Option Text
run_shutdown lib s =
    if s.has_meter_provider
    then (
      tracers ∷ meters ∷ [],
      first_of (errors_of lib.tracer_shutdown ++ errors_of lib.meter_shutdown),
    )
    else (tracers ∷ [], first_of (errors_of lib.tracer_shutdown))
