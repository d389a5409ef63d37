-- ===== src/Instrumentation/Requests.antt =====
-- amizone/instrumentation/instrumentation.go: the tracing of one HTTP request, and the records of
-- logins, challenges and errors. A context is the span that it carries; a tracer always gives a span,
-- and the attribute keys of semconv are written out. The clock of a process does not go back, so a
-- difference of times is not negative.
use go_amizone.Base.{
  ℕ, ◌-◌, ◌/◌, ℤ, pos, negsuc, Bool, true, false, not, ◌&&◌, List, [], ◌∷◌, ◌++◌, Option, none,
  some, Text, codes, is_empty, ltb, leb, if◌then◌else◌,
}
use go_amizone.Instrumentation.{string, number, boolean, Attributes, Instrument, Hub}

-- `if c != nil { c.Add(ctx, value, attributes) }`
unfoldable pub add : ℤ → Attributes → Instrument → Instrument
add value attributes none = none
add value attributes (some ms) = some (record { value = value; attributes = attributes } ∷ ms)

pub data SpanStatus : Type 0 where
  unset fine : SpanStatus
  error : Text → SpanStatus

-- An event of a span: a named one, or a recorded error with its message.
pub data SpanEvent : Type 0 where
  named : Text → Attributes → SpanEvent
  recorded_error : Text → Attributes → SpanEvent

pub record Span : Type 0 where
  pub attributes : Attributes
  pub events : List SpanEvent
  pub status : SpanStatus
  pub recording : Bool

-- The context of a caller: `none` carries no span, as `context.Background()` does.
abbrev pub Ctx : Type 0
Ctx = Option Span

pub record RequestTracer : Type 0 where
  pub span : Span
  pub start_time : ℕ
  pub endpoint : Text
  pub method : Text
  pub user_hash : Text

-- The attribute of a user, where there is a hash.
abbrev pub with_user_hash : Text → Attributes → Attributes
with_user_hash user_hash attrs =
    if is_empty user_hash then attrs else attrs ++ ((codes "user_hash", string user_hash) ∷ [])

abbrev span_attributes : Text → Text → Text → Attributes
span_attributes method endpoint user_hash = with_user_hash user_hash (
    (codes "http.request.method", string method)
    ∷ (codes "url.path", string endpoint)
    ∷ (codes "amizone.endpoint", string endpoint)
    ∷ [])

-- `StartRequest`, at the time `now`; `sampled` says whether the new span records.
unfoldable pub start_request : Hub → ℕ → Bool → Text → Text → Text → Hub × RequestTracer
unfolding add
start_request h now sampled method endpoint user_hash = (
  record h { active_requests = add (pos 1) [] h.active_requests },
  record {
    span = record {
      attributes = span_attributes method endpoint user_hash;
      events = [];
      status = unset;
      recording = sampled;
    };
    start_time = now;
    endpoint = endpoint;
    method = method;
    user_hash = user_hash;
  },
)

abbrev has_error : Option Text → Bool
has_error none = false
has_error (some e) = true

-- The status of the span, where `status_text` is `http.StatusText`.
abbrev span_status : (ℕ → Text) → ℕ → Option Text → SpanStatus
span_status status_text status_code (some e) = error e
span_status status_text status_code none =
    if leb 400 status_code then error (status_text status_code) else fine

abbrev record_error_in : Option Text → List SpanEvent → List SpanEvent
record_error_in none events = events
record_error_in (some e) events = events ++ (recorded_error e [] ∷ [])

-- A request that the metrics count as a success.
unfoldable pub is_success : ℕ → Option Text → Bool
is_success status_code err = not (has_error err) && ltb status_code 400

unfoldable pub request_attributes : RequestTracer → ℕ → Option Text → Attributes
unfolding is_success
request_attributes rt status_code err = with_user_hash rt.user_hash (
    (codes "method", string rt.method)
    ∷ (codes "endpoint", string rt.endpoint)
    ∷ (codes "status_code", number status_code)
    ∷ (codes "success", boolean (is_success status_code err))
    ∷ [])

-- `time.Since(rt.startTime).Milliseconds()`
abbrev duration : RequestTracer → ℕ → ℕ
duration rt now = (now - rt.start_time) / 1000000

-- The span when the request ends.
unfoldable pub end_span : (ℕ → Text) → RequestTracer → ℕ → ℕ → Option Text → Span
end_span status_text rt now status_code err =
    if rt.span.recording
    then record rt.span {
      attributes =
          rt.span.attributes
          ++ ((codes "http.response.status_code", number status_code)
              ∷ (codes "http.duration_ms", number (duration rt now))
              ∷ []);
      events = record_error_in err rt.span.events;
      status = span_status status_text status_code err;
      recording = false;
    }
    else rt.span

-- `End`, at the time `now`.
unfoldable pub end : (ℕ → Text) → Hub → RequestTracer → ℕ → ℕ → Option Text → Hub × RequestTracer
unfolding add end_span request_attributes
end status_text h rt now status_code err = (
  record h {
    request_counter = add (pos 1) (request_attributes rt status_code err) h.request_counter;
    request_duration =
        add (pos (duration rt now)) (request_attributes rt status_code err) h.request_duration;
    active_requests = add (negsuc 0) [] h.active_requests;
    error_counter =
        if has_error err
        then add (pos 1)
            ((codes "error_type", string (codes "request"))
              ∷ (codes "endpoint", string rt.endpoint)
              ∷ [])
            h.error_counter
        else h.error_counter;
  },
  record rt { span = end_span status_text rt now status_code err },
)

-- `span.AddEvent` on the span of a context, if it records.
abbrev add_event : SpanEvent → Ctx → Ctx
add_event event none = none
add_event event (some span) =
    some (if span.recording then record span { events = span.events ++ (event ∷ []) } else span)

-- `RecordCFChallenge`
unfoldable pub record_cf_challenge : Ctx → Hub → Text → Bool → Ctx × Hub
unfolding add
record_cf_challenge ctx h endpoint solved =
    let attrs : Attributes =
      (codes "endpoint", string endpoint) ∷ (codes "solved", boolean solved) ∷ [] in
    (
      add_event (named (codes "cloudflare_challenge") attrs) ctx,
      record h { cf_challenge_counter = add (pos 1) attrs h.cf_challenge_counter },
    )

-- `RecordLogin`, with the duration in nanoseconds.
unfoldable pub record_login : Ctx → Hub → Bool → ℕ → Text → Ctx × Hub
unfolding add
record_login ctx h success duration user_hash = (
  add_event
      (named (codes "login_attempt") (
        with_user_hash user_hash (
          (codes "success", boolean success)
          ∷ (codes "duration_ms", number (duration / 1000000))
          ∷ [])))
      ctx,
  record h {
    login_attempt_counter =
        add (pos 1) (with_user_hash user_hash ((codes "success", boolean success) ∷ []))
          h.login_attempt_counter;
  },
)

-- `RecordError`
unfoldable pub record_error : Ctx → Hub → Text → Text → Ctx × Hub
unfolding add
record_error ctx h error_type err =
    let attrs : Attributes = (codes "error_type", string error_type) ∷ [] in
    (
      add_event (recorded_error err attrs) ctx,
      record h { error_counter = add (pos 1) attrs h.error_counter },
    )
