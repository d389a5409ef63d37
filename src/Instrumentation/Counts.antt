-- ===== src/Instrumentation/Counts.antt =====
-- What the instruments hold while requests and logins come in any order, after `Init`.
use go_amizone.Base.{
  ℕ, suc, ◌+◌, ℤ, pos, negsuc, Bool, ◌≡◌, refl, List, [], ◌∷◌, ◌++◌, Option, none, some, Text,
  codes, text_eq, is_empty, lookup, map, length, length-append, ap, arith, Bool-cases, inl, inr,
}
use mathlib.Core.Path.{ap₂}
use go_amizone.Instrumentation.{AttributeValue, boolean, Attributes, Measurement, Instrument, Hub}
use go_amizone.Instrumentation.Requests.{
  add, Ctx, RequestTracer, start_request, end, is_success, request_attributes, record_cf_challenge,
  record_login,
}
use go_amizone.Instrumentation.Setup.{IsReady}

-- The package with the requests that are open, what the ended ones had for `End`, and the logins.
pub record Tracing : Type 0 where
  pub hub : Hub
  pub open_requests : List RequestTracer
  pub ended : List (ℕ × Option Text)
  pub logins : List Bool

abbrev pub idle : Hub → Tracing
idle h = record { hub = h; open_requests = []; ended = []; logins = [] }

module _ (status_text : ℕ → Text) where
  -- A request starts, one of the open requests ends, or a login or a challenge is recorded.
  pub data Step (s : Tracing) : Tracing → Type 0 where
    starts :
        (now : ℕ) (sampled : Bool) (method endpoint user_hash : Text)
        → Step s (record s {
          hub = (start_request s.hub now sampled method endpoint user_hash).0;
          open_requests =
              (start_request s.hub now sampled method endpoint user_hash).1 ∷ s.open_requests;
        })
    ends :
        (before : List RequestTracer) (rt : RequestTracer) (after : List RequestTracer)
        → s.open_requests ≡ before ++ (rt ∷ after)
        → (now status_code : ℕ) (err : Option Text)
        → Step s (record s {
          hub = (end status_text s.hub rt now status_code err).0;
          open_requests = before ++ after;
          ended = (status_code, err) ∷ s.ended;
        })
    logs_in :
        (ctx : Ctx) (success : Bool) (duration : ℕ) (user_hash : Text)
        → Step s (record s {
          hub = (record_login ctx s.hub success duration user_hash).1;
          logins = success ∷ s.logins;
        })
    meets_challenge :
        (ctx : Ctx) (endpoint : Text) (solved : Bool)
        → Step s (record s { hub = (record_cf_challenge ctx s.hub endpoint solved).1 })

  pub data Reach (s : Tracing) : Tracing → Type 0 where
    here : Reach s s
    next : (t u : Tracing) → Reach s t → Step t u → Reach s u

-- The sums of what an instrument rose and fell by; it must be there.
abbrev rise : ℤ → ℕ
rise (pos n) = n
rise (negsuc n) = 0

abbrev fall : ℤ → ℕ
fall (pos n) = 0
fall (negsuc n) = suc n

abbrev pub risen : List Measurement → ℕ
risen [] = 0
risen (m ∷ ms) = rise m.value + risen ms

abbrev pub fallen : List Measurement → ℕ
fallen [] = 0
fallen (m ∷ ms) = fall m.value + fallen ms

abbrev pub failures : List (ℕ × Option Text) → ℕ
failures [] = 0
failures ((status_code, none) ∷ rs) = failures rs
failures ((status_code, some e) ∷ rs) = 1 + failures rs

-- The instrument is there and its measurements sum up to `up` less `down`.
pub record Sums (i : Instrument) (up down : ℕ) : Type 0 where
  pub measured : List Measurement
  pub same : i ≡ some measured
  pub ups : risen measured ≡ up
  pub downs : fallen measured ≡ down

-- The mark of success that a measurement carries.
abbrev pub success_of : Measurement → Option AttributeValue
success_of m = lookup (codes "success") m.attributes

abbrev pub outcome_of : ℕ × Option Text → Option AttributeValue
outcome_of (status_code, err) = some (boolean (is_success status_code err))

-- The instrument has one measurement for each result, with its mark of success.
pub record Recorded (i : Instrument) (results : List (ℕ × Option Text)) : Type 0 where
  pub measured : List Measurement
  pub same : i ≡ some measured
  pub ups : risen measured ≡ length results
  pub marks : map success_of measured ≡ map outcome_of results

pub record Counted (s : Tracing) : Type 0 where
  pub active : Sums s.hub.active_requests (length s.open_requests + length s.ended) (length s.ended)
  pub requests : Recorded s.hub.request_counter s.ended
  pub errors : Sums s.hub.error_counter (failures s.ended) 0
  pub attempts : Sums s.hub.login_attempt_counter (length s.logins) 0

add-Sums :
    (v : ℤ) (attrs : Attributes) (i : Instrument) (up down up' down' : ℕ)
    → up' ≡ rise v + up
    → down' ≡ fall v + down
    → Sums i up down
    → Sums (add v attrs i) up' down'
unfolding add
add-Sums v attrs i up down up' down' p q s = record {
  measured = record { value = v; attributes = attrs } ∷ s.measured;
  same = rw s.same refl;
  ups = omega (arith, s.ups, p);
  downs = omega (arith, s.downs, q);
}

request_attributes-success :
    (rt : RequestTracer) (status_code : ℕ) (err : Option Text)
    → lookup (codes "success") (request_attributes rt status_code err)
      ≡ some (boolean (is_success status_code err))
unfolding request_attributes lookup text_eq
request_attributes-success rt status_code err = elim (Bool-cases (is_empty rt.user_hash)) [
  | inl e ↦ rw e refl
  | inr e ↦ rw e refl
]

add-Recorded :
    (rt : RequestTracer) (status_code : ℕ) (err : Option Text) (i : Instrument)
    (results : List (ℕ × Option Text))
    → Recorded i results
    → Recorded
        (add (pos 1) (request_attributes rt status_code err) i)
        ((status_code, err) ∷ results)
unfolding add
add-Recorded rt status_code err i results s = record {
  measured =
      record { value = pos 1; attributes = request_attributes rt status_code err } ∷ s.measured;
  same = rw s.same refl;
  ups = omega (arith, s.ups);
  marks = ap₂ ◌∷◌ (request_attributes-success rt status_code err) s.marks;
}

length-close :
    (open_requests before after : List RequestTracer) (rt : RequestTracer) (n : ℕ)
    → open_requests ≡ before ++ (rt ∷ after)
    → length (before ++ after) + suc n ≡ length open_requests + n
length-close open_requests before after rt n same =
    omega (arith, ap length same, length-append before (rt ∷ after), length-append before after)

closing :
    (s : Tracing) (before : List RequestTracer) (rt : RequestTracer) (after : List RequestTracer)
    → s.open_requests ≡ before ++ (rt ∷ after)
    → Counted s
    → Sums
        (add (negsuc 0) [] s.hub.active_requests)
        (length (before ++ after) + suc (length s.ended))
        (suc (length s.ended))
closing s before rt after same c =
    add-Sums (negsuc 0) [] s.hub.active_requests _ _ _ _
      (omega (arith, length-close s.open_requests before after rt (length s.ended) same))
      (omega arith) c.active

Step-Counted :
    (status_text : ℕ → Text) (s t : Tracing) → Step status_text s t → Counted s → Counted t
unfolding start_request end record_login record_cf_challenge
Step-Counted status_text s t (starts now sampled method endpoint user_hash) c = record {
  active = add-Sums (pos 1) [] s.hub.active_requests _ _ _ _ (omega arith) (omega arith) c.active;
  requests = c.requests;
  errors = c.errors;
  attempts = c.attempts;
}
Step-Counted status_text s t (ends before rt after same now status_code none) c = record {
  active = closing s before rt after same c;
  requests = add-Recorded rt status_code none s.hub.request_counter s.ended c.requests;
  errors = c.errors;
  attempts = c.attempts;
}
Step-Counted status_text s t (ends before rt after same now status_code (some e)) c = record {
  active = closing s before rt after same c;
  requests = add-Recorded rt status_code (some e) s.hub.request_counter s.ended c.requests;
  errors = add-Sums (pos 1) _ s.hub.error_counter _ _ _ _ (omega arith) (omega arith) c.errors;
  attempts = c.attempts;
}
Step-Counted status_text s t (logs_in ctx success duration user_hash) c = record {
  active = c.active;
  requests = c.requests;
  errors = c.errors;
  attempts =
      add-Sums (pos 1) _ s.hub.login_attempt_counter _ _ _ _ (omega arith) (omega arith) c.attempts;
}
Step-Counted status_text s t (meets_challenge ctx endpoint solved) c = record {
  active = c.active;
  requests = c.requests;
  errors = c.errors;
  attempts = c.attempts;
}

-- From the first hub on, whatever the order of requests and logins: the active requests that are
-- counted are those that have started and not ended, each request that ended is counted once with
-- its own mark of success, the errors are the requests that ended with one, and each login is counted.
pub Reach-Counted :
    (status_text : ℕ → Text) (h : Hub) (s : Tracing)
    → IsReady h
    → Reach status_text (idle h) s
    → Counted s
Reach-Counted status_text h s ready here = record {
  active = record { measured = []; same = ready.active; ups = refl; downs = refl };
  requests = record { measured = []; same = ready.requests; ups = refl; marks = refl };
  errors = record { measured = []; same = ready.errors; ups = refl; downs = refl };
  attempts = record { measured = []; same = ready.logins; ups = refl; downs = refl };
}
Reach-Counted status_text h s ready (next t u reach step) =
    Step-Counted status_text t s step (Reach-Counted status_text h t ready reach)
