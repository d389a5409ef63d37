-- ===== src/Client/Retry/Traced.antt =====
-- amizone/requests.go: `doRequestWithHeaders` with the locals `statusCode` and `reqErr`, which its
-- deferred call hands to `End` of amizone/instrumentation. The requests of the logins and the repeated
-- request are calls of their own with their own traces.
pub mod Marks
use go_amizone.Base.{
  ℕ, Bool, true, false, not, Option, none, some, Text, codes, Map, ◌∷◌, ◌++◌, decimal, Result, ok,
  fail, panic, ◌==◌, if◌then◌else◌,
}
use go_amizone.Parse.Session.{is_logged_in}
use go_amizone.Client.Types.{Env, State, Request, Response, no_credentials}
use go_amizone.Client.Request.{
  unread, drained, base_url, headers_for, err_failed_to_compose_request, err_failed_to_visit_page,
  err_non_200_status_code, err_failed_to_read_response, err_invalid_credentials_left,
}
use go_amizone.Client.Login.{login, err_failed_login}

-- `statusCode` and `reqErr` when the method ends.
pub record TraceEnd : Type 0 where
  pub status_code : ℕ
  pub req_err : Option Text

abbrev ended_with : ℕ → Text → TraceEnd
ended_with status_code e = record { status_code = status_code; req_err = some e }

abbrev ended_without : ℕ → TraceEnd
ended_without status_code = record { status_code = status_code; req_err = none }

-- The result of the method, and what `End` is given.
abbrev pub Traced : Type 0
Traced = State × Result Response × TraceEnd

abbrev failed : State → ℕ → Text → Traced
failed s status_code e = (s, fail e, ended_with status_code e)

abbrev returned : Traced → State × Result Response
returned (s, r, ended) = (s, r)

-- The checks of an answer.
check_answer : Response → State → Traced
check_answer response s =
    if response.status_code == 200
    then elim response.body [
      | none ↦ failed s response.status_code err_failed_to_read_response
      | some body ↦ (s, ok response, ended_without response.status_code)
    ]
    else failed s response.status_code
        (err_non_200_status_code ++ (codes ": " ++ decimal response.status_code))

module _ (env : Env) (method endpoint : Text) (extra : Map Text) where
  abbrev request_of : Option Text → Request
  request_of body = record {
    method = method;
    url = base_url ++ endpoint;
    headers = headers_for method extra;
    content = unread body;
  }

  -- From the composition of the request to the reading of its answer.
  traced_perform : Option Text → State → Traced
  unfolding check_answer
  traced_perform body s =
      if env.composes method (base_url ++ endpoint)
      then (let t : State = record s { sent = request_of body ∷ s.sent } in
          elim (env.transport (request_of body ∷ s.sent)) [
            | ok response ↦ check_answer response t
            | fail e ↦ failed t 0 (err_failed_to_visit_page ++ (codes ": " ++ e))
            | panic ↦ (t, panic, ended_without 0)
          ])
      else failed s 0 err_failed_to_compose_request

  -- `tryLogin` false.
  traced_fetch : Option Text → State → Traced
  unfolding traced_perform
  traced_fetch body s =
      if no_credentials s.credentials
      then failed s 0 err_invalid_credentials_left
      else traced_perform body s

  -- The retry after the answer `page`: the trace of this call ends with what the page left.
  traced_retry : Option Text → Response → TraceEnd → State → Traced
  unfolding traced_fetch
  traced_retry body page ended t =
      if not (is_logged_in env.html (unread page.body))
      then (let (u, logged) = login env true t in
          elim logged [
            | ok _ ↦ let (v, r, inner) = traced_fetch (drained body) u in (v, r, ended)
            | fail e ↦ failed u ended.status_code err_failed_login
            | panic ↦ (u, panic, ended)
          ])
      else (t, ok page, ended)

  -- After the login that comes first.
  abbrev after_first_login : Option Text → State × Result (Unit {0}) → Traced
  after_first_login body (t, ok _) = traced_perform body t
  after_first_login body (t, fail e) = failed t 0 e
  after_first_login body (t, panic) = (t, panic, ended_without 0)

  -- After the request, where the client had logged in.
  abbrev after_request : Option Text → Traced → Traced
  after_request body (t, ok page, ended) = traced_retry body page ended t
  after_request body (t, fail e, ended) = (t, fail e, ended)
  after_request body (t, panic, ended) = (t, panic, ended)

  pub traced_do_request : Option Text → Bool → State → Traced
  unfolding traced_fetch traced_retry
  traced_do_request body false s = traced_fetch body s
  traced_do_request body true s =
      if no_credentials s.credentials
      then failed s 0 err_invalid_credentials_left
      else (if not s.did_login
          then after_first_login body (login env false s)
          else after_request body (traced_perform body s))
