-- ===== src/Client/Retry/Traced/Marks.antt =====
-- What the metrics say of a call of `doRequestWithHeaders`, beside what it returns.
use go_amizone.Base.{
  Bool, true, false, not, ◌||◌, ◌≡◌, refl, sym, ap, ◌∙◌, Option, Text, Map, Result, ok, fail, panic,
  if◌then◌else◌, arith,
}
use go_amizone.Parse.Session.{is_logged_in}
use go_amizone.Client.Types.{Env, State, Response, ◌>>=◌, no_credentials}
use go_amizone.Client.Request.{unread, drained, fetch, perform, err_invalid_credentials_left}
use go_amizone.Client.Login.{login}
use go_amizone.Client.Retry.{retry, do_request_with_headers}
use go_amizone.Instrumentation.Requests.{is_success}
use go_amizone.Client.Retry.Traced.{
  TraceEnd, Traced, failed, check_answer, traced_perform, traced_fetch, traced_retry,
  after_first_login, after_request, traced_do_request, returned,
}

or_false : (b : Bool) → (b || false) ≡ b
or_false true = refl
or_false false = refl

-- The metrics count the call as a success.
abbrev pub counts_as_success : TraceEnd → Bool
counts_as_success ended = is_success ended.status_code ended.req_err

-- The call did not return an error.
abbrev pub no_error : Result Response → Bool
no_error (ok response) = true
no_error (fail e) = false
no_error panic = true

module _ (env : Env) (method endpoint : Text) (extra : Map Text) where
  perform_same :
      (body : Option Text) (s : State)
      → returned (traced_perform env method endpoint extra body s)
        ≡ perform env method endpoint body extra s
  unfolding traced_perform perform check_answer
  perform_same body s = ground arith

  fetch_same :
      (body : Option Text) (s : State)
      → returned (traced_fetch env method endpoint extra body s)
        ≡ fetch env method endpoint body extra s
  unfolding traced_fetch fetch
  fetch_same body s = ground (arith, perform_same body s)

  retry_same :
      (body : Option Text) (page : Response) (ended : TraceEnd) (t : State)
      → returned (traced_retry env method endpoint extra body page ended t)
        ≡ retry env method endpoint body extra page t
  unfolding traced_retry retry
  retry_same body page ended t = ground (arith, fetch_same (drained body) (login env true t).0)

  after_first_login_same :
      (body : Option Text) (s : State) (x : State × Result (Unit {0}))
      → returned (after_first_login env method endpoint extra body x)
        ≡ ((λ _. x) >>= λ _. perform env method endpoint body extra) s
  after_first_login_same body s (t, ok _) = perform_same body t
  after_first_login_same body s (t, fail e) = refl
  after_first_login_same body s (t, panic) = refl

  after_request_same :
      (body : Option Text) (s : State) (x : Traced)
      → returned (after_request env method endpoint extra body x)
        ≡ ((λ _. returned x) >>= retry env method endpoint body extra) s
  after_request_same body s (t, ok page, ended) = retry_same body page ended t
  after_request_same body s (t, fail e, ended) = refl
  after_request_same body s (t, panic, ended) = refl

  request_first :
      (body : Option Text) (s : State)
      → returned (
          after_request env method endpoint extra body
            (traced_perform env method endpoint extra body s))
        ≡ (perform env method endpoint body extra >>= retry env method endpoint body extra) s
  request_first body s =
      after_request_same body s (traced_perform env method endpoint extra body s)
      ∙ ap {B = State × Result Response}
          (λ x. ((λ _. x) >>= retry env method endpoint body extra) s) (perform_same body s)

  -- The trace leaves the method as it is.
  do_request_same :
      (body : Option Text) (try_login : Bool) (s : State)
      → returned (traced_do_request env method endpoint extra body try_login s)
        ≡ do_request_with_headers env method endpoint body extra try_login s
  unfolding traced_do_request do_request_with_headers
  do_request_same body false s = fetch_same body s
  do_request_same body true s =
      branch (no_credentials s.credentials) s.did_login _ _ _ _
        (after_first_login_same body s (login env false s)) (request_first body s)
    where
      branch :
          (anonymous did : Bool) (x y : Traced) (p q : State × Result Response)
          → returned x ≡ p
          → returned y ≡ q
          → returned (
              if anonymous
              then failed s 0 err_invalid_credentials_left
              else (if not did then x else y))
            ≡ (if anonymous
                then (s, fail err_invalid_credentials_left)
                else (if not did then p else q))
      branch true did x y p q e f = refl
      branch false false x y p q e f = e
      branch false true x y p q e f = f

  -- After the answer `page` the login by force succeeds, so the request is sent once more.
  abbrev repeats_after : Response → State → Bool
  repeats_after page t =
      if is_logged_in env.html (unread page.body)
      then false
      else elim (login env true t).1 [ ok _ ↦ true | fail e ↦ false | panic ↦ false ]

  -- Whether the call repeats after the first answer.
  abbrev repeats_from : State × Result Response → Bool
  repeats_from (t, ok page) = repeats_after page t
  repeats_from (t, fail e) = false
  repeats_from (t, panic) = false

  -- The call sends its request a second time.
  abbrev pub repeats : Option Text → Bool → State → Bool
  repeats body false s = false
  repeats body true s =
      if no_credentials s.credentials
      then false
      else (if s.did_login then repeats_from (perform env method endpoint body extra s) else false)

  perform_marks :
      (body : Option Text) (s : State)
      → counts_as_success (traced_perform env method endpoint extra body s).2
        ≡ no_error (traced_perform env method endpoint extra body s).1
  unfolding traced_perform check_answer is_success
  perform_marks body s = ground arith

  fetch_marks :
      (body : Option Text) (s : State)
      → counts_as_success (traced_fetch env method endpoint extra body s).2
        ≡ no_error (traced_fetch env method endpoint extra body s).1
  unfolding traced_fetch is_success
  fetch_marks body s = ground (arith, perform_marks body s)

  retry_marks :
      (body : Option Text) (page : Response) (ended : TraceEnd) (t : State)
      → is_success ended.status_code ended.req_err ≡ true
      → counts_as_success (traced_retry env method endpoint extra body page ended t).2 ≡ (
          no_error (traced_retry env method endpoint extra body page ended t).1
          || repeats_after page t)
  unfolding traced_retry is_success
  retry_marks body page ended t h = ground arith

  after_first_login_marks :
      (body : Option Text) (x : State × Result (Unit {0}))
      → counts_as_success (after_first_login env method endpoint extra body x).2
        ≡ no_error (after_first_login env method endpoint extra body x).1
  unfolding is_success
  after_first_login_marks body (t, ok _) = perform_marks body t
  after_first_login_marks body (t, fail e) = refl
  after_first_login_marks body (t, panic) = refl

  after_request_marks :
      (body : Option Text) (x : Traced)
      → counts_as_success x.2 ≡ no_error x.1
      → counts_as_success (after_request env method endpoint extra body x).2
        ≡ (no_error (after_request env method endpoint extra body x).1 || repeats_from (returned x))
  after_request_marks body (t, ok page, ended) h = retry_marks body page ended t h
  after_request_marks body (t, fail e, ended) h = h
  after_request_marks body (t, panic, ended) h = h

  traced_marks :
      (body : Option Text) (try_login : Bool) (s : State)
      → counts_as_success (traced_do_request env method endpoint extra body try_login s).2 ≡ (
          no_error (traced_do_request env method endpoint extra body try_login s).1
          || repeats body try_login s)
  unfolding traced_do_request is_success
  traced_marks body false s =
      fetch_marks body s
      ∙ sym (or_false (no_error (traced_fetch env method endpoint extra body s).1))
  traced_marks body true s =
      branch (no_credentials s.credentials) s.did_login _ _ _
        (after_first_login_marks body (login env false s))
        (after_request_marks body (traced_perform env method endpoint extra body s)
            (perform_marks body s)
          ∙ ap
              (λ x.
                no_error
                  (after_request env method endpoint extra body
                    (traced_perform env method endpoint extra body s)).1
                || repeats_from x)
              (perform_same body s))
    where
      branch :
          (anonymous did : Bool) (x y : Traced) (again : Bool)
          → counts_as_success x.2 ≡ no_error x.1
          → counts_as_success y.2 ≡ (no_error y.1 || again)
          → counts_as_success
              (if anonymous
                then failed s 0 err_invalid_credentials_left
                else (if not did then x else y)).2
            ≡ (no_error
                  (if anonymous
                    then failed s 0 err_invalid_credentials_left
                    else (if not did then x else y)).1
                || (if anonymous then false else (if did then again else false)))
      branch true did x y again e f = refl
      branch false false x y again e f = e ∙ sym (or_false (no_error x.1))
      branch false true x y again e f = f

  -- The metrics count a call of doRequestWithHeaders as a success exactly if it does not return an
  -- error, or if it sends its request a second time after an expired session, also where that fails.
  pub do_request_marks :
      (body : Option Text) (try_login : Bool) (s : State)
      → counts_as_success (traced_do_request env method endpoint extra body try_login s).2 ≡ (
          no_error (do_request_with_headers env method endpoint body extra try_login s).1
          || repeats body try_login s)
  do_request_marks body try_login s =
      traced_marks body try_login s
      ∙ ap (λ x. no_error x.1 || repeats body try_login s) (do_request_same body try_login s)
