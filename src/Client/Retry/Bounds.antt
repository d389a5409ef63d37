-- ===== src/Client/Retry/Bounds.antt =====
-- How many times one call of `doRequestWithHeaders` calls http.Client.Do.
use go_amizone.Base.{Bool, true, false, Option, Text, Map, arith, if◌then◌else◌}
use go_amizone.Client.Types.{Env, State, Response, wrap}
use go_amizone.Client.Request.{drained, fetch, perform}
use go_amizone.Client.Login.{login, err_failed_login}
use go_amizone.Client.Login.Frame.{
  Frame, Within, Within-bind, Within-wrap, login-Within, fetch-Within, perform-Within,
}
use go_amizone.Client.Retry.{retry, do_request_with_headers}

module _ (env : Env) (method endpoint : Text) (body : Option Text) (extra : Map Text) where
  retry-Within : (response : Response) → Within 3 (retry env method endpoint body extra response)
  unfolding retry
  retry-Within response s = ground (
    arith,
    Within-bind 2 1 (wrap (λ e. err_failed_login) (login env true))
        (λ _. fetch env method endpoint (drained body) extra)
        (Within-wrap 2 (λ e. err_failed_login) (login env true) (login-Within env true))
        (λ _. fetch-Within env method endpoint (drained body) extra) s,
  )

  -- In a request that may log in the client calls http.Client.Do at most four times, in any other at
  -- most once; none resets the record of a login or changes the credentials. The requests of the solver
  -- within a login and the redirects that Do follows are not counted.
  pub do_request-Frame :
      (try_login : Bool) (s : State)
      → Frame
          (if try_login then 4 else 1)
          s
          (do_request_with_headers env method endpoint body extra try_login s).0
  unfolding do_request_with_headers
  do_request-Frame false s = fetch-Within env method endpoint body extra s
  do_request-Frame true s = ground (
    arith,
    Within-bind 2 1 (login env false) (λ _. perform env method endpoint body extra)
        (login-Within env false) (λ _. perform-Within env method endpoint body extra) s,
    Within-bind 1 3 (perform env method endpoint body extra) (retry env method endpoint body extra)
        (perform-Within env method endpoint body extra) retry-Within s,
  )
