-- ===== src/Client/Retry.antt =====
-- amizone/requests.go: `doRequestWithHeaders`, which logs in before the request if the client never
-- did, and after it if the answer is the login page.
pub mod Bounds
pub mod Results
pub mod Traced
use go_amizone.Base.{Bool, true, false, not, Option, Text, Map, fail, if◌then◌else◌, []}
use go_amizone.Parse.Session.{is_logged_in}
use go_amizone.Client.Types.{Env, Response, M, ◌>>=◌, ◌>>◌, return, wrap, no_credentials}
use go_amizone.Client.Request.{unread, drained, fetch, perform, err_invalid_credentials_left}
use go_amizone.Client.Login.{login, err_failed_login}

module _ (env : Env) (method endpoint : Text) (body : Option Text) (extra : Map Text) where
  -- The end of the method with `tryLogin` true: on the login page, log in by force and send the
  -- request once more, with the same reader for its body.
  retry : Response → M Response
  unfolding fetch is_logged_in login
  retry response =
      if not (is_logged_in env.html (unread response.body))
      then (do
        wrap (λ e. err_failed_login) (login env true)
        fetch env method endpoint (drained body) extra)
      else return response

  unfoldable pub do_request_with_headers : Bool → M Response
  unfolding perform retry
  do_request_with_headers false s = fetch env method endpoint body extra s
  do_request_with_headers true s =
      if no_credentials s.credentials
      then (s, fail err_invalid_credentials_left)
      else (if not s.did_login
          then (do login env false; perform env method endpoint body extra) s
          else (do response ← perform env method endpoint body extra; retry response) s)

-- `doRequest`
abbrev pub do_request : Env → Bool → Text → Text → Option Text → M Response
do_request env try_login method endpoint body =
    do_request_with_headers env method endpoint body [] try_login
