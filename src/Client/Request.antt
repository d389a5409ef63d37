-- ===== src/Client/Request.antt =====
-- amizone/requests.go: composing a request, sending it and reading the answer. A body is a reader:
-- `none` is nil, `some t` a reader with `t` left to read.
pub mod Answers
use go_amizone.Base.{
  [], ◌∷◌, ◌++◌, Option, none, some, Text, codes, is_empty, text_eq, Map, insert, decimal, fail,
  ◌==◌, if◌then◌else◌,
}
use go_amizone.Client.Types.{Env, Request, Response, M, ◌>>=◌, throw, return, wrap, no_credentials}

abbrev pub base_url : Text
base_url = codes "https://s.amizone.net"

abbrev pub firefox_user_agent : Text
firefox_user_agent =
    codes "Mozilla/5.0 (Windows NT 10.0; Win64; x64; rv:135.0) Gecko/20100101 Firefox/135.0"

abbrev pub post : Text
post = codes "POST"

abbrev pub method_get : Text
method_get = codes "GET"

-- The headers of the caller whose values are not empty.
set_extra : Map Text → Map Text → Map Text
set_extra [] headers = headers
set_extra ((key, value) ∷ extra) headers =
    set_extra extra (if is_empty value then headers else insert key value headers)

unfoldable pub headers_for : Text → Map Text → Map Text
unfolding set_extra
headers_for method extra =
    let common : Map Text = insert (codes "Origin") base_url (
      insert (codes "Referer") (base_url ++ codes "/")
        (insert (codes "User-Agent") firefox_user_agent [])) in
    set_extra extra (
      if text_eq method post
      then insert (codes "Content-Type") (codes "application/x-www-form-urlencoded") common
      else common)

-- What is left to read of a body.
abbrev pub unread : Option Text → Text
unread none = []
unread (some t) = t

-- A body after it was sent.
abbrev pub drained : Option Text → Option Text
drained none = none
drained (some t) = some []

abbrev pub err_failed_to_compose_request : Text
err_failed_to_compose_request = codes "internal failure: failed to compose request"

abbrev pub err_failed_to_visit_page : Text
err_failed_to_visit_page = codes "failed to visit page"

abbrev pub err_non_200_status_code : Text
err_non_200_status_code = codes "received non-200 status code from amizone - is it down?"

abbrev pub err_failed_to_read_response : Text
err_failed_to_read_response = codes "failed to read response body"

abbrev pub err_invalid_credentials_left : Text
err_invalid_credentials_left = codes "failed to login: invalid credentials"

module _ (env : Env) where
  -- `a.httpClient.Do(req)`
  abbrev http_do : Request → M Response
  http_do req s = (record s { sent = req ∷ s.sent }, env.transport (req ∷ s.sent))

  -- The answer's status, and its body as a fresh reader.
  abbrev check_response : Response → M Response
  check_response response =
      if response.status_code == 200
      then elim response.body [
        | none ↦ throw err_failed_to_read_response
        | some body ↦ return response
      ]
      else throw (err_non_200_status_code ++ (codes ": " ++ decimal response.status_code))

  -- `http.NewRequest` up to the reading of the body.
  unfoldable pub perform : Text → Text → Option Text → Map Text → M Response
  unfolding headers_for
  perform method endpoint body extra s =
      if env.composes method (base_url ++ endpoint)
      then (wrap (λ e. err_failed_to_visit_page ++ (codes ": " ++ e))
              (http_do (record {
                method = method;
                url = base_url ++ endpoint;
                headers = headers_for method extra;
                content = unread body;
              }))
            >>= check_response)
          s
      else (s, fail err_failed_to_compose_request)

  -- `doRequestWithHeaders` with `tryLogin` false.
  unfoldable pub fetch : Text → Text → Option Text → Map Text → M Response
  unfolding no_credentials
  fetch method endpoint body extra s =
      if no_credentials s.credentials
      then (s, fail err_invalid_credentials_left)
      else perform method endpoint body extra s
