-- ===== src/Client/Login.antt =====
-- amizone/amizone.go: `login`. Its deferred call records the outcome; `login_body` is the rest, whose
-- result is the local `loginSuccess` where the method returns nil.
pub mod Attempts
pub mod Frame
pub mod Form
pub mod Outcome
pub mod Pace
use go_amizone.Base.{
  ℕ, ◌-◌, Bool, true, false, not, [], ◌∷◌, ◌++◌, none, some, Text, codes, is_empty, text_eq, Map,
  insert, encode, ltb, minutes, hours, Result, ok, fail, panic, if◌then◌else◌,
}
use go_amizone.Parse.Session.{is_logged_in}
use go_amizone.Parse.LoginForm.{LoginFormFields, parse_login_form}
use go_amizone.Client.Types.{
  Env, State, Response, Credentials, M, ◌>>=◌, ◌>>◌, throw, return, wrap, lift, now,
  has_session_cookies,
}
use go_amizone.Client.Request.{base_url, method_get, post, unread, fetch}

abbrev pub err_failed_login : Text
err_failed_login = codes "failed to login"

abbrev pub err_invalid_credentials : Text
err_invalid_credentials = codes "failed to login: invalid credentials"

abbrev pub err_login_page : Text
err_login_page = codes "failed to login: internal failure: failed to parse page"

abbrev pub err_login_throttled : Text
err_login_throttled = codes "login throttled"

abbrev pub login_request_endpoint : Text
login_request_endpoint = codes "/"

-- An optional field of the form is sent if the page has it.
abbrev set_if_present : Text → Text → Map Text → Map Text
set_if_present key value form = if is_empty value then form else insert key value form

-- The form data before the CAPTCHA.
unfoldable pub login_form_data : Credentials → LoginFormFields → Map Text
login_form_data c f = set_if_present (codes "Challenge") f.challenge (
    set_if_present (codes "Signature") f.signature (
      set_if_present (codes "SecretNumber") f.secret_number (
        set_if_present (codes "Salt") f.salt (
          insert (codes "honeypot") [] (
            insert (codes "_QString") [] (
              insert (codes "_Password") c.password (
                insert (codes "_UserName") c.username
                  (insert (codes "__RequestVerificationToken") f.verification_token []))))))))

-- The form data with a Turnstile token.
unfoldable pub with_turnstile_token : Text → Map Text → Map Text
with_turnstile_token token form =
    insert (codes "cf-turnstile-response") token
      (insert (codes "_QString") (codes "test") (insert (codes "RecaptchaToken") token form))

module _ (env : Env) where
  -- The client's cookies say that it is logged in.
  abbrev pub jar_logged_in : State → Bool
  jar_logged_in s = has_session_cookies (env.cookies s.sent)

  -- The CAPTCHA, where a solver is configured and the page asks for a Turnstile token.
  solve_captcha : LoginFormFields → Map Text → M (Map Text)
  unfolding with_turnstile_token
  solve_captcha f form s =
      if s.has_capsolver
      then (if is_empty f.turnstile_site_key
          then (s, ok form)
          else (wrap (λ e. err_failed_login ++ (codes ": failed to solve Turnstile CAPTCHA: " ++ e))
                  (lift (env.solve_turnstile s.sent base_url f.turnstile_site_key))
                >>= λ token. return (with_turnstile_token token form))
              s)
      else (s, ok form)

  -- The checks of the answer to the form, and the record of the success.
  conclude : Response → M Bool
  unfolding is_logged_in has_session_cookies
  conclude response =
      if text_eq response.path login_request_endpoint
      then throw err_invalid_credentials
      else (if not (is_logged_in env.html (unread response.body))
          then throw err_failed_login
          else λ s.
              if not (jar_logged_in s)
              then (s, fail err_failed_login)
              else (now env >>= λ t s'.
                    (record s' { did_login = true; last_login_success = t }, ok true))
                  s)

  -- `a.muLogin.lastAttempt = time.Now()`
  mark_attempt : ℕ → M (Unit {0})
  mark_attempt t s = (record s { last_attempt = t }, ok tt)

  -- The form of the login page, which must hold a verification token.
  login_page_form : Response → M LoginFormFields
  unfolding parse_login_form
  login_page_form page s = elim (parse_login_form env.html (unread page.body)) [
    | none ↦ (s, fail err_login_page)
    | some f ↦ if is_empty f.verification_token then (s, fail err_login_page) else (s, ok f)
  ]

  abbrev as_failed_login : Text → Text
  as_failed_login e = err_failed_login ++ (codes ": " ++ e)

  -- The request of the login page, and its form.
  page_request : M Response
  unfolding fetch
  page_request = wrap as_failed_login (fetch env method_get login_request_endpoint none [])

  open_page : M LoginFormFields
  unfolding page_request login_page_form
  open_page = page_request >>= login_page_form

  -- The form sent.
  post_form : Map Text → M Response
  unfolding fetch
  post_form fields =
      wrap as_failed_login (fetch env post login_request_endpoint (some (encode fields)) [])

  submit_fields : Map Text → M Bool
  unfolding post_form conclude
  submit_fields fields = post_form fields >>= conclude

  submit : LoginFormFields → M Bool
  unfolding solve_captcha login_form_data submit_fields
  submit form s = (solve_captcha form (login_form_data s.credentials form) >>= submit_fields) s

  -- From the record of the attempt on.
  attempt_from : ℕ → M Bool
  unfolding mark_attempt open_page submit
  attempt_from t = mark_attempt t >> (open_page >>= submit)

  pub attempt : M Bool
  unfolding attempt_from
  attempt = now env >>= attempt_from

  -- `time.Since(lastAttempt) < time.Minute*2`: skip, as a success if the client ever logged in.
  throttle : M Bool
  unfolding attempt
  throttle = now env >>= λ t s.
      if ltb (t - s.last_attempt) (minutes 2)
      then (if s.did_login then (s, ok false) else (s, fail err_login_throttled))
      else attempt s

  -- Without force: reuse the session of the last hour if its cookies are there.
  reuse : M Bool
  unfolding throttle
  reuse s =
      if jar_logged_in s
      then (now env >>= λ t s'.
            if ltb (t - s'.last_login_success) (hours 1)
            then (record s' { did_login = true }, ok true)
            else throttle s')
          s
      else throttle s

  unfoldable pub login_body : Bool → M Bool
  unfolding attempt reuse
  login_body force = if force then attempt else reuse

  abbrev succeeded : Result Bool → Bool
  succeeded (ok b) = b
  succeeded (fail e) = false
  succeeded panic = false

  unfoldable pub login : Bool → M (Unit {0})
  unfolding login_body
  login force s =
      let (s', r) = login_body force s in
      (
        record s' { login_records = succeeded r ∷ s'.login_records },
        elim r [ ok b ↦ ok tt | fail e ↦ fail e | panic ↦ panic ],
      )
