-- ===== src/Client/Login/Frame.antt =====
-- What the client's methods can change: how often they call http.Client.Do, that a login is never forgotten,
-- and that the credentials stay.
use go_amizone.Base.{
  ℕ, ◌+◌, ◌≤◌, ◌≡◌, Bool, true, false, Option, none, some, [], Text, Map, length, suc, encode,
  Result, ok, fail, panic, arith,
}
use go_amizone.Parse.LoginForm.{LoginFormFields}
use go_amizone.Client.Types.{Env, State, Response, M, ◌>>=◌, wrap, now}
use go_amizone.Client.Request.{perform, fetch, post, method_get}
use go_amizone.Client.Login.{
  login, login_body, attempt, throttle, reuse, conclude, solve_captcha, mark_attempt,
  login_page_form, page_request, open_page, post_form, submit_fields, submit, attempt_from,
  as_failed_login, login_form_data, login_request_endpoint,
}

-- At most `n` calls of http.Client.Do by the client were made (the requests of the solver and the
-- redirects that Do follows are no calls of it), `did_login` was not reset, and the credentials are the
-- same.
pub record Frame (n : ℕ) (s s' : State) : Type 0 where
  pub sent : length s'.sent ≤ length s.sent + n
  pub kept : s.did_login ≡ true → s'.did_login ≡ true
  pub same_user : s'.credentials ≡ s.credentials

-- A method that stays within a frame from every state.
abbrev pub Within : {A : Type 0} → ℕ → M A → Type 0
Within n m = (s : State) → Frame n s (m s).0

pub Frame-trans : {k n : ℕ} {s t u : State} → Frame k s t → Frame n t u → Frame (k + n) s u
Frame-trans f g = ground arith

pub Frame-more : {k : ℕ} (n : ℕ) {s t : State} → Frame k s t → Frame (k + n) s t
Frame-more n f = ground arith

pub Within-bind :
    {A B : Type 0} (k n : ℕ) (m : M A) (f : A → M B)
    → Within k m
    → ((a : A) → Within n (f a))
    → Within (k + n) (m >>= f)
Within-bind {A} {B} k n m f hm hf s = go (m s).0 (m s).1 (hm s)
  where
    go : (t : State) (r : Result A) → Frame k s t → Frame (k + n) s (((λ s'. (t, r)) >>= f) s).0
    go t (ok a) h = Frame-trans h (hf a t)
    go t (fail e) h = Frame-more n h
    go t panic h = Frame-more n h

pub Within-wrap :
    {A : Type 0} (n : ℕ) (g : Text → Text) (m : M A) → Within n m → Within n (wrap g m)
Within-wrap {A} n g m h s = go (m s).0 (m s).1 (h s)
  where
    go : (t : State) (r : Result A) → Frame n s t → Frame n s (wrap g (λ s'. (t, r)) s).0
    go t (ok a) h = h
    go t (fail e) h = h
    go t panic h = h

module _ (env : Env) where
  now-Within : Within 0 (now env)
  now-Within s = ground arith

  pub perform-Within :
      (method endpoint : Text) (body : Option Text) (extra : Map Text)
      → Within 1 (perform env method endpoint body extra)
  unfolding perform
  perform-Within method endpoint body extra s = ground arith

  pub fetch-Within :
      (method endpoint : Text) (body : Option Text) (extra : Map Text)
      → Within 1 (fetch env method endpoint body extra)
  unfolding fetch
  fetch-Within method endpoint body extra s =
      ground (arith, perform-Within method endpoint body extra s)

  solve_captcha-Within :
      (f : LoginFormFields) (form : Map Text) → Within 0 (solve_captcha env f form)
  unfolding solve_captcha
  solve_captcha-Within f form s = ground arith

  conclude-Within : (response : Response) → Within 0 (conclude env response)
  unfolding conclude
  conclude-Within response s = ground arith

  login_page_form-Within : (page : Response) → Within 0 (login_page_form env page)
  unfolding login_page_form
  login_page_form-Within page s = ground arith

  mark_attempt-Within : (t : ℕ) → Within 0 (mark_attempt env t)
  unfolding mark_attempt
  mark_attempt-Within t s = ground arith

  page_request-Within : Within 1 (page_request env)
  unfolding page_request
  page_request-Within =
      Within-wrap 1 (as_failed_login env) (fetch env method_get login_request_endpoint none [])
        (fetch-Within method_get login_request_endpoint none [])

  open_page-Within : Within 1 (open_page env)
  unfolding open_page
  open_page-Within =
      Within-bind 1 0 (page_request env) (login_page_form env) page_request-Within
        login_page_form-Within

  post_form-Within : (fields : Map Text) → Within 1 (post_form env fields)
  unfolding post_form
  post_form-Within fields =
      Within-wrap 1 (as_failed_login env)
        (fetch env post login_request_endpoint (some (encode fields)) [])
        (fetch-Within post login_request_endpoint (some (encode fields)) [])

  submit_fields-Within : (fields : Map Text) → Within 1 (submit_fields env fields)
  unfolding submit_fields
  submit_fields-Within fields =
      Within-bind 1 0 (post_form env fields) (conclude env) (post_form-Within fields)
        conclude-Within

  submit-Within : (form : LoginFormFields) → Within 1 (submit env form)
  unfolding submit
  submit-Within form s =
      Within-bind 0 1 (solve_captcha env form (login_form_data s.credentials form))
        (submit_fields env) (solve_captcha-Within form _) submit_fields-Within s

  attempt_from-Within : (t : ℕ) → Within 2 (attempt_from env t)
  unfolding attempt_from
  attempt_from-Within t =
      Within-bind 0 2 (mark_attempt env t) (λ _. open_page env >>= submit env)
        (mark_attempt-Within t)
        (λ _. Within-bind 1 1 (open_page env) (submit env) open_page-Within submit-Within)

  attempt-Within : Within 2 (attempt env)
  unfolding attempt
  attempt-Within = Within-bind 0 2 (now env) (attempt_from env) now-Within attempt_from-Within

  throttle-Within : Within 2 (throttle env)
  unfolding throttle
  throttle-Within s = ground (arith, attempt-Within (record s { reads = suc s.reads }))

  reuse-Within : Within 2 (reuse env)
  unfolding reuse
  reuse-Within s =
      ground (arith, throttle-Within s, throttle-Within (record s { reads = suc s.reads }))

  -- A login calls http.Client.Do at most twice, forgets no earlier login and keeps the credentials.
  pub login-Within : (force : Bool) → Within 2 (login env force)
  unfolding login login_body
  login-Within true s = ground (arith, attempt-Within s)
  login-Within false s = ground (arith, reuse-Within s)
