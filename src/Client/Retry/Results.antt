-- ===== src/Client/Retry/Results.antt =====
-- What `doRequestWithHeaders` returns, and what it sends when it repeats a request.
use go_amizone.Base.{
  ◌≡◌, refl, sym, ap, ◌∙◌, Bool, true, false, Option, none, some, [], ◌∷◌, ◌++◌, Text, Map, ok,
  fail, arith, Bool-cases, inl, inr, List, ◌⊎◌,
}
use go_amizone.Parse.Session.{is_logged_in}
use go_amizone.Client.Types.{Env, State, Request, Response, ◌>>=◌, wrap, no_credentials}
use go_amizone.Client.Request.{
  drained, unread, fetch, perform, base_url, err_invalid_credentials_left,
}
use go_amizone.Client.Request.Answers.{
  bind_ok, wrap_ok, bind_step, wrap_step, composed, Answered, fetch_ok, perform_ok,
}
use go_amizone.Client.Login.{login, err_failed_login}
use go_amizone.Client.Login.Frame.{login-Within}
use go_amizone.Client.Login.Outcome.{login_ok}
use go_amizone.Client.Retry.{retry, do_request_with_headers}

-- A usable answer: status 200 and a readable body.
pub record Usable (r : Response) : Type 0 where
  pub status : r.status_code ≡ 200
  pub content : Text
  pub readable : r.body ≡ some content

module _ (env : Env) (method endpoint : Text) (body : Option Text) (extra : Map Text) where
  -- Without credentials nothing is sent or changed, and the call fails.
  pub do_request_without_credentials :
      (try_login : Bool) (s : State)
      → no_credentials s.credentials ≡ true
      → (e : Text) × (do_request_with_headers env method endpoint body extra try_login s
          ≡ (s, fail e))
  unfolding do_request_with_headers fetch
  do_request_without_credentials true s h = (err_invalid_credentials_left, ground arith)
  do_request_without_credentials false s h = (err_invalid_credentials_left, ground arith)

  Answered-Usable :
      (b : Option Text) (s s' : State) (r : Response)
      → Answered env method endpoint b extra s s' r
      → Usable r
  Answered-Usable b s s' r a = record {
    status = a.status;
    content = a.content;
    readable = a.readable;
  }

  -- The newest request that was sent, composed from the arguments; its body is that of the caller, or
  -- the same reader after a first request used it up.
  pub record Last (s' : State) (r : Response) : Type 0 where
    pub sent_body : Option Text
    pub before : List Request
    pub same_body : (sent_body ≡ body) ⊎ (sent_body ≡ drained body)
    pub newest : s'.sent ≡ composed env method endpoint sent_body extra ∷ before
    pub answer : env.transport s'.sent ≡ ok r

  Answered-Last :
      (b : Option Text) (s s' : State) (r : Response)
      → (b ≡ body) ⊎ (b ≡ drained body)
      → Answered env method endpoint b extra s s' r
      → Last s' r
  Answered-Last b s s' r same a = record {
    sent_body = b;
    before = s.sent;
    same_body = same;
    newest = ap (λ x. x.sent) a.after;
    answer = ap (λ x. env.transport x.sent) a.after ∙ a.answer;
  }

  Answered-did :
      (b : Option Text) (s s' : State) (r : Response)
      → Answered env method endpoint b extra s s' r
      → s'.did_login ≡ s.did_login
  Answered-did b s s' r a = ap (λ x. x.did_login) a.after

  retry_ok :
      (page r : Response) (s s' : State)
      → Usable page
      → s.did_login ≡ true
      → Last s page
      → retry env method endpoint body extra page s ≡ (s', ok r)
      → Usable r × (s'.did_login ≡ true) × Last s' r
  unfolding retry
  retry_ok page r s s' usable did last e =
      elim (Bool-cases (is_logged_in env.html (unread page.body))) [
        | inl fine ↦
            let same : r ≡ page = ground arith in
            let kept : s' ≡ s = ground arith in rw (same, kept) (usable, did, last)
        | inr expired ↦
            let (t, u, logged, fetched) =
              bind_ok (wrap (λ x. err_failed_login) (login env true))
                (λ _. fetch env method endpoint (drained body) extra) s s' r (ground arith) in
            let answer = fetch_ok env method endpoint (drained body) extra t s' r fetched in
            let logged_in =
              login_ok env true s t
                (wrap_ok (λ x. err_failed_login) (login env true) s t tt logged) in
            (
              Answered-Usable (drained body) t s' r answer,
              rw (Answered-did (drained body) t s' r answer) logged_in,
              Answered-Last (drained body) t s' r (inr refl) answer,
            )
      ]

  pub do_request-Last :
      (s s' : State) (r : Response)
      → do_request_with_headers env method endpoint body extra true s ≡ (s', ok r)
      → Usable r × (s'.did_login ≡ true) × Last s' r
  unfolding do_request_with_headers
  do_request-Last s s' r e = elim (Bool-cases s.did_login) [
    | inl did ↦
        let (t, page, performed, retried) =
          bind_ok (perform env method endpoint body extra) (retry env method endpoint body extra) s
            s' r (ground arith) in
        let answer = perform_ok env method endpoint body extra s t page performed in
        retry_ok page r t s' (Answered-Usable body s t page answer)
          (rw (Answered-did body s t page answer) did)
          (Answered-Last body s t page (inl refl) answer) retried
    | inr never ↦
        let (t, u, logged, performed) =
          bind_ok (login env false) (λ _. perform env method endpoint body extra) s s' r
            (ground arith) in
        let answer = perform_ok env method endpoint body extra t s' r performed in
        (
          Answered-Usable body t s' r answer,
          rw (Answered-did body t s' r answer) (login_ok env false s t logged),
          Answered-Last body t s' r (inl refl) answer,
        )
  ]

  -- A request that may log in returns an answer only of status 200 with a readable body, and then the
  -- client counts as logged in.
  pub do_request_ok :
      (s s' : State) (r : Response)
      → do_request_with_headers env method endpoint body extra true s ≡ (s', ok r)
      → Usable r × (s'.did_login ≡ true)
  do_request_ok s s' r e = let (usable, did, last) = do_request-Last s s' r e in (usable, did)

  fetch_sent :
      (b : Option Text) (s : State)
      → no_credentials s.credentials ≡ false
      → env.composes method (base_url ++ endpoint) ≡ true
      → (fetch env method endpoint b extra s).0.sent ≡ composed env method endpoint b extra ∷ s.sent
  unfolding fetch perform
  fetch_sent b s user fits = ground arith

  perform_composes :
      (s t : State) (r : Response)
      → perform env method endpoint body extra s ≡ (t, ok r)
      → (env.composes method (base_url ++ endpoint) ≡ true) × (t.credentials ≡ s.credentials)
  unfolding perform
  perform_composes s t r e = ground arith

  login_same_user : (t u : State) → login env true t ≡ (u, ok tt) → u.credentials ≡ t.credentials
  login_same_user t u e = sym (ap (λ x. x.0.credentials) e) ∙ (login-Within env true t).same_user

  do_request_logged_in :
      (s : State)
      → no_credentials s.credentials ≡ false
      → s.did_login ≡ true
      → do_request_with_headers env method endpoint body extra true s
        ≡ (perform env method endpoint body extra >>= retry env method endpoint body extra) s
  unfolding do_request_with_headers
  do_request_logged_in s user did = ground arith

  retry_expired :
      (page : Response) (t : State)
      → is_logged_in env.html (unread page.body) ≡ false
      → retry env method endpoint body extra page t
        ≡ (wrap (λ x. err_failed_login) (login env true) >>= λ _.
              fetch env method endpoint (drained body) extra)
            t
  unfolding retry
  retry_expired page t expired = ground arith

  drained_empty : (b : Option Text) → (composed env method endpoint (drained b) extra).content ≡ []
  drained_empty none = refl
  drained_empty (some x) = refl

  -- The bug: when the session has expired and the login by force succeeds, the request is repeated
  -- with no content, whatever the caller's body was, since its reader was used up.
  pub retry_sends_empty :
      (s t u : State) (page : Response)
      → no_credentials s.credentials ≡ false
      → s.did_login ≡ true
      → perform env method endpoint body extra s ≡ (t, ok page)
      → is_logged_in env.html (unread page.body) ≡ false
      → login env true t ≡ (u, ok tt)
      → ((do_request_with_headers env method endpoint body extra true s).0.sent
          ≡ composed env method endpoint (drained body) extra ∷ u.sent)
        × ((composed env method endpoint (drained body) extra).content ≡ [])
  retry_sends_empty s t u page user did performed expired logged =
      let (fits, same_t) = perform_composes s t page performed in
      let steps : do_request_with_headers env method endpoint body extra true s
          ≡ fetch env method endpoint (drained body) extra u =
        do_request_logged_in s user did
        ∙ bind_step (perform env method endpoint body extra) (retry env method endpoint body extra)
            s t page performed
        ∙ retry_expired page t expired
        ∙ bind_step (wrap (λ x. err_failed_login) (login env true))
            (λ _. fetch env method endpoint (drained body) extra) t u tt
            (wrap_step (λ x. err_failed_login) (login env true) t u tt logged) in
      (
        ap (λ x. x.0.sent) steps
            ∙ fetch_sent (drained body) u (rw (login_same_user t u logged, same_t) user) fits,
        drained_empty body,
      )
