-- ===== src/Client/Login/Form.antt =====
-- A login that goes through the form of the login page, step by step.
use go_amizone.Base.{
  suc, ◌≡◌, ◌⊎◌, inl, inr, Bool, true, false, none, some, List, [], ◌∷◌, Text, Map, is_empty,
  text_eq, encode, ok, arith, Bool-cases, Option-cases, Result-cases, ap, ◌∙◌,
}
use go_amizone.Parse.Session.{is_logged_in}
use go_amizone.Parse.LoginForm.{LoginFormFields, parse_login_form}
use go_amizone.Client.Types.{Env, State, Response}
use go_amizone.Client.Request.{base_url, method_get, post, unread, fetch}
use go_amizone.Client.Request.Answers.{bind_ok, wrap_ok, composed, Answered, fetch_ok}
use go_amizone.Client.Login.{
  attempt, attempt_from, conclude, solve_captcha, submit, submit_fields, post_form, open_page,
  page_request, login_page_form, mark_attempt, jar_logged_in, login_form_data, with_turnstile_token,
  login_request_endpoint, as_failed_login,
}

module _ (env : Env) where
  conclude_ok :
      (response : Response) (s s' : State) (b : Bool)
      → conclude env response s ≡ (s', ok b)
      → (b ≡ true)
        × (text_eq response.path login_request_endpoint ≡ false)
        × (is_logged_in env.html (unread response.body) ≡ true)
        × (jar_logged_in env s ≡ true)
        × (s' ≡ record s {
          did_login = true;
          last_login_success = env.clock s.reads;
          reads = suc s.reads;
        })
  unfolding conclude
  conclude_ok response s s' b e = ground arith

  solve_captcha_ok :
      (form : LoginFormFields) (m fields : Map Text) (s s' : State)
      → solve_captcha env form m s ≡ (s', ok fields)
      → (s' ≡ s)
        × ((fields ≡ m)
            ⊎ ((token : Text) × (env.solve_turnstile s.sent base_url form.turnstile_site_key
                  ≡ ok token)
                × (fields ≡ with_turnstile_token token m)))
  unfolding solve_captcha
  solve_captcha_ok form m fields s s' e = elim (Bool-cases s.has_capsolver) [
    | inr off ↦ (ground arith, inl (ground arith))
    | inl on ↦ elim (Bool-cases (is_empty form.turnstile_site_key)) [
      | inl no_key ↦ (ground arith, inl (ground arith))
      | inr key ↦
          elim (Result-cases (env.solve_turnstile s.sent base_url form.turnstile_site_key)) [
            | inl (token, solved) ↦ (ground arith, inr (token, solved, ground arith))
            | inr failed ↦ absurd (ground arith)
          ]
    ]
  ]

  login_page_form_ok :
      (page : Response) (form : LoginFormFields) (s s' : State)
      → login_page_form env page s ≡ (s', ok form)
      → (s' ≡ s)
        × (parse_login_form env.html (unread page.body) ≡ some form)
        × (is_empty form.verification_token ≡ false)
  unfolding login_page_form
  login_page_form_ok page form s s' e =
      ground (arith, Option-cases (parse_login_form env.html (unread page.body)))

  -- A login that went through the form: the login page was read and its form sent back with the user's
  -- name and password; the answer came from another page that is no login page, and the cookies of a
  -- session are there.
  pub record Submitted (s s' : State) : Type 0 where
    pub page : Response
    pub form : LoginFormFields
    pub fields : Map Text
    pub response : Response
    pub read_page :
        env.transport (composed env method_get login_request_endpoint none [] ∷ s.sent) ≡ ok page
    pub parsed : parse_login_form env.html (unread page.body) ≡ some form
    pub has_token : is_empty form.verification_token ≡ false
    pub filled :
        (fields ≡ login_form_data s.credentials form)
        ⊎ ((token : Text) × (fields
              ≡ with_turnstile_token token (login_form_data s.credentials form)))
    pub sent :
        s'.sent
        ≡ composed env post login_request_endpoint (some (encode fields)) []
          ∷ composed env method_get login_request_endpoint none []
          ∷ s.sent
    pub answer : env.transport s'.sent ≡ ok response
    pub elsewhere : text_eq response.path login_request_endpoint ≡ false
    pub no_login_page : is_logged_in env.html (unread response.body) ≡ true
    pub cookies : jar_logged_in env s' ≡ true
    pub did : s'.did_login ≡ true
    pub stamp : s'.last_login_success ≡ env.clock (suc s.reads)
    pub tried : s'.last_attempt ≡ env.clock s.reads

  -- The state in which the login page is requested.
  abbrev marked : State → State
  marked s = record s { reads = suc s.reads; last_attempt = env.clock s.reads }

  Submitted-steps :
      (s u t v w s' : State) (page response : Response) (form : LoginFormFields) (fields : Map Text)
      → Answered env method_get login_request_endpoint none [] (marked s) u page
      → t ≡ u
      → parse_login_form env.html (unread page.body) ≡ some form
      → is_empty form.verification_token ≡ false
      → v ≡ t
      → (fields ≡ login_form_data t.credentials form)
        ⊎ ((token : Text) × (env.solve_turnstile t.sent base_url form.turnstile_site_key ≡ ok token)
            × (fields ≡ with_turnstile_token token (login_form_data t.credentials form)))
      → Answered env post login_request_endpoint (some (encode fields)) [] v w response
      → text_eq response.path login_request_endpoint ≡ false
      → is_logged_in env.html (unread response.body) ≡ true
      → jar_logged_in env w ≡ true
      → s'
        ≡ record w { did_login = true; last_login_success = env.clock w.reads; reads = suc w.reads }
      → Submitted s s'
  Submitted-steps s u t v w s' page response form fields got same_t parsed has_token same_v filled
        put elsewhere no_login_page cookies after =
      let before : v ≡ record (marked s) {
        sent = composed env method_get login_request_endpoint none [] ∷ s.sent;
      } =
        same_v ∙ same_t ∙ got.after in
      let w_sent : w.sent
          ≡ composed env post login_request_endpoint (some (encode fields)) []
            ∷ composed env method_get login_request_endpoint none []
            ∷ s.sent =
        ap (λ x. x.sent) put.after
        ∙ ap
            (λ (x : State).
              composed env post login_request_endpoint (some (encode fields)) [] ∷ x.sent)
            before in
      let form_eq : login_form_data t.credentials form ≡ login_form_data s.credentials form =
        ap (λ (x : State). login_form_data x.credentials form) (same_t ∙ got.after) in
      let sent' : s'.sent ≡ w.sent = ap (λ x. x.sent) after in
      record {
        page = page;
        form = form;
        fields = fields;
        response = response;
        read_page = got.answer;
        parsed = parsed;
        has_token = has_token;
        filled = elim filled [
          | inl e ↦ inl (e ∙ form_eq)
          | inr (token, _, e) ↦ inr (token, e ∙ ap (with_turnstile_token token) form_eq)
        ];
        sent = sent' ∙ w_sent;
        answer = rw (sent', ap (λ x. x.sent) put.after) put.answer;
        elsewhere = elsewhere;
        no_login_page = no_login_page;
        cookies = rw sent' cookies;
        did = ap (λ x. x.did_login) after;
        stamp =
            ap (λ x. x.last_login_success) after
            ∙ ap env.clock (ap (λ x. x.reads) put.after ∙ ap (λ x. x.reads) before);
        tried =
            ap (λ x. x.last_attempt) after
            ∙ ap (λ x. x.last_attempt) put.after
            ∙ ap (λ x. x.last_attempt) before;
      }

  -- Such a login is the only one in which `login true` succeeds.
  pub attempt_ok :
      (s s' : State) (b : Bool) → attempt env s ≡ (s', ok b) → (b ≡ true) × Submitted s s'
  unfolding attempt attempt_from mark_attempt open_page page_request submit submit_fields post_form
  attempt_ok s s' b e =
      let marked : State = record s { reads = suc s.reads; last_attempt = env.clock s.reads } in
      let (t, form, opened, submitted) = bind_ok (open_page env) (submit env) marked s' b e in
      let (u, page, paged, formed) =
        bind_ok (page_request env) (login_page_form env) marked t form opened in
      let got = fetch_ok env method_get login_request_endpoint none [] marked u page (
        wrap_ok (as_failed_login env) (fetch env method_get login_request_endpoint none []) marked u
          page paged) in
      let (same_t, parsed, has_token) = login_page_form_ok page form u t formed in
      let (v, fields, solved, posted) =
        bind_ok (solve_captcha env form (login_form_data t.credentials form)) (submit_fields env) t
          s' b submitted in
      let (same_v, filled) =
        solve_captcha_ok form (login_form_data t.credentials form) fields t v solved in
      let (w, response, answered, concluded) =
        bind_ok (post_form env fields) (conclude env) v s' b posted in
      let put = fetch_ok env post login_request_endpoint (some (encode fields)) [] v w response (
        wrap_ok (as_failed_login env)
          (fetch env post login_request_endpoint (some (encode fields)) []) v w response
          answered) in
      let (is_true, elsewhere, no_login_page, cookies, after) =
        conclude_ok response w s' b concluded in
      (
        is_true,
        Submitted-steps s u t v w s' page response form fields got same_t parsed has_token same_v
            filled put elsewhere no_login_page cookies after,
      )

  pub Submitted-records :
      (s t : State) (records : List Bool)
      → Submitted s t
      → Submitted s (record t { login_records = records })
  Submitted-records s t records h = record {
    page = h.page;
    form = h.form;
    fields = h.fields;
    response = h.response;
    read_page = h.read_page;
    parsed = h.parsed;
    has_token = h.has_token;
    filled = h.filled;
    sent = h.sent;
    answer = h.answer;
    elsewhere = h.elsewhere;
    no_login_page = h.no_login_page;
    cookies = h.cookies;
    did = h.did;
    stamp = h.stamp;
    tried = h.tried;
  }
