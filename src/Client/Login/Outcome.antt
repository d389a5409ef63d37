-- ===== src/Client/Login/Outcome.antt =====
-- What holds after a login: the branches of `login`, its errors included.
use go_amizone.Base.{
  suc, ◌-◌, ◌≡◌, inl, inr, Bool, true, false, ◌∷◌, ltb, minutes, ok, arith, Bool-cases,
  Result-cases, ap, ◌∙◌,
}
use go_amizone.Client.Types.{Env, State}
use go_amizone.Client.Login.{login, login_body, throttle, reuse}
use go_amizone.Client.Login.Form.{Submitted, attempt_ok, Submitted-records}

module _ (env : Env) where
  -- A login without error is a body without error, recorded.
  login_parts :
      (force : Bool) (s s' : State)
      → login env force s ≡ (s', ok tt)
      → (t : State) × (b : Bool) × (login_body env force s ≡ (t, ok b))
        × (s' ≡ record t { login_records = b ∷ t.login_records })
  unfolding login
  login_parts force s s' e = elim (Result-cases (login_body env force s).1) [
    | inl (b, done) ↦ ((login_body env force s).0, b, ground arith, ground arith)
    | inr (inl (x, failed)) ↦ absurd (ground arith)
    | inr (inr crashed) ↦ absurd (ground arith)
  ]

  -- A login by force succeeds only by sending the login form, and then the client is logged in.
  pub login_forced_ok : (s s' : State) → login env true s ≡ (s', ok tt) → Submitted env s s'
  unfolding login_body
  login_forced_ok s s' e =
      let (t, b, attempted, after) = login_parts true s s' e in
      rw after
        (Submitted-records env s t (b ∷ t.login_records) ((attempt_ok env s t b attempted).1))

  throttle_ok : (s s' : State) (b : Bool) → throttle env s ≡ (s', ok b) → s'.did_login ≡ true
  unfolding throttle
  throttle_ok s s' b e = elim (Bool-cases (ltb (env.clock s.reads - s.last_attempt) (minutes 2))) [
    | inl recent ↦ ground arith
    | inr old ↦ (attempt_ok env (record s { reads = suc s.reads }) s' b (ground arith)).1.did
  ]

  reuse_ok : (s s' : State) (b : Bool) → reuse env s ≡ (s', ok b) → s'.did_login ≡ true
  unfolding reuse
  reuse_ok s s' b e =
      ground (arith, throttle_ok s s' b, throttle_ok (record s { reads = suc s.reads }) s' b)

  -- Whenever `login` returns no error, the client counts as logged in: it reused a session, was
  -- throttled after an earlier login, or logged in now.
  pub login_ok :
      (force : Bool) (s s' : State) → login env force s ≡ (s', ok tt) → s'.did_login ≡ true
  unfolding login_body
  login_ok true s s' e = (login_forced_ok s s' e).did
  login_ok false s s' e =
      let (t, b, reused, after) = login_parts false s s' e in
      ap (λ x. x.did_login) after ∙ reuse_ok s t b reused
