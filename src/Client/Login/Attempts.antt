-- ===== src/Client/Login/Attempts.antt =====
-- The date of a login's attempt.
use go_amizone.Base.{
  ℕ, zero, subst, suc, ap, ◌+◌, ◌-◌, ◌≡◌, ◌≤◌, ◌<◌, Option, none, some, [], Text, Map, encode,
  Result, ok, fail, panic, arith,
}
use go_amizone.Parse.LoginForm.{LoginFormFields}
use go_amizone.Client.Types.{Env, State, M, ◌>>=◌, wrap}
use go_amizone.Client.Request.{perform, fetch, post, method_get}
use go_amizone.Client.Login.{
  attempt, conclude, solve_captcha, mark_attempt, login_page_form, page_request, open_page,
  post_form, submit_fields, submit, attempt_from, as_failed_login, login_form_data,
  login_request_endpoint,
}

-- The time of the last attempt is the same, and no read of the clock was undone.
record Keeps (s s' : State) : Type 0 where
  same : s'.last_attempt ≡ s.last_attempt
  later : s.reads ≤ s'.reads

abbrev Keeping : {A : Type 0} → M A → Type 0
Keeping m = (s : State) → Keeps s (m s).0

Keeping-bind :
    {A B : Type 0} (m : M A) (f : A → M B)
    → Keeping m
    → ((a : A) → Keeping (f a))
    → Keeping (m >>= f)
Keeping-bind {A} {B} m f hm hf s = go (m s).0 (m s).1 (hm s)
  where
    go : (t : State) (r : Result A) → Keeps s t → Keeps s (((λ s'. (t, r)) >>= f) s).0
    go t (ok a) h = let g = hf a t in ground (arith, h.same, h.later, g.same, g.later)
    go t (fail e) h = h
    go t panic h = h

Keeping-wrap : {A : Type 0} (g : Text → Text) (m : M A) → Keeping m → Keeping (wrap g m)
Keeping-wrap {A} g m h s = go (m s).0 (m s).1 (h s)
  where
    go : (t : State) (r : Result A) → Keeps s t → Keeps s (wrap g (λ s'. (t, r)) s).0
    go t (ok a) h = h
    go t (fail e) h = h
    go t panic h = h

le_then : (a b c : ℕ) → a ≤ b → b ≤ c → a ≤ c
le_then a b c h g = omega (arith, h, g)

plus_minus : (m n : ℕ) → m ≤ n → m + (n - m) ≡ n
plus_minus m n h = omega (arith, h)

plus_suc : (m d : ℕ) → suc (m + d) ≡ m + suc d
plus_suc m d = omega arith

plus_zero : (m : ℕ) → m ≡ m + 0
plus_zero m = omega arith

le_same : (m n : ℕ) → m ≡ n → m ≤ n
le_same m n h = omega (arith, h)

module _ (clock : ℕ → ℕ) (monotone : (n : ℕ) → clock n ≤ clock (suc n)) where
  clock_le : (m d : ℕ) → clock m ≤ clock (m + d)
  clock_le m zero = le_same (clock m) (clock (m + 0)) (ap clock (plus_zero m))
  clock_le m (suc d) =
      subst (λ k. clock m ≤ clock k) (plus_suc m d)
        (le_then (clock m) (clock (m + d)) (clock (suc (m + d))) (clock_le m d) (monotone (m + d)))

  pub clock_mono : (m n : ℕ) → m ≤ n → clock m ≤ clock n
  clock_mono m n h = subst (λ k. clock m ≤ clock k) (plus_minus m n h) (clock_le m (n - m))

module _ (env : Env) where
  fetch-Keeping :
      (method endpoint : Text) (body : Option Text) (extra : Map Text)
      → Keeping (fetch env method endpoint body extra)
  unfolding fetch perform
  fetch-Keeping method endpoint body extra s = ground arith

  open_page-Keeping : Keeping (open_page env)
  unfolding open_page page_request login_page_form
  open_page-Keeping =
      Keeping-bind (page_request env) (login_page_form env)
        (Keeping-wrap (as_failed_login env) (fetch env method_get login_request_endpoint none [])
          (fetch-Keeping method_get login_request_endpoint none []))
        (λ page s. ground arith)

  submit_fields-Keeping : (fields : Map Text) → Keeping (submit_fields env fields)
  unfolding submit_fields post_form conclude
  submit_fields-Keeping fields =
      Keeping-bind (post_form env fields) (conclude env)
        (Keeping-wrap (as_failed_login env)
          (fetch env post login_request_endpoint (some (encode fields)) [])
          (fetch-Keeping post login_request_endpoint (some (encode fields)) []))
        (λ response s. ground arith)

  submit-Keeping : (form : LoginFormFields) → Keeping (submit env form)
  unfolding submit solve_captcha
  submit-Keeping form s =
      Keeping-bind (solve_captcha env form (login_form_data s.credentials form)) (submit_fields env)
        (λ t. ground arith) submit_fields-Keeping s

  -- The time of the last attempt is what a read of the clock in the call gave.
  pub record Attempted (s s' : State) : Type 0 where
    pub read : ℕ
    pub from : s.reads ≤ read
    pub until : read < s'.reads
    pub at : s'.last_attempt ≡ env.clock read

  pub attempt-Attempted : (s : State) → Attempted s (attempt env s).0
  unfolding attempt attempt_from mark_attempt
  attempt-Attempted s =
      let rest =
        Keeping-bind (open_page env) (submit env) open_page-Keeping submit-Keeping
          (record s { reads = suc s.reads; last_attempt = env.clock s.reads }) in
      record {
        read = s.reads;
        from = omega arith;
        until = omega (arith, rest.later);
        at = rest.same;
      }
