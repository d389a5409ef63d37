-- ===== src/Client/Construct/Outcome.antt =====
-- What the constructors return.
use go_amizone.Base.{
  ℕ, ◌≡◌, refl, ap, sym, ◌∙◌, Bool, true, false, List, [], ◌∷◌, Option, none, some, Text, Result,
  ok, fail, panic, arith, Bool-cases, Result-cases, inl, inr,
}
use go_amizone.Client.Types.{Env, State, Credentials, no_credentials}
use go_amizone.Client.Login.{login}
use go_amizone.Client.Login.Outcome.{login_ok}
use go_amizone.Tls.{Profiles, Proxies, new_http_client}
use go_amizone.Client.Construct.{
  HttpHandle, has_jar, ClientOption, with_tls_client, with_cap_solver, Setup, gives, fresh,
  after_login, sign_in, new_client, apply_option, apply_options, finish, plain,
  new_client_with_options,
}

after_login_ok :
    (s t : State) (r : Result (Unit {0}))
    → after_login s r ≡ gives (some t) none
    → (r ≡ ok tt) × (s ≡ t)
after_login_ok s t (ok u) e = (refl, ground (arith, e))
after_login_ok s t (fail x) e = ground (arith, e)
after_login_ok s t panic e = ground (arith, e)

-- Without an error, a client with credentials is logged in, and one without did nothing yet.
abbrev pub SignedIn : Credentials → State → Type 0
SignedIn cred s =
    (no_credentials cred ≡ false → s.did_login ≡ true)
    × (no_credentials cred ≡ true → (has_capsolver : Bool) × (s ≡ fresh cred has_capsolver))

sign_in-SignedIn :
    (env : Env) (cred : Credentials) (has_capsolver : Bool) (s : State)
    → sign_in env cred has_capsolver ≡ gives (some s) none
    → SignedIn cred s
unfolding sign_in
sign_in-SignedIn env cred has_capsolver s e = (
  λ given.
      let attempt = login env false (fresh cred has_capsolver) in
      let done : after_login attempt.0 attempt.1 ≡ gives (some s) none = ground (arith, given, e) in
      let (result, same) = after_login_ok attempt.0 s attempt.1 done in
      ap (λ t. t.did_login) (sym same)
      ∙ login_ok env false (fresh cred has_capsolver) attempt.0 (λ i. (attempt.0, result i)),
  λ empty. (has_capsolver, ground (arith, empty, e)),
)

module _ (lib : Profiles) (J : Type 0) (env_for : HttpHandle lib.ClientProfile J → Env)
    (proxies : Proxies) (new_jar : Result J) (built : lib.ClientProfile → ℕ → Bool → Option Text)
    (draw : ℕ) where
  open lib use {ClientProfile}

  -- NewClientWithOptions without options behaves as NewClient without an HTTP client.
  pub new_client_with_options-none :
      (cred : Credentials) (index : ℕ)
      → new_client_with_options lib J env_for proxies new_jar built draw cred [] index
        ≡ new_client lib J env_for proxies new_jar built draw cred none
  unfolding new_client_with_options new_client apply_options finish
  new_client_with_options-none cred index = refl

  finish-SignedIn :
      (cred : Credentials) (setup : Setup ClientProfile J) (r : Result (Unit {0})) (s : State)
      → finish lib J env_for proxies new_jar built draw cred setup r ≡ gives (some s) none
      → SignedIn cred s
  unfolding finish
  finish-SignedIn cred setup (ok u) s e = elim (Bool-cases (has_jar setup.http_client)) [
    | inl jar ↦
        sign_in-SignedIn (env_for setup.http_client) cred setup.has_capsolver s
          (ground (arith, jar, e))
    | inr none_left ↦ ground (arith, none_left, e)
  ]
  finish-SignedIn cred setup (fail x) s e = ground (arith, e)
  finish-SignedIn cred setup panic s e = ground (arith, e)

  -- When NewClientWithOptions returns no error, the client counts as logged in, or has no credentials
  -- and sent nothing.
  pub new_client_with_options_ok :
      (cred : Credentials) (opts : List (ClientOption ClientProfile J)) (index : ℕ) (s : State)
      → new_client_with_options lib J env_for proxies new_jar built draw cred opts index
        ≡ gives (some s) none
      → SignedIn cred s
  unfolding new_client_with_options
  new_client_with_options_ok cred opts index s e = elim (Result-cases new_jar) [
    | inl (jar, made) ↦
        let (setup, r) =
          apply_options lib J env_for proxies new_jar built draw opts
            (plain lib J env_for proxies new_jar built draw jar index) in
        finish-SignedIn cred setup r s (ground (arith, made, e))
    | inr (inl (x, made)) ↦ ground (arith, made, e)
    | inr (inr made) ↦ ground (arith, made, e)
  ]

  apply_option-has_jar :
      (opt : ClientOption ClientProfile J) (setup : Setup ClientProfile J)
      → has_jar setup.http_client ≡ true
      → has_jar (apply_option lib J env_for proxies new_jar built draw opt setup).0.http_client
        ≡ true
  unfolding apply_option
  apply_option-has_jar (with_tls_client opts) setup jar = ground (
    arith,
    jar,
    Result-cases (new_http_client lib J opts proxies new_jar built draw setup.profile_index).0,
  )
  apply_option-has_jar (with_cap_solver api_key) setup jar = ground (arith, jar)

  -- No option takes the cookie jar away: the check after the options never fails.
  pub apply_options-has_jar :
      (opts : List (ClientOption ClientProfile J)) (setup : Setup ClientProfile J)
      → has_jar setup.http_client ≡ true
      → has_jar (apply_options lib J env_for proxies new_jar built draw opts setup).0.http_client
        ≡ true
  unfolding apply_options
  apply_options-has_jar [] setup jar = jar
  apply_options-has_jar (opt ∷ opts) setup jar =
      let next = apply_option lib J env_for proxies new_jar built draw opt setup in
      let kept = apply_option-has_jar opt setup jar in
      ground (arith, kept, Result-cases next.1, apply_options-has_jar opts next.0 kept)
