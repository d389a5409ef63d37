-- ===== src/Client/Construct.antt =====
-- amizone/amizone.go: the constructors of a client, with the options for the TLS client and the CAPTCHA
-- solver.
pub mod Outcome
use go_amizone.Base.{
  ℕ, Bool, true, false, not, List, [], ◌∷◌, ◌++◌, Option, none, some, Text, codes, Result, ok, fail,
  panic, is_empty, if◌then◌else◌,
}
use go_amizone.Client.Types.{Env, State, Credentials, no_credentials}
use go_amizone.Client.Login.{login}
use go_amizone.Client.Wifi.{err_internal_failure}
use go_amizone.Tls.{Profiles, ClientOptions, Proxies, HttpClient, new_http_client}

abbrev pub err_bad_client : Text
err_bad_client = codes "the http client passed must have a cookie jar, or be nil"

-- A `*http.Client`: without a jar, with one, or one that `tlsclient.NewHTTPClient` built.
pub data HttpHandle (P J : Type 0) : Type 0 where
  jarless : HttpHandle P J
  with_jar : J → HttpHandle P J
  tls : HttpClient P J → HttpHandle P J

-- `httpClient.Jar != nil`
abbrev pub has_jar : {P J : Type 0} → HttpHandle P J → Bool
has_jar jarless = false
has_jar (with_jar jar) = true
has_jar (tls client) = true

pub data ClientOption (P J : Type 0) : Type 0 where
  with_tls_client : Option (ClientOptions P J) → ClientOption P J
  with_cap_solver : Text → ClientOption P J

-- The parts of a client that the options set, and the `currentProfileIndex` of tlsclient.
pub record Setup (P J : Type 0) : Type 0 where
  pub http_client : HttpHandle P J
  pub has_capsolver : Bool
  pub profile_index : ℕ

-- What a constructor returns: the client or nil with the error or nil; or a panic.
pub data Constructed : Type 0 where
  gives : Option State → Option Text → Constructed
  dies : Constructed

-- The client before its login.
abbrev pub fresh : Credentials → Bool → State
fresh cred has_capsolver = record {
  credentials = cred;
  has_capsolver = has_capsolver;
  last_attempt = 0;
  last_login_success = 0;
  did_login = false;
  sent = [];
  reads = 0;
  login_records = [];
}

abbrev pub after_login : State → Result (Unit {0}) → Constructed
after_login s (ok u) = gives (some s) none
after_login s (fail e) = gives (some s) (some e)
after_login s panic = dies

-- The end of both constructors: the check of the credentials, and the login.
unfoldable pub sign_in : Env → Credentials → Bool → Constructed
unfolding no_credentials login
sign_in env cred has_capsolver =
    if no_credentials cred
    then gives (some (fresh cred has_capsolver)) none
    else (let (s, r) = login env false (fresh cred has_capsolver) in after_login s r)

-- `env_for` is what surrounds a client with the given HTTP client. The others are as for
-- `new_http_client`: the proxies, `cookiejar.New`, the TLS library's error, the number drawn.
module _ (lib : Profiles) (J : Type 0) (env_for : HttpHandle lib.ClientProfile J → Env)
    (proxies : Proxies) (new_jar : Result J) (built : lib.ClientProfile → ℕ → Bool → Option Text)
    (draw : ℕ) where
  open lib use {ClientProfile}

  unfoldable pub new_client : Credentials → Option (HttpHandle ClientProfile J) → Constructed
  unfolding sign_in
  new_client cred none = elim new_jar [
    | ok jar ↦ sign_in (env_for (with_jar jar)) cred false
    | fail e ↦ gives none (some err_internal_failure)
    | panic ↦ dies
  ]
  new_client cred (some http_client) =
      if not (has_jar http_client)
      then gives none (some err_bad_client)
      else sign_in (env_for http_client) cred false

  -- The call of an option.
  unfoldable pub apply_option :
      ClientOption ClientProfile J
      → Setup ClientProfile J
      → Setup ClientProfile J × Result (Unit {0})
  unfolding new_http_client
  apply_option (with_tls_client opts) setup =
      let (r, next) = new_http_client lib J opts proxies new_jar built draw setup.profile_index in
      elim r [
        | ok client ↦ (record setup { http_client = tls client; profile_index = next }, ok tt)
        | fail e ↦ (
          record setup { profile_index = next },
          fail (codes "failed to create TLS client: " ++ e),
        )
        | panic ↦ (record setup { profile_index = next }, panic)
      ]
  apply_option (with_cap_solver api_key) setup =
      if is_empty api_key
      then (setup, fail (codes "CapSolver API key cannot be empty"))
      else (record setup { has_capsolver = true }, ok tt)

  -- The loop over the options, which stops at an error.
  unfoldable pub apply_options :
      List (ClientOption ClientProfile J)
      → Setup ClientProfile J
      → Setup ClientProfile J × Result (Unit {0})
  unfolding apply_option
  apply_options [] setup = (setup, ok tt)
  apply_options (opt ∷ opts) setup =
      let (next, r) = apply_option opt setup in
      elim r [
        | ok u ↦ apply_options opts next
        | fail e ↦ (next, fail (codes "failed to apply client option: " ++ e))
        | panic ↦ (next, panic)
      ]

  -- What follows the loop.
  unfoldable pub finish : Credentials → Setup ClientProfile J → Result (Unit {0}) → Constructed
  unfolding sign_in
  finish cred setup (ok u) =
      if not (has_jar setup.http_client)
      then gives none (some err_bad_client)
      else sign_in (env_for setup.http_client) cred setup.has_capsolver
  finish cred setup (fail e) = gives none (some e)
  finish cred setup panic = dies

  -- The setup before the options.
  abbrev pub plain : J → ℕ → Setup ClientProfile J
  plain jar index = record {
    http_client = with_jar jar;
    has_capsolver = false;
    profile_index = index;
  }

  unfoldable pub new_client_with_options :
      Credentials → List (ClientOption ClientProfile J) → ℕ → Constructed
  unfolding apply_options finish
  new_client_with_options cred opts index = elim new_jar [
    | ok jar ↦ let (setup, r) = apply_options opts (plain jar index) in finish cred setup r
    | fail e ↦ gives none (some err_internal_failure)
    | panic ↦ dies
  ]
