-- ===== src/Tls.antt =====
-- amizone/tlsclient/client.go: the choice of a browser profile and the construction of an HTTP client.
-- Profiles, jars and the TLS library's client are third-party.
pub mod Rotation
pub mod Requests
pub mod Cookies
use go_amizone.Base.{
  ℕ, suc, ◌-◌, ◌/◌, ◌%◌, ◌^◌, ◌==◌, ltb, Bool, true, not, ◌&&◌, ◌||◌, List, [], ◌∷◌, ◌++◌, Option,
  none, some, Text, codes, Result, ok, fail, panic, is_empty, text_eq, length, get_elem?, seconds,
  if◌then◌else◌,
}

-- `profiles.ClientProfile` with the profiles in use, and its text by `%v`.
pub record Profiles : Type 1 where
  pub ClientProfile : Type 0
  pub chrome_144 : ClientProfile
  pub chrome_146 : ClientProfile
  pub chrome_133 : ClientProfile
  pub chrome_131 : ClientProfile
  pub firefox_147 : ClientProfile
  pub firefox_135 : ClientProfile
  pub firefox_133 : ClientProfile
  pub print : ClientProfile → Text

-- `unnamed` is any other number of the type.
pub data ProfileRotationMode : Type 0 where
  profile_rotation_off profile_rotation_random profile_rotation_sequential : ProfileRotationMode
  unnamed : ℕ → ProfileRotationMode

-- `J` is the type of jars; `none` is nil.
pub record ClientOptions (P J : Type 0) : Type 0 where
  pub profile_rotation_mode : ProfileRotationMode
  pub custom_profiles : List P
  pub timeout : ℕ
  pub follow_redirects : Bool
  pub cookie_jar : Option J

-- The environment's proxies.
pub record Proxies : Type 0 where
  pub http_proxy : Text
  pub https_proxy : Text

-- A client that is built: one with a proxy has a jar of net/http, one with a profile the jar of the
-- TLS library that was made with it.
pub data HttpClient (P J : Type 0) : Type 0 where
  proxy_client : Proxies → ℕ → Bool → J → HttpClient P J
  profile_client : P → ℕ → Bool → ℕ → HttpClient P J

-- Indexing a slice.
abbrev pub index : {A : Type 0} → List A → ℕ → Result A
index xs i = elim (get_elem? xs i) [ none ↦ panic | some x ↦ ok x ]

-- An `int` has 64 bits; a pattern from `2 ^ 63` on is a negative number.
abbrev pub int_limit : ℕ
int_limit = 2 ^ 63

-- `currentProfileIndex++`, which a panic before it skips.
unfoldable pub counted : {A : Type 0} → Result A → ℕ → ℕ
counted panic i = i
counted (fail e) i = i
counted (ok x) i = suc i % 2 ^ 64

-- `list[i % len(list)]` for the bit pattern of an int: a negative remainder is no index.
unfoldable pub index_modulo : {A : Type 0} → List A → ℕ → Result A
index_modulo xs i =
    if ltb i int_limit
    then index xs (i % length xs)
    else (if (2 ^ 64 - i) % length xs == 0 then index xs 0 else panic)

module _ (lib : Profiles) (J : Type 0) where
  open lib use {
    ClientProfile, print, chrome_144, chrome_146, chrome_133, chrome_131, firefox_147, firefox_135,
    firefox_133,
  }

  abbrev pub default_profiles : List ClientProfile
  default_profiles =
      chrome_144 ∷ chrome_146 ∷ chrome_133 ∷ chrome_131 ∷ firefox_147 ∷ firefox_135 ∷ firefox_133
      ∷ []

  unfoldable pub default_client_options : ClientOptions ClientProfile J
  default_client_options = record {
    profile_rotation_mode = profile_rotation_random;
    custom_profiles = default_profiles;
    timeout = seconds 90;
    follow_redirects = true;
    cookie_jar = none;
  }

  abbrev pub profile_list : ClientOptions ClientProfile J → List ClientProfile
  profile_list opts = elim opts.custom_profiles [ [] ↦ default_profiles | p ∷ ps ↦ p ∷ ps ]

  -- The profile with the new `currentProfileIndex`, as its 64 bits; where the index panics it is not
  -- counted up. `draw` is the number that `rand.Intn` gives.
  unfoldable pub select_profile : ClientOptions ClientProfile J → ℕ → ℕ → Result ClientProfile × ℕ
  unfolding index_modulo counted
  select_profile opts draw current = elim opts.profile_rotation_mode [
    | profile_rotation_off ↦ (index (profile_list opts) 0, current)
    | profile_rotation_random ↦ (index (profile_list opts) draw, current)
    | profile_rotation_sequential ↦
        let chosen = index_modulo (profile_list opts) current in (chosen, counted chosen current)
    | unnamed m ↦ (index (profile_list opts) 0, current)
  ]

  unfoldable pub profile_name : ClientProfile → Text
  unfolding text_eq
  profile_name p =
      if text_eq (print p) (print chrome_144)
      then codes "Chrome_144"
      else (if text_eq (print p) (print chrome_146)
          then codes "Chrome_146"
          else (if text_eq (print p) (print chrome_133)
              then codes "Chrome_133"
              else (if text_eq (print p) (print chrome_131)
                  then codes "Chrome_131"
                  else (if text_eq (print p) (print firefox_147)
                      then codes "Firefox_147"
                      else (if text_eq (print p) (print firefox_135)
                          then codes "Firefox_135"
                          else (if text_eq (print p) (print firefox_133)
                              then codes "Firefox_133"
                              else print p))))))

  -- The proxy of a request by its scheme; an empty text is none.
  unfoldable pub proxy_url : Proxies → Text → Text
  unfolding text_eq
  proxy_url proxies scheme =
      if text_eq scheme (codes "https") && not (is_empty proxies.https_proxy)
      then proxies.https_proxy
      else proxies.http_proxy

  -- `new_jar` is what `cookiejar.New` gives.
  unfoldable pub new_proxy_client :
      ClientOptions ClientProfile J → Proxies → Result J → Result (HttpClient ClientProfile J)
  new_proxy_client opts proxies new_jar = elim opts.cookie_jar [
    | some jar ↦ ok (proxy_client proxies opts.timeout opts.follow_redirects jar)
    | none ↦ elim new_jar [
      | ok jar ↦ ok (proxy_client proxies opts.timeout opts.follow_redirects jar)
      | fail e ↦ fail (codes "failed to create cookie jar: " ++ e)
      | panic ↦ panic
    ]
  ]

  -- `built` is the error, if any, of `tls_client.NewHttpClient` for a profile, a timeout in seconds
  -- and whether it follows redirects.
  build_client :
      ClientOptions ClientProfile J
      → (ClientProfile → ℕ → Bool → Option Text)
      → Result ClientProfile
      → Result (HttpClient ClientProfile J)
  build_client opts built (ok profile) =
      elim (built profile (opts.timeout / seconds 1) opts.follow_redirects) [
        | none ↦
            ok
              (profile_client profile (opts.timeout / seconds 1) opts.follow_redirects opts.timeout)
        | some e ↦ fail (codes "failed to create TLS client: " ++ e)
      ]
  build_client opts built (fail e) = fail e
  build_client opts built panic = panic

  -- The client, with the new `currentProfileIndex`.
  unfoldable pub new_client_for :
      ClientOptions ClientProfile J
      → Proxies
      → Result J
      → (ClientProfile → ℕ → Bool → Option Text)
      → ℕ
      → ℕ
      → Result (HttpClient ClientProfile J) × ℕ
  unfolding new_proxy_client select_profile build_client
  new_client_for opts proxies new_jar built draw current =
      if not (is_empty proxies.http_proxy) || not (is_empty proxies.https_proxy)
      then (new_proxy_client opts proxies new_jar, current)
      else (let (profile, next) = select_profile opts draw current in
          (build_client opts built profile, next))

  unfoldable pub new_http_client :
      Option (ClientOptions ClientProfile J)
      → Proxies
      → Result J
      → (ClientProfile → ℕ → Bool → Option Text)
      → ℕ
      → ℕ
      → Result (HttpClient ClientProfile J) × ℕ
  unfolding new_client_for default_client_options
  new_http_client none = new_client_for default_client_options
  new_http_client (some opts) = new_client_for opts
