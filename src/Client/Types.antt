-- ===== src/Client/Types.antt =====
-- The state of an `amizone.Client` (amizone/amizone.go) and its surroundings: the clock, the HTTP
-- transport with its cookie jar, the HTML parser and the CAPTCHA solver, which are parameters. What
-- the transport and the jar answer is a function of the requests sent so far, the latest first.
use go_amizone.Base.{
  ℕ, suc, Bool, true, false, ◌&&◌, List, [], ◌∷◌, Option, none, some, Text, codes, Map, is_empty,
  lookup, insert, Result, ok, fail, panic,
}
use go_amizone.Base.Html.{Html}

pub record Credentials : Type 0 where
  pub username : Text
  pub password : Text

-- `cred == (Credentials{})`
unfoldable pub no_credentials : Credentials → Bool
no_credentials c = is_empty c.username && is_empty c.password

pub record Request : Type 0 where
  pub method : Text
  pub url : Text
  pub headers : Map Text
  pub content : Text

-- `path` is that of the final request's URL, after redirects; `body` is `none` where reading fails.
pub record Response : Type 0 where
  pub status_code : ℕ
  pub path : Text
  pub body : Option Text

pub record Env : Type 1 where
  pub html : Html
  -- The instants that the successive reads of the clock give.
  pub clock : ℕ → ℕ
  -- `http.Client.Do`.
  pub transport : List Request → Result Response
  -- The cookies that the jar holds for the portal's URL; `none` is a nil jar.
  pub cookies : List Request → Option (Map Text)
  -- Whether `http.NewRequest` accepts a method and a URL.
  pub composes : Text → Text → Bool
  -- `capsolver.Client.SolveTurnstile`, by the number of requests sent so far.
  pub solve_turnstile : List Request → Text → Text → Result Text

-- `sent` and `reads` are what the client has done so far; `login_records` are the outcomes passed to
-- `instrumentation.RecordLogin`, the latest first.
pub record State : Type 0 where
  pub credentials : Credentials
  pub has_capsolver : Bool
  pub last_attempt : ℕ
  pub last_login_success : ℕ
  pub did_login : Bool
  pub sent : List Request
  pub reads : ℕ
  pub login_records : List Bool

-- A method of the client: the state that it leaves, with its result.
abbrev pub M : Type 0 → Type 0
M A = State → State × Result A

infixl 5 ◌>>=◌ ◌>>◌
abbrev pub ◌>>=◌ : {A B : Type 0} → M A → (A → M B) → M B
◌>>=◌ m f s =
    let (s', r) = m s in elim r [ ok a ↦ f a s' | fail e ↦ (s', fail e) | panic ↦ (s', panic) ]

abbrev pub ◌>>◌ : {B : Type 0} → M (Unit {0}) → M B → M B
◌>>◌ m k = m >>= λ _. k

abbrev pub return : {A : Type 0} → A → M A
return a s = (s, ok a)

abbrev pub throw : {A : Type 0} → Text → M A
throw e s = (s, fail e)

-- An error that the caller wraps in a message of its own.
abbrev pub wrap : {A : Type 0} → (Text → Text) → M A → M A
wrap g m s =
    let (s', r) = m s in
    elim r [ ok a ↦ (s', ok a) | fail e ↦ (s', fail (g e)) | panic ↦ (s', panic) ]

abbrev pub lift : {A : Type 0} → Result A → M A
lift r s = (s, r)

-- `time.Now()`
abbrev pub now : Env → M ℕ
now env s = (record s { reads = suc s.reads }, ok (env.clock s.reads))

-- `DidLogin`
abbrev pub get_did_login : M Bool
get_did_login s = (s, ok s.did_login)

-- amizone/internal/utilities.go: `IsLoggedIn`, on the cookies that the jar returns. The loop copies
-- them into a map by name.
abbrev cookie_map : Map Text → Map Text → Map Text
cookie_map [] m = m
cookie_map ((name, value) ∷ cs) m = cookie_map cs (insert name value m)

unfoldable pub cookie_contains : Map Text → Text → Bool
cookie_contains m key = elim (lookup key m) [ none ↦ false | some v ↦ true ]

unfoldable pub has_session_cookies : Option (Map Text) → Bool
unfolding cookie_contains
has_session_cookies none = false
has_session_cookies (some cs) =
    let m = cookie_map cs [] in
    cookie_contains m (codes ".ASPXAUTH")
    && cookie_contains m (codes "ASP.NET_SessionId")
    && cookie_contains m (codes "__RequestVerificationToken")
