-- ===== src/Tests/Client.antt =====
-- The client against a portal that answers with the login page up to some request, and with the home
-- page from then on.
use go_amizone.Base.{
  minutes, ◌*◌, ◌≤◌, ℕ, ◌+◌, ◌≡◌, refl, true, false, [], ◌∷◌, Option, some, Text, codes, text_eq,
  length, select, leb, hours, ok, Map, insert, lookup, encode, if◌then◌else◌, arith,
}
use mathlib.Core.List.{flat_map}
use go_amizone.Base.Html.{Html}
use go_amizone.Parse.Session.{is_logged_in}
use go_amizone.Client.Types.{Env, State, Response, has_session_cookies, no_credentials}
use go_amizone.Client.Request.{perform, drained, post}
use go_amizone.Client.Request.Answers.{composed}
use go_amizone.Client.Login.{login}
use go_amizone.Client.Login.Frame.{Frame}
use go_amizone.Client.Login.Form.{Submitted}
use go_amizone.Client.Login.Outcome.{login_forced_ok}
use go_amizone.Client.Login.Attempts.{Attempted}
use go_amizone.Client.Login.Pace.{login-Spaced}
use go_amizone.Client.Retry.{do_request_with_headers}
use go_amizone.Client.Retry.Bounds.{do_request-Frame}
use go_amizone.Client.Retry.Results.{Usable, do_request_ok, retry_sends_empty}

-- A page is its own text; only the page `login` has the login form, and each of its fields is `v`.
abbrev pub pages : Html
pages = record {
  Node = Text;
  parse_error = λ body. codes "bad HTML";
  parse_document = λ body. some body;
  find = λ sel name. select (λ n. text_eq n (codes "login")) sel;
  filter_by = λ sel name. sel;
  children = λ sel. [];
  parent = λ sel. [];
  node_attr = λ n name. some (codes "v");
  node_text = λ n. n;
  node_name = λ n. codes "html";
}

abbrev pub page_at : ℕ → ℕ → Response
page_at k n =
    if leb n k
    then record { status_code = 200; path = codes "/"; body = some (codes "login") }
    else record { status_code = 200; path = codes "/Home"; body = some (codes "home") }

abbrev pub token_cookies : Map Text
token_cookies =
    (codes ".ASPXAUTH", [])
    ∷ (codes "ASP.NET_SessionId", [])
    ∷ (codes "__RequestVerificationToken", [])
    ∷ []

-- The first `k` answers are the login page; after them the cookies of a session are there.
abbrev pub portal : ℕ → Env
portal k = record {
  html = pages;
  clock = λ n. hours 10 + n;
  transport = λ reqs. ok (page_at k (length reqs));
  cookies = λ reqs. if leb (length reqs) k then some [] else some token_cookies;
  composes = λ m u. true;
  solve_turnstile = λ reqs u key. ok (codes "token");
}

abbrev pub fresh : State
fresh = record {
  credentials = record { username = codes "ann"; password = codes "p w" };
  has_capsolver = false;
  last_attempt = 0;
  last_login_success = 0;
  did_login = false;
  sent = [];
  reads = 0;
  login_records = [];
}

abbrev pub returning : State
returning = record fresh { did_login = true }

abbrev form_body : Option Text
form_body = some (codes "sem=3")

encode_test :
    encode ((codes "b", codes "x y") ∷ (codes "a", codes "é/") ∷ []) ≡ codes "a=%C3%A9%2F&b=x+y"
unfolding encode flat_map
encode_test = refl

-- A portal that never logs in, where an hour passes between two reads of the clock.
abbrev slow : Env
slow = record (portal 9) { clock = λ n. n * hours 1 }

abbrev tried : State
tried = (login slow true fresh).0

abbrev tried_again : State
tried_again = (login slow false tried).0

login-Spaced_example :
    Attempted slow fresh tried
    × Attempted slow tried tried_again
    × (tried.last_attempt + minutes 2 ≤ tried_again.last_attempt)
unfolding login no_credentials has_session_cookies lookup insert text_eq is_logged_in encode perform
login-Spaced_example =
    login-Spaced slow true fresh tried tried_again (λ n. omega arith) refl refl (omega arith)
      (omega arith)

login_forced_ok_example : Submitted (portal 1) fresh (login (portal 1) true fresh).0
unfolding login no_credentials has_session_cookies lookup insert text_eq is_logged_in encode perform
login_forced_ok_example = login_forced_ok (portal 1) fresh (login (portal 1) true fresh).0 refl

do_request-Frame_example :
    Frame 4 returning
      (do_request_with_headers (portal 2) post (codes "/x") form_body [] true returning).0
do_request-Frame_example = do_request-Frame (portal 2) post (codes "/x") form_body [] true returning

do_request_ok_example :
    Usable (page_at 2 4)
    × ((do_request_with_headers
          (portal 2)
          post
          (codes "/x")
          form_body
          []
          true
          returning).0.did_login
        ≡ true)
unfolding do_request_with_headers no_credentials has_session_cookies lookup insert text_eq
    is_logged_in encode
do_request_ok_example =
    do_request_ok (portal 2) post (codes "/x") form_body [] returning
      (do_request_with_headers (portal 2) post (codes "/x") form_body [] true returning).0
      (page_at 2 4) refl

retry_sends_empty_example :
    ((do_request_with_headers (portal 2) post (codes "/x") form_body [] true returning).0.sent
      ≡ composed (portal 2) post (codes "/x") (drained form_body) []
        ∷ (login
            (portal 2)
            true
            (perform (portal 2) post (codes "/x") form_body [] returning).0).0.sent)
    × ((composed (portal 2) post (codes "/x") (drained form_body) []).content ≡ [])
unfolding perform login no_credentials has_session_cookies lookup insert text_eq is_logged_in encode
retry_sends_empty_example =
    retry_sends_empty (portal 2) post (codes "/x") form_body [] returning
      (perform (portal 2) post (codes "/x") form_body [] returning).0
      (login (portal 2) true (perform (portal 2) post (codes "/x") form_body [] returning).0).0
      (page_at 2 1) refl refl refl refl refl
