-- ===== src/Tests/Captcha.antt =====
-- The CAPTCHA solver against an API whose first attempt fails and whose second gives a token.
use go_amizone.Base.{
  ℕ, suc, zero, ◌≡◌, refl, List, [], ◌∷◌, some, none, Text, codes, Result, ok, is_empty, false,
  text_eq, if◌then◌else◌,
}
use go_amizone.Captcha.{
  Json, Client, Event, Round, timed_out, tick, poll, solve_turnstile, turnstile_task, send_error,
  content,
}
use go_amizone.Captcha.Polling.{Ends, poll-Ends}
use go_amizone.Captcha.Attempts.{Tried, attempts, solve_turnstile_lem}
use go_amizone.Captcha.Tokens.{HasTimeouts, solve_turnstile-decides}

-- A request is its id; a body is the token, and none at all a task that is still processed.
abbrev api_json : Json
api_json = record {
  marshal_create = λ request. ok request.client_key;
  unmarshal_create =
      λ body. ok record { error_id = 0; error_code = []; error_description = []; task_id = body };
  marshal_get = λ request. ok request.task_id;
  unmarshal_get = λ body. ok record {
    error_id = 0;
    error_code = [];
    error_description = [];
    status = if is_empty body then codes "processing" else codes "ready";
    token = body;
  };
}

abbrev solver : Client
solver = record { api_key = codes "key"; proxy = none }

abbrev polled : List Event
polled = tick (send_error []) ∷ tick (content []) ∷ tick (content (codes "tok")) ∷ timed_out ∷ []

abbrev api_rounds : ℕ → Round
api_rounds zero = record { created = λ body. send_error []; events = λ body. polled }
api_rounds (suc i) = record { created = λ body. content (codes "t1"); events = λ body. polled }

abbrev url : Text
url = codes "https://s.amizone.net"

solve_test :
    solve_turnstile api_json solver api_rounds url (codes "k")
    ≡ (attempts 2 0, some (ok (codes "tok")))
unfolding solve_turnstile text_eq
solve_test = refl

poll-Ends_example : Ends api_json solver polled (ok (codes "tok"))
unfolding poll text_eq
poll-Ends_example = poll-Ends api_json solver polled (ok (codes "tok")) refl

solve_turnstile_lem_example :
    Tried api_json solver
      (codes "turnstile")
      api_rounds
      (turnstile_task api_json solver url (codes "k"))
      3
      0
      (solve_turnstile api_json solver api_rounds url (codes "k")).0
      (ok (codes "tok"))
unfolding solve_turnstile text_eq
solve_turnstile_lem_example =
    solve_turnstile_lem api_json solver api_rounds url (codes "k") (ok (codes "tok")) refl

polled-HasTimeouts : HasTimeouts api_rounds
polled-HasTimeouts zero request =
    (tick (send_error []) ∷ tick (content []) ∷ tick (content (codes "tok")) ∷ [], [], refl)
polled-HasTimeouts (suc i) request =
    (tick (send_error []) ∷ tick (content []) ∷ tick (content (codes "tok")) ∷ [], [], refl)

solve_turnstile-decides_example :
    (r : Result Text) × ((solve_turnstile api_json solver api_rounds url (codes "k")).1 ≡ some r)
    × ((token : Text) → r ≡ ok token → is_empty token ≡ false)
solve_turnstile-decides_example =
    solve_turnstile-decides api_json solver api_rounds url (codes "k") polled-HasTimeouts
