-- ===== src/Captcha.antt =====
-- amizone/capsolver/capsolver.go: the client of the CapSolver API. What the HTTP client gives for a
-- POST, the coding of JSON, and the ticks and the timeout of the polling are parameters.
pub mod Polling
pub mod Attempts
pub mod Tokens
use go_amizone.Base.{
  ℕ, suc, zero, not, List, [], ◌∷◌, ◌++◌, Option, none, some, Text, codes, Result, ok, fail, panic,
  is_empty, text_eq, seconds, ◌==◌, if◌then◌else◌,
}

pub data TaskType : Type 0 where
  turnstile_proxy_less turnstile recaptcha_v2_proxy_less recaptcha_v2 : TaskType

pub record ProxyInfo : Type 0 where
  pub proxy_type : Text
  pub proxy_address : Text
  pub proxy_login : Text
  pub proxy_password : Text

pub record Client : Type 0 where
  pub api_key : Text
  pub proxy : Option ProxyInfo

unfoldable pub new_client : Text → Client
new_client api_key = record { api_key = api_key; proxy = none }

unfoldable pub with_proxy : Client → Text → Text → Text → Text → Client
with_proxy c proxy_type address login password = record c {
  proxy = some record {
    proxy_type = proxy_type;
    proxy_address = address;
    proxy_login = login;
    proxy_password = password;
  };
}

-- `TurnstileTask` and `RecaptchaV2Task`: their fields, less the metadata that is never set.
pub record Task : Type 0 where
  pub type : TaskType
  pub website_url : Text
  pub website_key : Text
  pub proxy : Option ProxyInfo

pub record CreateTaskRequest : Type 0 where
  pub client_key : Text
  pub task : Task

-- Error ids are compared with zero alone.
pub record CreateTaskResponse : Type 0 where
  pub error_id : ℕ
  pub error_code : Text
  pub error_description : Text
  pub task_id : Text

pub record GetTaskResultRequest : Type 0 where
  pub client_key : Text
  pub task_id : Text

pub record GetTaskResultResponse : Type 0 where
  pub error_id : ℕ
  pub error_code : Text
  pub error_description : Text
  pub status : Text
  pub token : Text

-- `json.Marshal` and `json.Unmarshal` at these types.
pub record Json : Type 0 where
  pub marshal_create : CreateTaskRequest → Result Text
  pub unmarshal_create : Text → Result CreateTaskResponse
  pub marshal_get : GetTaskResultRequest → Result Text
  pub unmarshal_get : Text → Result GetTaskResultResponse

-- The outcome of a POST and of reading the answer's body.
pub data Answer : Type 0 where
  send_error read_error : Text → Answer
  content : Text → Answer

-- What one `select` of the polling yields: the timeout, or a tick with the answer to the POST that
-- follows it.
pub data Event : Type 0 where
  timed_out : Event
  tick : Answer → Event

-- What the surroundings do in one attempt.
pub record Round : Type 0 where
  pub created : Text → Answer
  pub events : Text → List Event

-- What the loop of attempts does: it sleeps, and it starts an attempt.
pub data Action : Type 0 where
  sleep : ℕ → Action
  start : ℕ → Action

-- The pause before every attempt but the first.
abbrev pub pause : ℕ → List Action
pause zero = []
pause (suc i) = sleep (seconds 2) ∷ []

abbrev pub capsolver_error : Text → Text → Text
capsolver_error code description = codes "capsolver error " ++ (code ++ (codes ": " ++ description))

module _ (json : Json) (c : Client) where
  -- The checks of the answer to `createTask`.
  unfoldable pub read_created : Text → Result Text
  read_created body = elim (json.unmarshal_create body) [
    | fail e ↦ fail (codes "failed to unmarshal response: " ++ e)
    | panic ↦ panic
    | ok result ↦
        if not (result.error_id == 0)
        then fail (capsolver_error result.error_code result.error_description)
        else (if is_empty result.task_id
            then fail (codes "no task ID returned")
            else ok result.task_id)
  ]

  -- `createTask`; `post` is the POST to the API and the reading of the answer.
  unfoldable pub create_task : (Text → Answer) → Task → Result Text
  unfolding read_created
  create_task post task =
      elim (json.marshal_create (record { client_key = c.api_key; task = task })) [
        | fail e ↦ fail (codes "failed to marshal request: " ++ e)
        | panic ↦ panic
        | ok json_data ↦ elim (post json_data) [
          | send_error e ↦ fail (codes "failed to send request: " ++ e)
          | read_error e ↦ fail (codes "failed to read response: " ++ e)
          | content body ↦ read_created body
        ]
      ]

  -- What one answer to a poll decides; `none` is to go on.
  unfoldable pub read_poll : Answer → Option (Result Text)
  unfolding text_eq
  read_poll (send_error e) = none
  read_poll (read_error e) = none
  read_poll (content body) = elim (json.unmarshal_get body) [
    | fail e ↦ none
    | panic ↦ some panic
    | ok result ↦
        if not (result.error_id == 0)
        then some (fail (capsolver_error result.error_code result.error_description))
        else (if text_eq result.status (codes "ready")
            then (if is_empty result.token
                then some (fail (codes "no token in solution"))
                else some (ok result.token))
            else none)
  ]

  -- The loop of `waitForTaskResult`, on what its selects yield; `none` is a loop that runs on.
  unfoldable pub poll : List Event → Option (Result Text)
  unfolding read_poll
  poll [] = none
  poll (timed_out ∷ events) = some (fail (codes "timeout waiting for captcha solution"))
  poll (tick answer ∷ events) = elim (read_poll answer) [ none ↦ poll events | some r ↦ some r ]

  -- `waitForTaskResult`; the events depend on the request that is sent after every tick.
  unfoldable pub wait_for_task_result : (Text → List Event) → Text → Option (Result Text)
  unfolding poll
  wait_for_task_result events task_id =
      elim (json.marshal_get (record { client_key = c.api_key; task_id = task_id })) [
        | fail e ↦ some (fail (codes "failed to marshal request: " ++ e))
        | panic ↦ some panic
        | ok json_data ↦ poll (events json_data)
      ]

  -- One pass of the loop of `SolveTurnstile` or `SolveRecaptchaV2`, with its two messages.
  unfoldable pub attempt : Text → Round → Task → Option (Result Text)
  unfolding create_task wait_for_task_result
  attempt kind round task = elim (create_task round.created task) [
    | fail e ↦ some (fail (codes "failed to create " ++ (kind ++ (codes " task: " ++ e))))
    | panic ↦ some panic
    | ok task_id ↦ elim (wait_for_task_result round.events task_id) [
      | none ↦ none
      | some r ↦ elim r [
        | ok token ↦ some (ok token)
        | fail e ↦ some (fail (codes "failed to get " ++ (kind ++ (codes " solution: " ++ e))))
        | panic ↦ some panic
      ]
    ]
  ]

  -- The rest of the loop: `n` passes from index `i` on, with the last error so far.
  unfoldable pub solve_from :
      Text → (ℕ → Round) → Task → ℕ → ℕ → Option Text → List Action × Option (Result Text)
  unfolding attempt
  solve_from kind rounds task zero i last =
      ([], elim last [ none ↦ some (ok []) | some e ↦ some (fail e) ])
  solve_from kind rounds task (suc n) i last = elim (attempt kind (rounds i) task) [
    | none ↦ (pause i ++ (start i ∷ []), none)
    | some r ↦ elim r [
      | ok token ↦ (pause i ++ (start i ∷ []), some (ok token))
      | panic ↦ (pause i ++ (start i ∷ []), some panic)
      | fail e ↦
          let (actions, r) = solve_from kind rounds task n (suc i) (some e) in
          (pause i ++ (start i ∷ actions), r)
    ]
  ]

  unfoldable pub turnstile_task : Text → Text → Task
  turnstile_task website_url website_key = record {
    type = turnstile_proxy_less;
    website_url = website_url;
    website_key = website_key;
    proxy = none;
  }

  unfoldable pub solve_turnstile : (ℕ → Round) → Text → Text → List Action × Option (Result Text)
  unfolding solve_from turnstile_task
  solve_turnstile rounds website_url website_key =
      solve_from (codes "turnstile") rounds (turnstile_task website_url website_key) 3 0 none

  unfoldable pub recaptcha_task : Text → Text → Task
  recaptcha_task website_url website_key = record {
    type = elim c.proxy [ none ↦ recaptcha_v2_proxy_less | some p ↦ recaptcha_v2 ];
    website_url = website_url;
    website_key = website_key;
    proxy = c.proxy;
  }

  unfoldable pub solve_recaptcha_v2 : (ℕ → Round) → Text → Text → List Action × Option (Result Text)
  unfolding solve_from recaptcha_task
  solve_recaptcha_v2 rounds website_url website_key =
      solve_from (codes "recaptcha") rounds (recaptcha_task website_url website_key) 3 0 none
