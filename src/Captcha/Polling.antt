-- ===== src/Captcha/Polling.antt =====
-- The loop of `waitForTaskResult`: which event ends it, and that the timeout does.
use go_amizone.Base.{
  ◌≡◌, ◌≢◌, refl, ap, List, [], ◌∷◌, ◌++◌, none, some, Text, codes, Result, ok, fail, arith, All,
  Option-cases, Result-cases, inl, inr, is_empty, false, true, Bool-cases, ◌==◌, text_eq,
  text_eq_iff, panic,
}
use go_amizone.Captcha.{
  Json, Client, Event, Answer, timed_out, tick, read_poll, poll, send_error, read_error, content,
  GetTaskResultResponse, capsolver_error,
}

module _ (json : Json) (c : Client) where
  -- The events that end the polling, each with its result: the timeout, an answer whose decoding
  -- panics, an error of the API, and a task that is ready, without a token or with one.
  pub data Decides (r : Result Text) : Event → Type 0 where
    times_out : r ≡ fail (codes "timeout waiting for captcha solution") → Decides r timed_out
    crashes :
        (body : Text)
        → json.unmarshal_get body ≡ panic
        → r ≡ panic
        → Decides r (tick (content body))
    refuses :
        (body : Text) (result : GetTaskResultResponse)
        → json.unmarshal_get body ≡ ok result
        → result.error_id ≢ 0
        → r ≡ fail (capsolver_error result.error_code result.error_description)
        → Decides r (tick (content body))
    lacks_token :
        (body : Text) (result : GetTaskResultResponse)
        → json.unmarshal_get body ≡ ok result
        → result.error_id ≡ 0
        → result.status ≡ codes "ready"
        → is_empty result.token ≡ true
        → r ≡ fail (codes "no token in solution")
        → Decides r (tick (content body))
    solves :
        (body : Text) (result : GetTaskResultResponse)
        → json.unmarshal_get body ≡ ok result
        → result.error_id ≡ 0
        → result.status ≡ codes "ready"
        → is_empty result.token ≡ false
        → r ≡ ok result.token
        → Decides r (tick (content body))

  -- The events after which the polling goes on: a request that failed, an answer that cannot be read
  -- or decoded, and a task without an error that is not ready.
  pub data Waits : Event → Type 0 where
    unsent : (e : Text) → Waits (tick (send_error e))
    unread : (e : Text) → Waits (tick (read_error e))
    garbled : (body e : Text) → json.unmarshal_get body ≡ fail e → Waits (tick (content body))
    processed :
        (body : Text) (result : GetTaskResultResponse)
        → json.unmarshal_get body ≡ ok result
        → result.error_id ≡ 0
        → result.status ≢ codes "ready"
        → Waits (tick (content body))

  -- The loop ends with `r` at the event `at`, after events that decided nothing.
  pub record Ends (events : List Event) (r : Result Text) : Type 0 where
    pub idle : List Event
    pub at : Event
    pub later : List Event
    pub split : events ≡ idle ++ (at ∷ later)
    pub undecided : All Waits idle
    pub decided : Decides r at

  Ends-later :
      (e : Event) (events : List Event) (r : Result Text)
      → Waits e
      → Ends events r
      → Ends (e ∷ events) r
  Ends-later e events r h rest = record {
    idle = e ∷ rest.idle;
    at = rest.at;
    later = rest.later;
    split = ap (λ es. e ∷ es) rest.split;
    undecided = (h, rest.undecided);
    decided = rest.decided;
  }

  Ends-now : (e : Event) (events : List Event) (r : Result Text) → Decides r e → Ends (e ∷ events) r
  Ends-now e events r h = record {
    idle = [];
    at = e;
    later = events;
    split = refl;
    undecided = _;
    decided = h;
  }

  -- What an answer that was decoded leads to.
  decoded :
      (body : Text) (result : GetTaskResultResponse)
      → json.unmarshal_get body ≡ ok result
      → (read_poll json c (content body) ≡ none → Waits (tick (content body)))
        × ((r : Result Text)
            → read_poll json c (content body) ≡ some r
            → Decides r (tick (content body)))
  unfolding read_poll
  decoded body result e = elim (Bool-cases (result.error_id == 0)) [
    | inr bad ↦ (
      λ h. ground (arith, h, e, bad),
      λ r h. refuses body result e (ground (arith, bad)) (ground (arith, h, e, bad)),
    )
    | inl fine ↦ elim (Bool-cases (text_eq result.status (codes "ready"))) [
      | inr other ↦ (
        λ h.
            processed body result e (ground (arith, fine))
              (λ q. ground (arith, other, q, text_eq_iff result.status (codes "ready"))),
        λ r h. ground (arith, h, e, fine, other),
      )
      | inl ready ↦ elim (Bool-cases (is_empty result.token)) [
        | inl gone ↦ (
          λ h. ground (arith, h, e, fine, ready, gone),
          λ r h.
              lacks_token body result e (ground (arith, fine))
                ((text_eq_iff result.status (codes "ready")).0 ready) gone
                (ground (arith, h, e, fine, ready, gone)),
        )
        | inr there ↦ (
          λ h. ground (arith, h, e, fine, ready, there),
          λ r h.
              solves body result e (ground (arith, fine))
                ((text_eq_iff result.status (codes "ready")).0 ready) there
                (ground (arith, h, e, fine, ready, there)),
        )
      ]
    ]
  ]

  read_poll-cases :
      (answer : Answer)
      → (read_poll json c answer ≡ none → Waits (tick answer))
        × ((r : Result Text) → read_poll json c answer ≡ some r → Decides r (tick answer))
  unfolding read_poll
  read_poll-cases (send_error e) = (λ h. unsent e, λ r h. ground (arith, h))
  read_poll-cases (read_error e) = (λ h. unread e, λ r h. ground (arith, h))
  read_poll-cases (content body) = elim (Result-cases (json.unmarshal_get body)) [
    | inl (result, e) ↦ decoded body result e
    | inr (inl (x, e)) ↦ (λ h. garbled body x e, λ r h. ground (arith, h, e))
    | inr (inr e) ↦ (λ h. ground (arith, h, e), λ r h. crashes body e (ground (arith, h, e)))
  ]

  -- The polling ends at the first event that decides, with its result: the timeout, an answer whose
  -- decoding panics, an error of the API, or a task that is ready, whose token must not be empty. All
  -- events before it are requests that failed, answers that cannot be read or decoded, and tasks
  -- without an error that are not ready.
  pub poll-Ends :
      (events : List Event) (r : Result Text) → poll json c events ≡ some r → Ends events r
  unfolding poll
  poll-Ends [] r h = ground arith
  poll-Ends (timed_out ∷ events) r h = Ends-now timed_out events r (times_out (ground arith))
  poll-Ends (tick answer ∷ events) r h = elim (Option-cases (read_poll json c answer)) [
    | inl e ↦
        Ends-later (tick answer) events r ((read_poll-cases answer).0 e)
          (poll-Ends events r (ground arith))
    | inr (v, e) ↦ Ends-now (tick answer) events r ((read_poll-cases answer).1 r (ground arith))
  ]

  -- Polling ends by the timeout at the latest.
  pub poll-decides :
      (before after : List Event) → poll json c (before ++ (timed_out ∷ after)) ≢ none
  unfolding poll
  poll-decides [] after = λ h. ground arith
  poll-decides (timed_out ∷ before) after = λ h. ground arith
  poll-decides (tick answer ∷ before) after = λ h. ground (arith, poll-decides before after)

  read_poll_token :
      (answer : Answer) (token : Text)
      → read_poll json c answer ≡ some (ok token)
      → is_empty token ≡ false
  unfolding read_poll
  read_poll_token (Answer.send_error e) token h = ground arith
  read_poll_token (Answer.read_error e) token h = ground arith
  read_poll_token (Answer.content body) token h = elim (Result-cases (json.unmarshal_get body)) [
    | inl (result, e) ↦ ground (arith, h, e)
    | inr (inl (x, e)) ↦ ground (arith, h, e)
    | inr (inr e) ↦ ground (arith, h, e)
  ]

  -- A token that the polling returns is not empty.
  pub poll_token :
      (events : List Event) (token : Text)
      → poll json c events ≡ some (ok token)
      → is_empty token ≡ false
  unfolding poll
  poll_token [] token h = ground arith
  poll_token (timed_out ∷ events) token h = ground arith
  poll_token (tick answer ∷ events) token h =
      ground (arith, poll_token events token, read_poll_token answer token)
