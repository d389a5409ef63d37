-- ===== src/Captcha/Tokens.antt =====
-- The tokens that `SolveTurnstile` returns, and that it returns.
use go_amizone.Base.{
  ℕ, suc, zero, ◌≡◌, ◌≢◌, ap, ◌∙◌, sym, List, ◌∷◌, ◌++◌, ◌+◌, Option, none, some, Text, codes,
  Result, ok, arith, Option-cases, Result-cases, inl, inr, is_empty, false,
}
use go_amizone.Captcha.{
  Json, Client, Event, Round, Task, timed_out, create_task, poll, wait_for_task_result, attempt,
  solve_from, solve_turnstile, turnstile_task,
}
use go_amizone.Captcha.Polling.{poll-decides, poll_token}
use go_amizone.Captcha.Attempts.{solve_from-Tried}

-- In every attempt the timeout is among what the selects yield, after finitely many ticks.
abbrev pub HasTimeouts : (ℕ → Round) → Type 0
HasTimeouts rounds =
    (i : ℕ) (request : Text)
    → (before : List Event) × (after : List Event) × ((rounds i).events request
        ≡ before ++ (timed_out ∷ after))

module _ (json : Json) (c : Client) where
  wait_token :
      (events : Text → List Event) (task_id token : Text)
      → wait_for_task_result json c events task_id ≡ some (ok token)
      → is_empty token ≡ false
  unfolding wait_for_task_result
  wait_token events task_id token h =
      elim (Result-cases
        (json.marshal_get (record { client_key = c.api_key; task_id = task_id }))) [
          | inl (data_sent, e) ↦ poll_token json c (events data_sent) token (ground (arith, h, e))
          | inr (inl (x, e)) ↦ ground (arith, h, e)
          | inr (inr e) ↦ ground (arith, h, e)
        ]

  wait-decides :
      (rounds : ℕ → Round) (i : ℕ) (task_id : Text)
      → HasTimeouts rounds
      → wait_for_task_result json c (rounds i).events task_id ≢ none
  unfolding wait_for_task_result
  wait-decides rounds i task_id times h =
      elim (Result-cases
        (json.marshal_get (record { client_key = c.api_key; task_id = task_id }))) [
          | inl (data_sent, e) ↦
              let (before, after, split) = times i data_sent in
              poll-decides json c before after (ap (poll json c) (sym split) ∙ ground (arith, h, e))
          | inr (inl (x, e)) ↦ ground (arith, h, e)
          | inr (inr e) ↦ ground (arith, h, e)
        ]

  attempt_token :
      (kind : Text) (round : Round) (task : Task) (token : Text)
      → attempt json c kind round task ≡ some (ok token)
      → is_empty token ≡ false
  unfolding attempt
  attempt_token kind round task token h =
      elim (Result-cases (create_task json c round.created task)) [
        | inl (id, e) ↦ elim (Option-cases (wait_for_task_result json c round.events id)) [
          | inl f ↦ ground (arith, h, e, f)
          | inr (r, f) ↦ elim (Result-cases r) [
            | inl (t, g) ↦ wait_token round.events id token (ground (arith, h, e, f, g))
            | inr (inl (x, g)) ↦ ground (arith, h, e, f, g)
            | inr (inr g) ↦ ground (arith, h, e, f, g)
          ]
        ]
        | inr (inl (x, e)) ↦ ground (arith, h, e)
        | inr (inr e) ↦ ground (arith, h, e)
      ]

  attempt-decides :
      (kind : Text) (rounds : ℕ → Round) (i : ℕ) (task : Task)
      → HasTimeouts rounds
      → attempt json c kind (rounds i) task ≢ none
  unfolding attempt
  attempt-decides kind rounds i task times h =
      elim (Result-cases (create_task json c (rounds i).created task)) [
        | inl (id, e) ↦ elim (Option-cases (wait_for_task_result json c (rounds i).events id)) [
          | inl f ↦ wait-decides rounds i id times f
          | inr (r, f) ↦ elim (Result-cases r) [
            | inl (t, g) ↦ ground (arith, h, e, f, g)
            | inr (inl (x, g)) ↦ ground (arith, h, e, f, g)
            | inr (inr g) ↦ ground (arith, h, e, f, g)
          ]
        ]
        | inr (inl (x, e)) ↦ ground (arith, h, e)
        | inr (inr e) ↦ ground (arith, h, e)
      ]

  solve_from-decides :
      (kind : Text) (rounds : ℕ → Round) (task : Task) (n i : ℕ) (last : Option Text)
      → HasTimeouts rounds
      → (solve_from json c kind rounds task n i last).1 ≢ none
  unfolding solve_from
  solve_from-decides kind rounds task zero i none times h = ground (arith, h)
  solve_from-decides kind rounds task zero i (some e) times h = ground (arith, h)
  solve_from-decides kind rounds task (suc n) i last times h =
      elim (Option-cases (attempt json c kind (rounds i) task)) [
        | inl e ↦ attempt-decides kind rounds i task times e
        | inr (v, e) ↦ elim (Result-cases v) [
          | inl (token, f) ↦ ground (arith, h, e, f)
          | inr (inl (x, f)) ↦
              solve_from-decides kind rounds task n (suc i) (some x) times (ground (arith, h, e, f))
          | inr (inr f) ↦ ground (arith, h, e, f)
        ]
      ]

  -- `SolveTurnstile` returns, when each of its pollings sees the timeout after finitely many ticks;
  -- and a token that it returns is not empty.
  pub solve_turnstile-decides :
      (rounds : ℕ → Round) (url key : Text)
      → HasTimeouts rounds
      → (r : Result Text) × ((solve_turnstile json c rounds url key).1 ≡ some r)
        × ((token : Text) → r ≡ ok token → is_empty token ≡ false)
  unfolding solve_turnstile
  solve_turnstile-decides rounds url key times =
      elim (Option-cases (solve_turnstile json c rounds url key).1) [
        | inl e ↦ absurd (
            solve_from-decides (codes "turnstile") rounds (turnstile_task json c url key) 3 0 none
              times e)
        | inr (r, e) ↦
            let tried =
              solve_from-Tried json c (codes "turnstile") rounds (turnstile_task json c url key) 2 0
                none r e in
            (
              r,
              e,
              λ token f.
                  attempt_token (codes "turnstile") (rounds (0 + tried.k))
                    (turnstile_task json c url key) token (tried.last ∙ ap some f),
            )
      ]
