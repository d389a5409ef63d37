-- ===== src/Captcha/Attempts.antt =====
-- The three attempts of `SolveTurnstile` and `SolveRecaptchaV2`.
use go_amizone.Base.{
  ℕ, suc, zero, ◌+◌, ◌<◌, ◌≡◌, refl, ap, ◌∙◌, sym, subst, List, [], ◌∷◌, ◌++◌, Option, none, some,
  Text, codes, Result, fail, arith, Option-cases, Result-cases, inl, inr,
}
use go_amizone.Captcha.{
  Json, Client, Round, Task, Action, start, pause, attempt, solve_from, solve_turnstile,
  solve_recaptcha_v2, turnstile_task, recaptcha_task,
}

-- `k` attempts from index `i` on, two seconds after each other.
abbrev pub attempts : ℕ → ℕ → List Action
attempts zero i = []
attempts (suc k) i = pause i ++ (start i ∷ attempts k (suc i))

module _ (json : Json) (c : Client) (kind : Text) (rounds : ℕ → Round) (task : Task) where
  -- Of `n` attempts from index `i` on, those before the last one that was started failed, and that one,
  -- `k` after the first, ended with `r`; `actions` are exactly the starts up to it, with the pauses.
  pub record Tried (n i : ℕ) (actions : List Action) (r : Result Text) : Type 0 where
    pub k : ℕ
    pub within : k < n
    pub failures :
        (j : ℕ) → j < k → (e : Text) × (attempt json c kind (rounds (i + j)) task ≡ some (fail e))
    pub last : attempt json c kind (rounds (i + k)) task ≡ some r
    pub stopped : (e : Text) → r ≡ fail e → suc k ≡ n
    pub started : actions ≡ attempts (suc k) i

  abbrev Ended : ℕ → Result Text → Type 0
  Ended m r = attempt json c kind (rounds m) task ≡ some r

  Tried-now :
      (n i : ℕ) (actions : List Action) (r : Result Text)
      → Ended i r
      → actions ≡ attempts 1 i
      → ((e : Text) → r ≡ fail e → n ≡ 0)
      → Tried (suc n) i actions r
  Tried-now n i actions r h only stop = record {
    k = 0;
    within = omega arith;
    failures = λ j lt. absurd (omega (arith, lt));
    last = subst (λ m. Ended m r) (omega arith) h;
    stopped = λ e x. ap suc (sym (stop e x));
    started = only;
  }

  failures_later :
      (i k : ℕ) (e : Text)
      → Ended i (fail e)
      → ((j : ℕ) → j < k → (x : Text) × Ended (suc i + j) (fail x))
      → (j : ℕ) → j < suc k
      → (x : Text) × Ended (i + j) (fail x)
  failures_later i k e h hs zero lt = (e, subst (λ m. Ended m (fail e)) (omega arith) h)
  failures_later i k e h hs (suc j) lt =
      let (x, f) = hs j (omega (arith, lt)) in (x, subst (λ m. Ended m (fail x)) (omega arith) f)

  Tried-later :
      (n i : ℕ) (actions rest_actions : List Action) (r : Result Text) (e : Text)
      → Ended i (fail e)
      → actions ≡ pause i ++ (start i ∷ rest_actions)
      → Tried n (suc i) rest_actions r
      → Tried (suc n) i actions r
  Tried-later n i actions rest_actions r e h more rest = record {
    k = suc rest.k;
    within = omega (arith, rest.within);
    failures = failures_later i rest.k e h rest.failures;
    last = subst (λ m. Ended m r) (omega arith) rest.last;
    stopped = λ x y. ap suc (rest.stopped x y);
    started = more ∙ ap (λ xs. pause i ++ (start i ∷ xs)) rest.started;
  }

  abbrev loop : ℕ → ℕ → Option Text → List Action × Option (Result Text)
  loop = solve_from json c kind rounds task

  first_attempt :
      (n i : ℕ) (last : Option Text) (r : Result Text)
      → ((x : Text) → Ended i (fail x) → Tried (suc n) i (loop (suc n) i last).0 r)
      → (loop (suc n) i last).1 ≡ some r
      → Tried (suc n) i (loop (suc n) i last).0 r
  unfolding solve_from
  first_attempt n i last r later h = elim (Option-cases (attempt json c kind (rounds i) task)) [
    | inl e ↦ ground (arith, h, e)
    | inr (v, e) ↦ elim (Result-cases v) [
      | inl (token, f) ↦
          Tried-now n i (loop (suc n) i last).0 r (ground (arith, h, e, f)) (ground (arith, e, f))
            (λ x y. ground (arith, h, e, f, y))
      | inr (inl (x, f)) ↦ later x (e ∙ ap some f)
      | inr (inr f) ↦
          Tried-now n i (loop (suc n) i last).0 r (ground (arith, h, e, f)) (ground (arith, e, f))
            (λ x y. ground (arith, h, e, f, y))
    ]
  ]

  pub solve_from-Tried :
      (n i : ℕ) (last : Option Text) (r : Result Text)
      → (loop (suc n) i last).1 ≡ some r
      → Tried (suc n) i (loop (suc n) i last).0 r
  unfolding solve_from
  solve_from-Tried zero i last r h =
      first_attempt 0 i last r
        (λ x e.
          Tried-now 0 i (loop 1 i last).0 r (ground (arith, h, e)) (ground (arith, e))
            (λ y z. refl))
        h
  solve_from-Tried (suc n) i last r h =
      first_attempt (suc n) i last r
        (λ x e.
          Tried-later (suc n) i (loop (suc (suc n)) i last).0 (loop (suc n) (suc i) (some x)).0 r x
            e (ground (arith, e)) (solve_from-Tried n (suc i) (some x) r (ground (arith, h, e))))
        h

module _ (json : Json) (c : Client) (rounds : ℕ → Round) (url key : Text) where
  -- Whatever `SolveTurnstile` returns is the outcome of the last attempt that it starts, of at most
  -- three, all earlier ones having failed, and an error is that of the third. It pauses two seconds
  -- between attempts and nowhere else.
  pub solve_turnstile_lem :
      (r : Result Text)
      → (solve_turnstile json c rounds url key).1 ≡ some r
      → Tried json c
          (codes "turnstile")
          rounds
          (turnstile_task json c url key)
          3
          0
          (solve_turnstile json c rounds url key).0
          r
  unfolding solve_turnstile
  solve_turnstile_lem r h =
      solve_from-Tried json c (codes "turnstile") rounds (turnstile_task json c url key) 2 0 none r
        h

  -- The same of `SolveRecaptchaV2`.
  pub solve_recaptcha_v2_lem :
      (r : Result Text)
      → (solve_recaptcha_v2 json c rounds url key).1 ≡ some r
      → Tried json c
          (codes "recaptcha")
          rounds
          (recaptcha_task json c url key)
          3
          0
          (solve_recaptcha_v2 json c rounds url key).0
          r
  unfolding solve_recaptcha_v2
  solve_recaptcha_v2_lem r h =
      solve_from-Tried json c (codes "recaptcha") rounds (recaptcha_task json c url key) 2 0 none r
        h
