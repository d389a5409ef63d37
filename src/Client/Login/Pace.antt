-- ===== src/Client/Login/Pace.antt =====
-- How far apart the attempts of two logins are.
use go_amizone.Base.{
  ℕ, subst, suc, ap, sym, List, ◌+◌, ◌-◌, ◌≡◌, ◌≤◌, ◌<◌, inl, inr, ◌⊎◌, Bool, true, false, length,
  ltb, minutes, hours, arith, Bool-cases,
}
use go_amizone.Client.Types.{Env, State}
use go_amizone.Client.Login.{login, login_body, attempt, throttle, reuse, jar_logged_in}
use go_amizone.Client.Login.Attempts.{Attempted, attempt-Attempted, clock_mono}

module _ (env : Env) where
  -- A login that sent nothing, or an attempt two minutes or more after the one before.
  abbrev Paced : State → State → Type 0
  Paced s s' =
      (s'.sent ≡ s.sent) ⊎ (Attempted env s s' × (s.last_attempt + minutes 2 ≤ s'.last_attempt))

  module _ (monotone : (n : ℕ) → env.clock n ≤ env.clock (suc n)) where
    -- An attempt after a read of the clock that is two minutes or more after the last one.
    spaced :
        (s : State)
        → ltb (env.clock s.reads - s.last_attempt) (minutes 2) ≡ false
        → Attempted env s (attempt env (record s { reads = suc s.reads })).0
          × (s.last_attempt + minutes 2
              ≤ (attempt env (record s { reads = suc s.reads })).0.last_attempt)
    spaced s old =
        let a = attempt-Attempted env (record s { reads = suc s.reads }) in
        let before = clock_mono env.clock monotone s.reads a.read (omega (arith, a.from)) in
        (
          record { read = a.read; from = omega (arith, a.from); until = a.until; at = a.at },
          ground (arith, old, before, a.at),
        )

    throttle-Paced : (s : State) → Paced s (throttle env s).0
    unfolding throttle
    throttle-Paced s = pace (Bool-cases (ltb (env.clock s.reads - s.last_attempt) (minutes 2)))
      where
        pace :
            (ltb (env.clock s.reads - s.last_attempt) (minutes 2) ≡ true)
              ⊎ (ltb (env.clock s.reads - s.last_attempt) (minutes 2) ≡ false)
            → Paced s (throttle env s).0
        pace (inl recent) = inl (ground (arith, recent))
        pace (inr old) = inr (rw old (spaced s old))

    -- One more read of the clock before it.
    Paced-later : (s s' : State) → Paced (record s { reads = suc s.reads }) s' → Paced s s'
    Paced-later s s' (inl same) = inl same
    Paced-later s s' (inr (a, gap)) =
        inr
          (record { read = a.read; from = omega (arith, a.from); until = a.until; at = a.at }, gap)

    reuse-Paced : (s : State) → Paced s (reuse env s).0
    unfolding reuse
    reuse-Paced s =
        by_cookies (Bool-cases (jar_logged_in env s))
          (Bool-cases (ltb (env.clock s.reads - s.last_login_success) (hours 1)))
      where
        by_cookies :
            (jar_logged_in env s ≡ true) ⊎ (jar_logged_in env s ≡ false)
            → (ltb (env.clock s.reads - s.last_login_success) (hours 1) ≡ true)
              ⊎ (ltb (env.clock s.reads - s.last_login_success) (hours 1) ≡ false)
            → Paced s (reuse env s).0
        by_cookies (inr none_there) age = rw none_there (throttle-Paced s)
        by_cookies (inl there) (inl recent) = inl (ground (arith, there, recent))
        by_cookies (inl there) (inr old) =
            rw (there, old)
              (Paced-later s (throttle env (record s { reads = suc s.reads })).0
                (throttle-Paced (record s { reads = suc s.reads })))

    -- The record of the outcome changes none of this.
    Paced-recorded :
        (s s' : State) (records : List Bool)
        → Paced s s'
        → Paced s (record s' { login_records = records })
    Paced-recorded s s' records (inl same) = inl same
    Paced-recorded s s' records (inr (a, gap)) =
        inr (record { read = a.read; from = a.from; until = a.until; at = a.at }, gap)

    login-Paced : (s : State) → Paced s (login env false s).0
    unfolding login login_body
    login-Paced s = Paced-recorded s (reuse env s).0 _ (reuse-Paced s)

  attempt_of :
      (s s' : State)
      → Paced s s'
      → length s.sent < length s'.sent
      → Attempted env s s' × (s.last_attempt + minutes 2 ≤ s'.last_attempt)
  attempt_of s s' (inl same) more = absurd (omega (arith, ap length same, more))
  attempt_of s s' (inr spaced) more = spaced

  started :
      ((n : ℕ) → env.clock n ≤ env.clock (suc n))
      → (force : Bool) (s u : State) → (login env force s).0 ≡ u
      → length s.sent < length u.sent
      → Attempted env s (login env force s).0
  unfolding login login_body
  started monotone true s u first more =
      let a = attempt-Attempted env s in
      record { read = a.read; from = a.from; until = a.until; at = a.at }
  started monotone false s u first more =
      (attempt_of s (login env false s).0 (login-Paced monotone s)
        (subst (λ x. length s.sent < length x.sent) (sym first) more)).0

  -- Two logins of one client in a row, the second without force, that both call http.Client.Do: each
  -- attempt is dated by a read of the clock in its call, and the second is at least two minutes after
  -- the first, where the clock does not go back.
  pub login-Spaced :
      (force : Bool) (s u v : State)
      → ((n : ℕ) → env.clock n ≤ env.clock (suc n))
      → (login env force s).0 ≡ u
      → (login env false u).0 ≡ v
      → length s.sent < length u.sent
      → length u.sent < length v.sent
      → Attempted env s u × Attempted env u v × (u.last_attempt + minutes 2 ≤ v.last_attempt)
  login-Spaced force s u v monotone first second sends sends_again =
      let (a, gap) = attempt_of u v (subst (Paced u) second (login-Paced monotone u)) sends_again in
      (subst (Attempted env s) first (started monotone force s u first sends), a, gap)
