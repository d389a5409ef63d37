-- ===== src/Server/SessionCache/Concurrent/Spacing.antt =====
-- Logins of one user are further apart than the time to live, unless an error made the server forget
-- the user's session in between.
use go_amizone.Base.{
  ℕ, ◌+◌, ◌≤◌, ◌<◌, ◌≡◌, refl, inl, inr, true, false, List, [], ◌∷◌, Option, none, some, Text,
  text_eq, text_eq_iff, lookup, insert, lookup-insert, lookup-delete, Map, ◌∙◌, HasUniqueKeys,
  insert-HasUniqueKeys, delete-HasUniqueKeys, select, Result, ok, fail, panic, arith, Option-cases,
}
use go_amizone.Server.SessionCache.{CachedSession, fast_path, cleanup}
use go_amizone.Server.SessionCache.Cleanup.{
  cleanup_lem, is_active, lookup-select, select-HasUniqueKeys,
}
use go_amizone.Server.SessionCache.Concurrent.{
  Event, login, forgot, System, Phase, done, failed, become, arrive, use_session, enter, forget,
  sweep, Step, arrives, uses, enters, forgets, sweeps, passes, Reach, here, next, initial,
}

-- `P` holds of the instants of the logins of `k` since the server last forgot it.
abbrev pub Recent : (ℕ → Type 0) → Text → List Event → Type 0
Recent P k [] = Unit
Recent P k (login j t ∷ es) = (text_eq j k ≡ true → P t) × Recent P k es
Recent P k (forgot j ∷ es) = text_eq j k ≡ false → Recent P k es

-- Each login comes more than `ttl` after the earlier logins of its key since that was last forgotten.
abbrev pub Spaced : ℕ → List Event → Type 0
Spaced ttl [] = Unit
Spaced ttl (login k t ∷ es) = Recent (λ t'. t' + ttl < t) k es × Spaced ttl es
Spaced ttl (forgot k ∷ es) = Spaced ttl es

Recent-mono :
    (P Q : ℕ → Type 0) (k : Text) (es : List Event)
    → ((t : ℕ) → P t → Q t)
    → Recent P k es
    → Recent Q k es
Recent-mono P Q k [] f h = tt
Recent-mono P Q k (login j t ∷ es) f h = (λ same. f t (h.0 same), Recent-mono P Q k es f h.1)
Recent-mono P Q k (forgot j ∷ es) f h = λ other. Recent-mono P Q k es f (h other)

-- A login at `t` is over, or the map holds a session of its key that is no older.
abbrev Covered : {C : Type 0} → ℕ → ℕ → Option (CachedSession C) → ℕ → Type 0
Covered ttl now none t = (t ≤ now) × (t + ttl < now)
Covered ttl now (some s) t = (t ≤ now) × (t ≤ s.created_at)

record Inv {C : Type 0} (s : System C) : Type 0 where
  unique : HasUniqueKeys s.cache.sessions
  covered : (k : Text) → Recent (Covered s.cache.ttl s.now (lookup k s.cache.sessions)) k s.events
  spaced : Spaced s.cache.ttl s.events

module _ {C : Type 0} where
  -- A step that records no event.
  Inv-quiet :
      (s s' : System C)
      → s'.cache.ttl ≡ s.cache.ttl
      → s'.events ≡ s.events
      → HasUniqueKeys s'.cache.sessions
      → ((k : Text) (t : ℕ)
          → Covered s.cache.ttl s.now (lookup k s.cache.sessions) t
          → Covered s.cache.ttl s'.now (lookup k s'.cache.sessions) t)
      → Inv s
      → Inv s'
  Inv-quiet s s' same_ttl same_events unique keep v = record {
    unique = unique;
    covered = λ k.
        rw (same_ttl, same_events)
          (Recent-mono (Covered s.cache.ttl s.now (lookup k s.cache.sessions)) _ k s.events (keep k)
            (v.covered k));
    spaced = rw (same_ttl, same_events) v.spaced;
  }

  Covered-later :
      (ttl now later : ℕ) (k : Text) (m : Map (CachedSession C)) (t : ℕ)
      → now ≤ later
      → Covered ttl now (lookup k m) t
      → Covered ttl later (lookup k m) t
  Covered-later ttl now later k m t le c = ground (arith, Option-cases (lookup k m))

  use_session-Inv :
      (s : System C) (i : ℕ) (key : Text) (session : CachedSession C)
      → Inv s
      → Inv (use_session s i key session)
  unfolding use_session
  use_session-Inv s i key session v = elim (Option-cases (lookup key s.cache.sessions)) [
    | inl missing ↦
        Inv-quiet s (use_session s i key session) (rw missing) refl (rw missing v.unique)
          (λ k t c. rw missing c) v
    | inr (p, found) ↦
        Inv-quiet s (use_session s i key session) (rw found (ground arith)) refl
          (rw found (
            ground (
              arith,
              insert-HasUniqueKeys key (record p { last_used = s.now }) s.cache.sessions v.unique,
            )))
          (λ k t c. rw found (
            ground (
              arith,
              lookup-insert key k (record p { last_used = s.now }) s.cache.sessions,
              text_eq_iff key k,
            )))
          v
  ]

  sweep-Inv : (s : System C) → Inv s → Inv (sweep s)
  unfolding sweep
  sweep-Inv s v = rw (cleanup_lem s.cache s.now v.unique) (
      Inv-quiet s
        (record s {
          cache = record s.cache {
            sessions = select (is_active s.cache.ttl s.now) s.cache.sessions;
          };
        })
        refl refl (select-HasUniqueKeys (is_active s.cache.ttl s.now) s.cache.sessions v.unique)
        (λ k t c. ground (arith, lookup-select s.cache.ttl s.now k s.cache.sessions v.unique)) v)

  forget-Inv : (s : System C) (i : ℕ) (key : Text) → Inv s → Inv (forget s i key)
  unfolding forget
  forget-Inv s i key v = record {
    unique = delete-HasUniqueKeys key s.cache.sessions v.unique;
    covered = λ k other.
        Recent-mono (Covered s.cache.ttl s.now (lookup k s.cache.sessions)) _ k s.events
          (λ t c. ground (arith, lookup-delete key k s.cache.sessions)) (v.covered k);
    spaced = v.spaced;
  }

  -- A client was created: no session of the key was live, so its logins are over.
  created-Inv :
      (s s' : System C) (key : Text) (client : C) (made : ℕ)
      → fast_path s.cache key s.now ≡ none
      → s.now ≤ made
      → s'.cache ≡ record s.cache {
        sessions =
            insert key
              (record { client = client; created_at = made; last_used = made })
              s.cache.sessions;
      }
      → s'.now ≡ made
      → s'.events ≡ login key made ∷ s.events
      → Inv s
      → Inv s'
  unfolding fast_path
  created-Inv s s' key client made stale le same_cache same_now same_events v =
      rw (same_cache, same_now, same_events)
        (record {
          unique =
              insert-HasUniqueKeys key
                (record { client = client; created_at = made; last_used = made }) s.cache.sessions
                v.unique;
          covered = λ k. (
            (λ same. ground (arith, lookup-insert key k fresh s.cache.sessions, text_eq_iff key k)),
            Recent-mono (Covered s.cache.ttl s.now (lookup k s.cache.sessions)) _ k s.events
                (λ t c.
                  ground (arith, lookup-insert key k fresh s.cache.sessions, text_eq_iff key k))
                (v.covered k),
          );
          spaced = (
            Recent-mono (Covered s.cache.ttl s.now (lookup key s.cache.sessions)) _ key s.events
                (λ t c. ground arith) (v.covered key),
            v.spaced,
          );
        })
    where
      fresh : CachedSession C
      fresh = record { client = client; created_at = made; last_used = made }

  -- A section that creates no client changes the time and the request's phase alone.
  enter-Inv_quiet :
      (s : System C) (i : ℕ) (key : Text) (created : Result C) (made : ℕ) (p : Phase C)
      → s.now ≤ made
      → enter s i key created made ≡ record (become s i p) { now = made }
      → Inv s
      → Inv (enter s i key created made)
  enter-Inv_quiet s i key created made p le same v = rw same (
      Inv-quiet s (record (become s i p) { now = made }) refl refl v.unique
        (λ k t c. Covered-later s.cache.ttl s.now made k s.cache.sessions t le c) v)

  enter-Inv :
      (s : System C) (i : ℕ) (key : Text) (created : Result C) (made : ℕ)
      → s.now ≤ made
      → Inv s
      → Inv (enter s i key created made)
  unfolding enter
  enter-Inv s i key created made le v = elim (Option-cases (fast_path s.cache key s.now)) [
    | inl stale ↦ missed created stale
    | inr (session, fresh) ↦ enter-Inv_quiet s i key created made done le (ground arith) v
  ]
    where
      missed : (r : Result C) → fast_path s.cache key s.now ≡ none → Inv (enter s i key r made)
      missed (ok client) stale =
          created-Inv s (enter s i key (ok client) made) key client made stale le (ground arith)
            refl (ground arith) v
      missed (fail e) stale = enter-Inv_quiet s i key (fail e) made (failed key) le (ground arith) v
      missed panic stale = enter-Inv_quiet s i key panic made done le (ground arith) v

  Step-Inv : {s t : System C} → Inv s → Step s t → Inv t
  unfolding arrive
  Step-Inv {s} v (arrives i key e) = record {
    unique = v.unique;
    covered = v.covered;
    spaced = v.spaced;
  }
  Step-Inv {s} v (uses i key session e) = use_session-Inv s i key session v
  Step-Inv {s} v (enters i key created made e le) = enter-Inv s i key created made le v
  Step-Inv {s} v (forgets i key e) = forget-Inv s i key v
  Step-Inv {s} v sweeps = sweep-Inv s v
  Step-Inv {s} v (passes t le) =
      Inv-quiet s (record s { now = t }) refl refl v.unique
        (λ k t' c. Covered-later s.cache.ttl s.now t k s.cache.sessions t' le c) v

  Reach-Inv : {s t : System C} → Inv s → Reach s t → Inv t
  Reach-Inv v here = v
  Reach-Inv v (next r st) = Step-Inv (Reach-Inv v r) st

  Step-ttl : {s t : System C} → Step s t → t.cache.ttl ≡ s.cache.ttl
  unfolding arrive use_session enter forget sweep cleanup
  Step-ttl (arrives i key e) = refl
  Step-ttl {s} (uses i key session e) = ground arith
  Step-ttl (enters i key created made e le) = ground arith
  Step-ttl (forgets i key e) = refl
  Step-ttl sweeps = refl
  Step-ttl (passes t le) = refl

  Reach-ttl : {s t : System C} → Reach s t → t.cache.ttl ≡ s.cache.ttl
  Reach-ttl here = refl
  Reach-ttl (next r st) = Step-ttl st ∙ Reach-ttl r

-- In every run of the server, a login of a key comes more than the time to live after each earlier
-- login of that key, back to the last time that an error made the server forget the key.
pub Reach-Spaced :
    {C : Type 0} (ttl now : ℕ) (s : System C) → Reach (initial C ttl now) s → Spaced ttl s.events
Reach-Spaced {C} ttl now s r =
    rw (Reach-ttl r) at
      (Reach-Inv (record { unique = tt; covered = λ k. tt; spaced = tt }) r).spaced
