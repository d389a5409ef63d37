-- ===== src/Server/SessionCache/Concurrent.antt =====
-- Requests that run at the same time on server/session_cache.go and server/server.go: each critical
-- section of `GetOrCreate`, of `authorizeCtx`'s `Delete` and of `cleanup` is one step, in any order.
pub mod Spacing
pub mod Eviction
use go_amizone.Base.{
  ℕ, ◌≤◌, ◌≡◌, List, [], ◌∷◌, Option, none, some, Text, lookup, insert, delete, ◌==◌, if◌then◌else◌,
  Result, ok, fail, panic,
}
use go_amizone.Server.SessionCache.{CachedSession, SessionCache, fast_path, slow_path, cleanup}

-- Where a request stands: before `GetOrCreate`; about to write the time of use; waiting for the write
-- lock; about to delete after an error; through.
pub data Phase (C : Type 0) : Type 0 where
  idle done : Phase C
  holding : Text → CachedSession C → Phase C
  waiting failed : Text → Phase C

-- What is recorded of a run, the latest first: a client created and stored, a key deleted on an error.
pub data Event : Type 0 where
  login : Text → ℕ → Event
  forgot : Text → Event

pub record System (C : Type 0) : Type 0 where
  pub cache : SessionCache C
  pub now : ℕ
  pub requests : ℕ → Phase C
  pub events : List Event

module _ {C : Type 0} where
  abbrev become : System C → ℕ → Phase C → System C
  become s i p = record s { requests = λ j. if j == i then p else s.requests j }

  -- The first section, under the read lock.
  abbrev looked : Text → Option (CachedSession C) → Phase C
  looked key none = waiting key
  looked key (some session) = holding key session

  pub arrive : System C → ℕ → Text → System C
  arrive s i key = become s i (looked key (fast_path s.cache key s.now))

  -- `session.lastUsed = time.Now()`: seen in the map if the session still stands there. Two sessions
  -- of one key are created at different instants, so the instant tells whether it is the same.
  abbrev write_use :
      CachedSession C → ℕ → Option (CachedSession C) → Text → SessionCache C → SessionCache C
  write_use session now none key sc = sc
  write_use session now (some present) key sc =
      if present.created_at == session.created_at
      then (record sc { sessions = insert key (record present { last_used = now }) sc.sessions })
      else sc

  pub use_session : System C → ℕ → Text → CachedSession C → System C
  use_session s i key session = record (become s i done) {
    cache = write_use session s.now (lookup key s.cache.sessions) key s.cache;
  }

  -- The section under the write lock, which lasts until `made`.
  abbrev logged : Text → ℕ → Option (CachedSession C) → Result C → List Event → List Event
  logged key made none (ok client) es = login key made ∷ es
  logged key made none r es = es
  logged key made (some session) r es = es

  abbrev entered : Text → Result C → Phase C
  entered key (ok client) = done
  entered key (fail e) = failed key
  entered key panic = done

  pub enter : System C → ℕ → Text → Result C → ℕ → System C
  unfolding slow_path
  enter s i key created made =
      let (cache', r) = slow_path s.cache key s.now created made in
      record (become s i (entered key r)) {
        cache = cache';
        now = made;
        events = logged key made (fast_path s.cache key s.now) created s.events;
      }

  -- `globalSessionCache.Delete` after an error.
  pub forget : System C → ℕ → Text → System C
  forget s i key = record (become s i done) {
    cache = record s.cache { sessions = delete key s.cache.sessions };
    events = forgot key ∷ s.events;
  }

  pub sweep : System C → System C
  sweep s = record s { cache = cleanup s.cache s.now }

  -- `created` is any outcome of a login.
  pub data Step (s : System C) : System C → Type 0 where
    arrives : (i : ℕ) (key : Text) → s.requests i ≡ idle → Step s (arrive s i key)
    uses :
        (i : ℕ) (key : Text) (session : CachedSession C)
        → s.requests i ≡ holding key session
        → Step s (use_session s i key session)
    enters :
        (i : ℕ) (key : Text) (created : Result C) (made : ℕ)
        → s.requests i ≡ waiting key
        → s.now ≤ made
        → Step s (enter s i key created made)
    forgets : (i : ℕ) (key : Text) → s.requests i ≡ failed key → Step s (forget s i key)
    sweeps : Step s (sweep s)
    passes : (t : ℕ) → s.now ≤ t → Step s (record s { now = t })

  pub data Reach (s : System C) : System C → Type 0 where
    here : Reach s s
    next : {t u : System C} → Reach s t → Step t u → Reach s u

-- The server at its start.
abbrev pub initial : (C : Type 0) → ℕ → ℕ → System C
initial C ttl now = record {
  cache = record { sessions = []; ttl = ttl };
  now = now;
  requests = λ _. idle;
  events = [];
}
