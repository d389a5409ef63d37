-- ===== src/Server/SessionCache.antt =====
-- server/session_cache.go: the clients that are logged in, by credentials. A client is a pointer, of
-- any type `C`. Each method is given the instants that its calls of `time.Now` and `time.Since` read.
-- A method that runs in several critical sections is a function for each, and their composition.
pub mod View
pub mod Cleanup
pub mod Concurrent
use go_amizone.Base.{
  ℕ, ◌+◌, ◌-◌, List, [], ◌∷◌, ◌++◌, Option, none, some, Text, codes, is_empty, Map, lookup, insert,
  delete, ltb, leb, if◌then◌else◌, Result, ok, fail, panic, minutes, ℤ, pos, negsuc,
}

pub record CachedSession (C : Type 0) : Type 0 where
  pub client : C
  pub created_at : ℕ
  pub last_used : ℕ

pub record SessionCache (C : Type 0) : Type 0 where
  pub sessions : Map (CachedSession C)
  pub ttl : ℕ

abbrev pub default_session_ttl : ℕ
default_session_ttl = minutes 30

-- The options that a new client is created with; their payloads are those of amizone.go.
pub data ClientOption : Type 0 where
  with_tls_client : ClientOption
  with_cap_solver : Text → ClientOption

unfoldable pub new_session_cache : {C : Type 0} → ℤ → SessionCache C
new_session_cache (pos n) = record {
  sessions = [];
  ttl = if ltb 0 n then n else default_session_ttl;
}
new_session_cache (negsuc n) = record { sessions = []; ttl = default_session_ttl }

unfoldable pub make_key : Text → Text → Text
make_key username password = username ++ (codes ":" ++ password)

-- The options of `GetOrCreate`, by the value of the environment's CAPSOLVER_API_KEY.
unfoldable pub session_options : Text → List ClientOption
session_options api_key =
    if is_empty api_key
    then with_tls_client ∷ []
    else with_tls_client ∷ with_cap_solver api_key ∷ []

-- The four instants that a call of `GetOrCreate` may read, in the order of the code.
pub record Reads : Type 0 where
  pub checked : ℕ
  pub used : ℕ
  pub rechecked : ℕ
  pub made : ℕ

module _ {C : Type 0} where
  abbrev new_session : C → ℕ → CachedSession C
  new_session client now = record { client = client; created_at = now; last_used = now }

  -- `session.lastUsed = time.Now()`, of the session that the map holds under the key.
  abbrev touch : SessionCache C → Text → CachedSession C → ℕ → SessionCache C
  touch sc key session now = record sc {
    sessions = insert key (record session { last_used = now }) sc.sessions;
  }

  unfoldable pub set : SessionCache C → Text → Text → C → ℕ → SessionCache C
  set sc username password client now = record sc {
    sessions = insert (make_key username password) (new_session client now) sc.sessions;
  }

  unfoldable pub delete_session : SessionCache C → Text → Text → SessionCache C
  delete_session sc username password = record sc {
    sessions = delete (make_key username password) sc.sessions;
  }

  -- `now` is read by the check of the age, `used` for the time of use.
  unfoldable pub get : SessionCache C → Text → Text → ℕ → ℕ → SessionCache C × Option C
  unfolding delete_session
  get sc username password now used = elim (lookup (make_key username password) sc.sessions) [
    | none ↦ (sc, none)
    | some session ↦
        if ltb sc.ttl (now - session.created_at)
        then (delete_session sc username password, none)
        else (touch sc (make_key username password) session used, some session.client)
  ]

  -- `GetOrCreate` up to its first return: the check under the read lock.
  unfoldable pub fast_path : SessionCache C → Text → ℕ → Option (CachedSession C)
  fast_path sc key now = elim (lookup key sc.sessions) [
    | none ↦ none
    | some session ↦ if leb (now - session.created_at) sc.ttl then some session else none
  ]

  -- Its rest, under the write lock: check again, or create a client and store it. `created` is what
  -- `NewClientWithOptions` returns, and `made` the instant after it.
  unfoldable pub slow_path : SessionCache C → Text → ℕ → Result C → ℕ → SessionCache C × Result C
  unfolding fast_path
  slow_path sc key now created made = elim (fast_path sc key now) [
    | some session ↦ (sc, ok session.client)
    | none ↦ elim created [
      | ok client ↦
          (record sc { sessions = insert key (new_session client made) sc.sessions }, ok client)
      | fail e ↦ (sc, fail e)
      | panic ↦ (sc, panic)
    ]
  ]

  -- `GetOrCreate` with nobody else between its sections. `new_client` is `NewClientWithOptions`.
  unfoldable pub get_or_create :
      SessionCache C
      → Text
      → Text
      → Text
      → (Text → Text → List ClientOption → Result C)
      → Reads
      → SessionCache C × Result C
  unfolding slow_path session_options
  get_or_create sc username password api_key new_client t =
      let key = make_key username password in
      elim (fast_path sc key t.checked) [
        | some session ↦ (touch sc key session t.used, ok session.client)
        | none ↦
            slow_path sc key t.rechecked (new_client username password (session_options api_key))
              t.made
      ]

  -- The first loop of `cleanup`: the keys of the sessions that have expired.
  expired_keys : ℕ → ℕ → Map (CachedSession C) → List Text
  expired_keys ttl now [] = []
  expired_keys ttl now ((key, session) ∷ m) =
      if ltb ttl (now - session.created_at)
      then key ∷ expired_keys ttl now m
      else expired_keys ttl now m

  -- The second loop.
  delete_all : List Text → Map (CachedSession C) → Map (CachedSession C)
  delete_all [] m = m
  delete_all (key ∷ keys) m = delete_all keys (delete key m)

  unfoldable pub cleanup : SessionCache C → ℕ → SessionCache C
  unfolding expired_keys delete_all
  cleanup sc now = record sc {
    sessions = delete_all (expired_keys sc.ttl now sc.sessions) sc.sessions;
  }

  -- The loop of `Stats`, over the sessions left.
  count_sessions : ℕ → ℕ → Map (CachedSession C) → ℕ → ℕ → ℕ × ℕ
  count_sessions ttl now [] total active = (total, active)
  count_sessions ttl now ((key, session) ∷ m) total active =
      count_sessions ttl now m (total + 1)
        (if leb (now - session.created_at) ttl then active + 1 else active)

  unfoldable pub stats : SessionCache C → ℕ → ℕ × ℕ
  unfolding count_sessions
  stats sc now = count_sessions sc.ttl now sc.sessions 0 0
