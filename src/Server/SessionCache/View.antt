-- ===== src/Server/SessionCache/View.antt =====
-- The cache as its clients see it: for each instant, a function from keys to live clients.

use go_amizone.Base.{
  ℕ, ◌+◌, ◌≤◌, ◌≡◌, refl, List, Option, none, some, Text, text_eq, text_eq_iff, lookup,
  lookup-insert, lookup-delete, HasUniqueKeys, insert-HasUniqueKeys, delete-HasUniqueKeys, leb,
  if◌then◌else◌, Result, ok, fail, arith, Option-cases, inl, inr,
}
use go_amizone.Server.SessionCache.{
  CachedSession, SessionCache, ClientOption, make_key, get, fast_path, Reads, get_or_create,
  session_options,
}

module _ {C : Type 0} where
  -- The client of a session whose age is within the limit.
  abbrev pub live : ℕ → ℕ → Option (CachedSession C) → Option C
  live ttl now none = none
  live ttl now (some session) =
      if leb now (session.created_at + ttl) then some session.client else none

  abbrev pub view : SessionCache C → ℕ → Text → Option C
  view sc now key = live sc.ttl now (lookup key sc.sessions)

  -- `Get` answers with the live client of the key, and changes the answer of no later call.
  pub get-view :
      (sc : SessionCache C) (username password : Text) (now used : ℕ)
      → ((get sc username password now used).1 ≡ view sc now (make_key username password))
        × ((later : ℕ) (j : Text)
            → now ≤ later
            → view (get sc username password now used).0 later j ≡ view sc later j)
  unfolding get
  get-view sc username password now used = elim (Option-cases (lookup key sc.sessions)) [
    | inl missing ↦ (rw (missing, get), λ later j h. rw (missing, get))
    | inr (s, found) ↦ (
      ground arith,
      λ later j h. ground (
        arith,
        lookup-insert key j (record s { last_used = used }) sc.sessions,
        lookup-delete key j sc.sessions,
        text_eq_iff key j,
      ),
    )
  ]
    where
      key : Text
      key = make_key username password

  -- `fast_path` finds the live client, and only that.
  pub fast_path-live :
      (sc : SessionCache C) (key : Text) (now : ℕ)
      → live sc.ttl now (fast_path sc key now) ≡ view sc now key
  unfolding fast_path
  fast_path-live sc key now = ground arith

  -- A login that succeeds answers later calls for as long as the session lasts.
  abbrev pub stored : SessionCache C → Text → C → ℕ → ℕ → Text → Option C
  stored sc key client made later j =
      if text_eq key j
      then (if leb later (made + sc.ttl) then some client else none)
      else view sc later j

  -- Where the key has a live client at the first check, `GetOrCreate` returns it, whatever a login
  -- would give, and the answers of all later calls stay.
  get_or_create_hit :
      (sc : SessionCache C) (username password api_key : Text)
      (new_client : Text → Text → List ClientOption → Result C) (t : Reads) (client : C)
      → view sc t.checked (make_key username password) ≡ some client
      → ((get_or_create sc username password api_key new_client t).1 ≡ ok client)
        × ((later : ℕ) (j : Text)
            → view (get_or_create sc username password api_key new_client t).0 later j
              ≡ view sc later j)
  unfolding get_or_create fast_path
  get_or_create_hit sc username password api_key new_client t client h =
      elim (Option-cases (lookup key sc.sessions)) [
        | inl missing ↦ absurd (ground arith)
        | inr (s, found) ↦ (
          ground arith,
          λ later j. ground (
            arith,
            lookup-insert key j (record s { last_used = t.used }) sc.sessions,
            text_eq_iff key j,
          ),
        )
      ]
    where
      key : Text
      key = make_key username password

  -- Where no client is live at either check, `GetOrCreate` returns what the login gives. A new client
  -- is stored, live from then on; an error leaves the cache as it was.
  get_or_create_miss :
      (sc : SessionCache C) (username password api_key : Text)
      (new_client : Text → Text → List ClientOption → Result C) (t : Reads)
      → view sc t.checked (make_key username password) ≡ none
      → t.checked ≤ t.rechecked
      → let created = new_client username password (session_options api_key) in
        let r = get_or_create sc username password api_key new_client t in
        (r.1 ≡ created)
        × ((client : C) (later : ℕ) (j : Text)
            → created ≡ ok client
            → view r.0 later j ≡ stored sc (make_key username password) client t.made later j)
        × ((e : Text) → created ≡ fail e → r.0 ≡ sc)
  unfolding get_or_create fast_path
  get_or_create_miss sc username password api_key new_client t h le = (
    ground arith,
    λ client later j e. ground (
      arith,
      lookup-insert (make_key username password) j
          (record { client = client; created_at = t.made; last_used = t.made }) sc.sessions,
    ),
    λ e failed. ground arith,
  )

  -- What a request obtains by the live client of its key: that client, and all later answers stay; or
  -- what the login gives, with a new client stored and nothing changed by an error.
  abbrev pub Obtains :
      SessionCache C → Text → ℕ → Result C → SessionCache C → Result C → Option C → Type 0
  Obtains sc key made created after result (some client) =
      (result ≡ ok client) × ((later : ℕ) (j : Text) → view after later j ≡ view sc later j)
  Obtains sc key made created after result none =
      (result ≡ created)
      × ((client : C) (later : ℕ) (j : Text)
          → created ≡ ok client
          → view after later j ≡ stored sc key client made later j)
      × ((e : Text) → created ≡ fail e → after ≡ sc)

  -- GetOrCreate returns the client that is live under the key at the first check and keeps the
  -- answers of all later calls; without one it returns what the login gives, stores a new client,
  -- live from then on, and leaves the cache after an error. The second check is not before the first.
  pub get_or_create-Obtains :
      (sc : SessionCache C) (username password api_key : Text)
      (new_client : Text → Text → List ClientOption → Result C) (t : Reads)
      → t.checked ≤ t.rechecked
      → let r = get_or_create sc username password api_key new_client t in
        Obtains sc
          (make_key username password)
          t.made
          (new_client username password (session_options api_key))
          r.0
          r.1
          (view sc t.checked (make_key username password))
  get_or_create-Obtains sc username password api_key new_client t le =
      obtained (view sc t.checked (make_key username password)) refl
    where
      obtained :
          (live : Option C)
          → view sc t.checked (make_key username password) ≡ live
          → let r = get_or_create sc username password api_key new_client t in
            Obtains sc
              (make_key username password)
              t.made
              (new_client username password (session_options api_key))
              r.0
              r.1
              live
      obtained (some client) h =
          get_or_create_hit sc username password api_key new_client t client h
      obtained none h = get_or_create_miss sc username password api_key new_client t h le

  -- Every operation keeps the keys distinct.
  pub get-HasUniqueKeys :
      (sc : SessionCache C) (username password : Text) (now used : ℕ)
      → HasUniqueKeys sc.sessions
      → HasUniqueKeys (get sc username password now used).0.sessions
  unfolding get
  get-HasUniqueKeys sc username password now used h =
      elim (Option-cases (lookup (make_key username password) sc.sessions)) [
        | inl missing ↦ rw (missing, get) h
        | inr (s, found) ↦ ground (
          arith,
          insert-HasUniqueKeys (make_key username password) (record s { last_used = used })
              sc.sessions h,
          delete-HasUniqueKeys (make_key username password) sc.sessions h,
        )
      ]

  pub get_or_create-HasUniqueKeys :
      (sc : SessionCache C) (username password api_key : Text)
      (new_client : Text → Text → List ClientOption → Result C) (t : Reads)
      → HasUniqueKeys sc.sessions
      → HasUniqueKeys (get_or_create sc username password api_key new_client t).0.sessions
  unfolding get_or_create fast_path
  get_or_create-HasUniqueKeys sc username password api_key new_client t h =
      grind (arith, insert-HasUniqueKeys)
