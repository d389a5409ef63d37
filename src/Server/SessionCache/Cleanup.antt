-- ===== src/Server/SessionCache/Cleanup.antt =====
-- `cleanup` and `Stats` of server/session_cache.go: what the two loops of `cleanup` leave in the map,
-- and what `Stats` counts.
use go_amizone.Base.{
  ℕ, ◌+◌, ◌-◌, ◌≤◌, ◌≡◌, refl, Bool, false, List, [], ◌∷◌, none, some, Text, text_eq, text_eq_iff,
  text_eq_refl, lookup, delete, Map, IsAbsent, HasUniqueKeys, ltb, leb, if◌then◌else◌, select,
  length, All, arith, Option-cases, Bool-cases, inl, inr, subst, lookup_of_IsAbsent,
  length-select-le,
}
use go_amizone.Server.SessionCache.{
  CachedSession, SessionCache, expired_keys, delete_all, cleanup, count_sessions, stats,
}
use go_amizone.Server.SessionCache.View.{view}

-- None of the keys is `k`.
abbrev OmitsKey : Text → List Text → Type 0
OmitsKey k = All (λ j. text_eq k j ≡ false)

module _ {C : Type 0} where
  -- The test of `Stats`, on an entry of the map.
  abbrev pub is_active : ℕ → ℕ → Text × CachedSession C → Bool
  is_active ttl now entry = leb (now - entry.1.created_at) ttl

  delete_of_IsAbsent : (k : Text) (m : Map (CachedSession C)) → IsAbsent k m → delete k m ≡ m
  unfolding delete
  delete_of_IsAbsent k [] h = refl
  delete_of_IsAbsent k ((j, s) ∷ m) h = ground (arith, delete_of_IsAbsent k m h.1)

  delete_all_cons :
      (keys : List Text) (k : Text) (s : CachedSession C) (m : Map (CachedSession C))
      → OmitsKey k keys
      → delete_all keys ((k, s) ∷ m) ≡ (k, s) ∷ delete_all keys m
  unfolding delete_all delete
  delete_all_cons [] k s m h = refl
  delete_all_cons (j ∷ keys) k s m h = rw (h.0) (delete_all_cons keys k s (delete j m) h.1)

  expired_keys-OmitsKey :
      (ttl now : ℕ) (k : Text) (m : Map (CachedSession C))
      → IsAbsent k m
      → OmitsKey k (expired_keys ttl now m)
  unfolding expired_keys
  expired_keys-OmitsKey ttl now k [] h = tt
  expired_keys-OmitsKey ttl now k ((j, s) ∷ m) h =
      ground (arith, text_eq_iff k j, text_eq_iff j k, expired_keys-OmitsKey ttl now k m h.1)

  delete_all-expired_keys :
      (ttl now : ℕ) (m : Map (CachedSession C))
      → HasUniqueKeys m
      → delete_all (expired_keys ttl now m) m ≡ select (is_active ttl now) m
  unfolding expired_keys delete_all delete
  delete_all-expired_keys ttl now [] h = refl
  delete_all-expired_keys ttl now ((k, s) ∷ m) h =
      elim (Bool-cases (ltb ttl (now - s.created_at))) [
        | inl old ↦ ground (
          arith,
          text_eq_refl k,
          delete_of_IsAbsent k m h.0,
          delete_all-expired_keys ttl now m h.1,
        )
        | inr young ↦ ground (
          arith,
          delete_all_cons (expired_keys ttl now m) k s m (expired_keys-OmitsKey ttl now k m h.0),
          delete_all-expired_keys ttl now m h.1,
        )
      ]

  -- `cleanup` leaves exactly the sessions that have not expired, in place.
  pub cleanup_lem :
      (sc : SessionCache C) (now : ℕ)
      → HasUniqueKeys sc.sessions
      → cleanup sc now ≡ record sc { sessions = select (is_active sc.ttl now) sc.sessions }
  unfolding cleanup
  cleanup_lem sc now h = rw (delete_all-expired_keys sc.ttl now sc.sessions h)

  select-IsAbsent :
      (p : Text × CachedSession C → Bool) (k : Text) (m : Map (CachedSession C))
      → IsAbsent k m
      → IsAbsent k (select p m)
  select-IsAbsent p k [] h = tt
  select-IsAbsent p k ((j, s) ∷ m) h = ground (arith, select-IsAbsent p k m h.1)

  pub select-HasUniqueKeys :
      (p : Text × CachedSession C → Bool) (m : Map (CachedSession C))
      → HasUniqueKeys m
      → HasUniqueKeys (select p m)
  select-HasUniqueKeys p [] h = tt
  select-HasUniqueKeys p ((j, s) ∷ m) h =
      ground (arith, select-IsAbsent p j m h.0, select-HasUniqueKeys p m h.1)

  pub lookup-select :
      (ttl now : ℕ) (k : Text) (m : Map (CachedSession C))
      → HasUniqueKeys m
      → lookup k (select (is_active ttl now) m) ≡ elim (lookup k m) [
        | none ↦ none
        | some s ↦ if leb (now - s.created_at) ttl then some s else none
      ]
  unfolding lookup
  lookup-select ttl now k [] h = refl
  lookup-select ttl now k ((j, s) ∷ m) h = elim (Bool-cases (text_eq j k)) [
    | inl same ↦
        let absent : IsAbsent k m = subst (λ x. IsAbsent x m) ((text_eq_iff j k).0 same) h.0 in
        ground (
          arith,
          lookup_of_IsAbsent k (select (is_active ttl now) m)
              (select-IsAbsent (is_active ttl now) k m absent),
        )
    | inr other ↦ ground (arith, lookup-select ttl now k m h.1)
  ]

  -- `cleanup` changes no answer of the cache, now or later, and keeps the keys distinct.
  pub cleanup-view :
      (sc : SessionCache C) (now later : ℕ) (key : Text)
      → HasUniqueKeys sc.sessions
      → now ≤ later
      → (view (cleanup sc now) later key ≡ view sc later key)
        × HasUniqueKeys (cleanup sc now).sessions
  cleanup-view sc now later key h le = rw (cleanup_lem sc now h) (
    ground
        (arith, lookup-select sc.ttl now key sc.sessions h, Option-cases (lookup key sc.sessions)),
    select-HasUniqueKeys (is_active sc.ttl now) sc.sessions h,
  )

  count_sessions_lem :
      (ttl now : ℕ) (m : Map (CachedSession C)) (total active : ℕ)
      → count_sessions ttl now m total active
        ≡ (total + length m, active + length (select (is_active ttl now) m))
  unfolding count_sessions
  count_sessions_lem ttl now [] total active = ground arith
  count_sessions_lem ttl now ((k, s) ∷ m) total active = ground (
    arith,
    count_sessions_lem ttl now m (total + 1)
        (if leb (now - s.created_at) ttl then active + 1 else active),
  )

  select_twice :
      (p : Text × CachedSession C → Bool) (m : Map (CachedSession C))
      → select p (select p m) ≡ select p m
  select_twice p [] = refl
  select_twice p (e ∷ m) = ground (arith, select_twice p m)

  -- `Stats` counts the entries and those that have not expired; after `cleanup` at the same instant
  -- both counts are the number that had not expired before.
  pub stats-cleanup :
      (sc : SessionCache C) (now : ℕ)
      → HasUniqueKeys sc.sessions
      → ((stats sc now).0 ≡ length sc.sessions)
        × ((stats sc now).1 ≤ (stats sc now).0)
        × (stats (cleanup sc now) now ≡ ((stats sc now).1, (stats sc now).1))
  unfolding stats
  stats-cleanup sc now h =
      let kept : Map (CachedSession C) = select (is_active sc.ttl now) sc.sessions in
      rw (cleanup_lem sc now h) (
        ground (
          arith,
          count_sessions_lem sc.ttl now sc.sessions 0 0,
          count_sessions_lem sc.ttl now kept 0 0,
          select_twice (is_active sc.ttl now) sc.sessions,
          length-select-le (is_active sc.ttl now) sc.sessions,
        ))
