-- ===== src/Server/SessionCache/Concurrent/Eviction.antt =====
-- `authorizeCtx` deletes the session of a user after a login that failed, whoever stored it.
use go_amizone.Base.{
  ℕ, ◌≡◌, refl, [], ◌∷◌, Text, text_eq_refl, lookup, insert, delete, ok, fail, arith,
}
use go_amizone.Server.SessionCache.{fast_path, slow_path}
use go_amizone.Server.SessionCache.Concurrent.{
  System, login, forgot, arrive, enter, forget, arrives, enters, forgets, Reach, here, next,
  initial,
}

module _ {C : Type 0} (ttl now : ℕ) (key e : Text) (first second : C) where
  -- Two requests miss; one fails to log in, the other logs in; the deletion of the first comes last.
  abbrev evicted : System C
  evicted =
      forget
        (enter (enter (arrive (arrive (initial C ttl now) 0 key) 1 key) 0 key (fail e) now) 1 key
          (ok first) now)
        0 key

  abbrev relogged : System C
  relogged = enter (arrive evicted 2 key) 2 key (ok second) now

  -- So a user can be logged in twice at one instant: this run of three requests does so.
  pub relogin_reachable :
      (s : System C) × Reach (initial C ttl now) s
      × (s.events ≡ login key now ∷ forgot key ∷ login key now ∷ [])
  unfolding arrive enter forget fast_path slow_path lookup insert delete
  relogin_reachable = (
    relogged,
    next
        (next
          (next
            (next
              (next (next (next here (arrives 0 key refl)) (arrives 1 key refl))
                (enters 0 key (fail e) now refl (omega arith)))
              (enters 1 key (ok first) now refl (omega arith)))
            (forgets 0 key refl))
          (arrives 2 key refl))
        (enters 2 key (ok second) now (rw (text_eq_refl key)) (omega arith)),
    rw (text_eq_refl key),
  )
