-- ===== src/Tests/Cache.antt =====
-- The session cache with one or two users.
use go_amizone.Base.{
  ℕ, ◌≤◌, ◌≡◌, refl, List, [], ◌∷◌, none, some, Text, codes, text_eq, lookup, HasUniqueKeys, Result,
  ok, arith, select,
}
use go_amizone.Server.SessionCache.{
  SessionCache, ClientOption, Reads, make_key, get, get_or_create, cleanup, stats,
}
use go_amizone.Server.SessionCache.View.{view, get-view, Obtains, get_or_create-Obtains}
use go_amizone.Server.SessionCache.Cleanup.{cleanup_lem, is_active}
use go_amizone.Server.SessionCache.Concurrent.{System, Reach, initial, login, forgot}
use go_amizone.Server.SessionCache.Concurrent.Spacing.{Spaced, Reach-Spaced}
use go_amizone.Server.SessionCache.Concurrent.Eviction.{relogin_reachable}

abbrev ann : Text
ann = codes "ann"

abbrev pw : Text
pw = codes "pw"

-- Client 7 logged in at the instant 100, client 8 long before.
abbrev sample : SessionCache ℕ
sample = record {
  sessions =
      (codes "ann:pw", record { client = 7; created_at = 100; last_used = 100 })
      ∷ (codes "bob:pw", record { client = 8; created_at = 2; last_used = 50 })
      ∷ [];
  ttl = 50;
}

abbrev reads : Reads
reads = record { checked = 120; used = 121; rechecked = 122; made = 130 }

abbrev late : Reads
late = record { checked = 200; used = 201; rechecked = 202; made = 230 }

abbrev gives : ℕ → Text → Text → List ClientOption → Result ℕ
gives n username password opts = ok n

sample-HasUniqueKeys : HasUniqueKeys sample.sessions
unfolding text_eq
sample-HasUniqueKeys = ((refl, tt), (tt, tt))

get_tests :
    ((get sample ann pw 120 121).1 ≡ some 7) × ((get sample (codes "bob") pw 120 121).1 ≡ none)
unfolding get make_key lookup text_eq
get_tests = (refl, refl)

get-view_example :
    ((get sample ann pw 120 121).1 ≡ view sample 120 (make_key ann pw))
    × ((later : ℕ) (j : Text)
        → 120 ≤ later
        → view (get sample ann pw 120 121).0 later j ≡ view sample later j)
get-view_example = get-view sample ann pw 120 121

get_or_create-Obtains_example :
    let r = get_or_create sample ann pw [] (gives 9) late in
    Obtains sample (make_key ann pw) 230 (ok 9) r.0 r.1 (view sample late.checked (make_key ann pw))
get_or_create-Obtains_example = get_or_create-Obtains sample ann pw [] (gives 9) late (omega arith)

cleanup_lem_example :
    cleanup sample 120 ≡ record sample { sessions = select (is_active 50 120) sample.sessions }
cleanup_lem_example = cleanup_lem sample 120 sample-HasUniqueKeys

stats_test : stats sample 120 ≡ (2, 1)
unfolding stats
stats_test = refl

abbrev twice_in :
    (s : System ℕ) × Reach (initial ℕ 50 100) s
    × (s.events ≡ login (codes "k") 100 ∷ forgot (codes "k") ∷ login (codes "k") 100 ∷ [])
twice_in = relogin_reachable 50 100 (codes "k") (codes "timeout") 1 2

Reach-Spaced_example : Spaced 50 twice_in.0.events
Reach-Spaced_example = Reach-Spaced 50 100 twice_in.0 twice_in.1
