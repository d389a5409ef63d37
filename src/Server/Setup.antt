-- ===== src/Server/Setup.antt =====
-- server/server.go: ApiServer, its initialisation by any number of goroutines, and its routes. The
-- logger is left out. A path is cleaned, as http.ServeMux redirects any other to the cleaned one;
-- `port_of` is the port that net.SplitHostPort finds.
pub mod Once
pub mod Routes
use go_amizone.Base.{
  ℕ, suc, Bool, true, false, ◌≡◌, ◌++◌, Option, none, some, Text, codes, is_empty, has_prefix,
  text_eq, drop, length, List, [], ◌∷◌, if◌then◌else◌,
}
use mathlib.Core.Logic.{ite}
use native.Mathlib.Decide.{ℕ_discrete}
use go_amizone.Server.Auth.{is_grpc}

pub record Config : Type 0 where
  pub bind_addr : Text
  pub well_known_dir : Text

unfoldable pub new_config : Text → Config
new_config bind_address = record { bind_addr = bind_address; well_known_dir = [] }

-- What answers a request; `nil_mux` is a call on a nil multiplexer, which panics.
pub data Handler : Type 0 where
  grpc_server health metrics gateway : Handler
  well_known_file : Text → Handler
  redirect : Text → Handler
  not_found nil_mux : Handler

-- The patterns of `newHttpMux`, each with its handler for a path; `none` is a nil multiplexer.
abbrev pub Mux : Type 0
Mux = List (Text × (Text → Handler))

abbrev pub well_known_pattern : Text
well_known_pattern = codes "/.well_known/"

-- `strings.TrimPrefix` on a path under the pattern, and the files below the directory.
abbrev well_known : Text → Handler
well_known path = well_known_file (drop (length well_known_pattern) path)

abbrev pub patterns : Config → Mux
patterns config =
    let files : Mux =
      if is_empty config.well_known_dir then [] else (well_known_pattern, well_known) ∷ [] in
    (codes "/health", λ path. health)
    ∷ (codes "/metrics", λ path. metrics)
    ∷ (files ++ ((codes "/api/", λ path. gateway) ∷ []))

unfoldable pub new_http_mux : (Text → Option Text) → Config → Option Mux
new_http_mux port_of config = elim (port_of config.bind_addr) [
  | none ↦ none
  | some port ↦ some (patterns config)
]

-- A pattern that ends in a slash is a prefix, any other the whole path.
abbrev is_subtree : Text → Bool
is_subtree [] = false
is_subtree (c ∷ []) = text_eq (c ∷ []) (codes "/")
is_subtree (c ∷ d ∷ s) = is_subtree (d ∷ s)

abbrev matches_pattern : Text → Text → Bool
matches_pattern pattern path =
    if is_subtree pattern then has_prefix path pattern else text_eq path pattern

-- No two of the patterns match one path, so the order does not matter.
abbrev find_handler : Mux → Text → Option Handler
find_handler [] path = none
find_handler ((pattern, handler) ∷ mux) path =
    if matches_pattern pattern path then some (handler path) else find_handler mux path

abbrev has_pattern : Mux → Text → Bool
has_pattern [] path = false
has_pattern ((pattern, handler) ∷ mux) path =
    if text_eq pattern path then true else has_pattern mux path

-- `mux.ServeHTTP`: a path that lacks the slash of a pattern is redirected.
unfoldable pub serve_mux : Mux → Text → Handler
unfolding has_prefix text_eq
serve_mux mux path = elim (find_handler mux path) [
  | some handler ↦ handler
  | none ↦ if has_pattern mux (path ++ codes "/") then redirect (path ++ codes "/") else not_found
]

-- `newRouter`, on the major version of the protocol, the Content-Type and the path of a request.
unfoldable pub route : Option Mux → ℕ → Text → Text → Handler
unfolding is_grpc serve_mux
route http_mux major content_type path =
    if is_grpc major content_type
    then grpc_server
    else elim http_mux [ none ↦ nil_mux | some mux ↦ serve_mux mux path ]

-- The server's router and HTTP server, with `muInit.done`. A router is known by its number.
pub record ApiServer : Type 0 where
  pub router : Option ℕ
  pub http_server : Option ℕ
  pub done : Bool

-- How far the goroutine that holds `muInit` is in `Init`.
pub data InitPhase : Type 0 where
  checking routed attached : InitPhase

-- A goroutine in ServeHTTP or ListenAndServe: before it reads `done`, before the lock, in `Init`, and
-- where it uses the router or the HTTP server. `racing` is the use after a read of `done` without the
-- lock: no write is ordered before it, and nothing is said of what it finds.
pub data Place : Type 0 where
  arriving waiting inside serving racing : Place

-- `made` counts the routers made. What the goroutines do under the lock is in one order; the use of the
-- fields after the lock follows it in that goroutine.
pub record Startup : Type 0 where
  pub server : ApiServer
  pub holder : Option (ℕ × InitPhase)
  pub place : ℕ → Place
  pub made : ℕ

abbrev pub move : (ℕ → Place) → ℕ → Place → ℕ → Place
move place i p j = ite (ℕ_discrete i j) p (place j)

-- `New`
abbrev pub fresh_server : ApiServer
fresh_server = record { router = none; http_server = none; done = false }

abbrev pub beginning : Startup
beginning = record { server = fresh_server; holder = none; place = λ i. arriving; made = 0 }

-- One step of one goroutine. The read of `done` outside the lock races with the write in `Init`: it can
-- give false long after the write.
pub data Step (s : Startup) : Startup → Type 0 where
  finds_done :
      (i : ℕ)
      → s.place i ≡ arriving
      → s.server.done ≡ true
      → Step s (record s { place = move s.place i racing })
  finds_undone :
      (i : ℕ) → s.place i ≡ arriving → Step s (record s { place = move s.place i waiting })
  locks :
      (i : ℕ)
      → s.place i ≡ waiting
      → s.holder ≡ none
      → Step s (record s { holder = some (i, checking); place = move s.place i inside })
  returns_early :
      (i : ℕ)
      → s.holder ≡ some (i, checking)
      → s.server.done ≡ true
      → Step s (record s { holder = none; place = move s.place i serving })
  makes_router :
      (i : ℕ)
      → s.holder ≡ some (i, checking)
      → s.server.done ≡ false
      → Step s (record s {
        server = record s.server { router = some s.made };
        holder = some (i, routed);
        made = suc s.made;
      })
  makes_http_server :
      (i : ℕ)
      → s.holder ≡ some (i, routed)
      → Step s (record s {
        server = record s.server { http_server = s.server.router };
        holder = some (i, attached);
      })
  finishes :
      (i : ℕ)
      → s.holder ≡ some (i, attached)
      → Step s (record s {
        server = record s.server { done = true };
        holder = none;
        place = move s.place i serving;
      })

pub data Reach : Startup → Type 0 where
  begin : Reach beginning
  later : (s t : Startup) → Reach s → Step s t → Reach t
