-- ===== src/Tests/Setup.antt =====
-- The start of a server, its instruments and its environment.
use go_amizone.Base.{
  ℕ, ◌≡◌, ◌≤◌, ◌↔◌, refl, false, [], ◌++◌, Option, none, some, Text, codes, text_eq, is_empty, pos,
  negsuc, arith, if◌then◌else◌,
}
use native.Mathlib.Decide.{ℕ_discrete}
use go_amizone.Server.Auth.{is_grpc}
use go_amizone.Server.Setup.{
  Config, nil_mux, well_known_file, well_known_pattern, new_http_mux, route, Startup, finds_undone,
  locks, makes_router, makes_http_server, finishes, serving, Reach, begin, later,
}
use go_amizone.Server.Setup.Once.{serving-Once}
use go_amizone.Server.Setup.Routes.{route-Proper}
use go_amizone.Cmd.{int, env_or_default}
use go_amizone.Cmd.Decimals.{spelling, env_or_default-spelling}

-- Goroutine 1 finds the server not yet initialised; goroutine 0 initialises it and goes on.
abbrev started : (s : Startup) × Reach s
unfolding ℕ_discrete
started = (
  _,
  later _ _
      (later _ _
        (later _ _
          (later _ _ (later _ _ (later _ _ begin (finds_undone 1 refl)) (finds_undone 0 refl))
            (locks 0 refl refl))
          (makes_router 0 refl refl))
        (makes_http_server 0 refl))
      (finishes 0 refl),
)

serving-Once_example :
    (started.0.made ≤ 1)
    × ((i : ℕ)
        → started.0.place i ≡ serving
        → (started.0.server.router ≡ some 0) × (started.0.server.http_server ≡ some 0))
serving-Once_example = serving-Once started.0 started.1

abbrev with_files : Config
with_files = record { bind_addr = codes "0.0.0.0:8081"; well_known_dir = codes "/srv" }

abbrev port_8081 : Text → Option Text
port_8081 addr = if text_eq addr (codes "0.0.0.0:8081") then some (codes "8081") else none

abbrev file_path : Text
file_path = codes "/.well_known/acme"

route-Proper_example :
    ((route (new_http_mux port_8081 with_files) 1 [] file_path ≡ nil_mux)
      ↔ ((is_grpc 1 [] ≡ false) × (port_8081 with_files.bind_addr ≡ none)))
    × ((file : Text)
        → route (new_http_mux port_8081 with_files) 1 [] file_path ≡ well_known_file file
        → (is_empty with_files.well_known_dir ≡ false) × (file_path ≡ well_known_pattern ++ file))
route-Proper_example = route-Proper port_8081 with_files 1 [] file_path

file_served :
    route (new_http_mux port_8081 with_files) 1 [] file_path ≡ well_known_file (codes "acme")
unfolding route new_http_mux text_eq
file_served = refl

env_or_default-spelling_example :
    env_or_default (some (spelling (negsuc 41))) (int (pos 7)) ≡ int (negsuc 41)
env_or_default-spelling_example = env_or_default-spelling (negsuc 41) (pos 7) (omega arith)
