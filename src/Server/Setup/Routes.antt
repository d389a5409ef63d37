-- ===== src/Server/Setup/Routes.antt =====
-- Which requests the router answers, and with what.
use go_amizone.Base.{
  ℕ, Bool, true, false, ◌≡◌, ◌≢◌, ◌↔◌, refl, ap, ◌∙◌, ◌++◌, ◌∷◌, [], Option, none, some, Text,
  codes, is_empty, has_prefix, text_eq, drop, length, if◌then◌else◌, arith, Bool-cases, inl, inr,
}
use go_amizone.Server.Auth.{is_grpc}
use go_amizone.Server.Setup.{
  Config, Handler, grpc_server, gateway, well_known_file, redirect, not_found, nil_mux, Mux,
  new_http_mux, patterns, well_known_pattern, well_known, matches_pattern, find_handler,
  has_pattern, serve_mux, route,
}

has_prefix_split : (t s : Text) → has_prefix s t ≡ true → s ≡ t ++ drop (length t) s
unfolding has_prefix
has_prefix_split [] s h = refl
has_prefix_split (b ∷ t) [] h = cc
has_prefix_split (b ∷ t) (a ∷ s) h = ground (arith, has_prefix_split t s)

-- What holds of every handler that matches_pattern, of redirects and of the missing page, holds of the answer.
module _ {ℓ} (P : Handler → Type ℓ) (path : Text) where
  abbrev Good : Mux → Type ℓ
  Good [] = Unit
  Good ((pattern, handler) ∷ mux) =
      (matches_pattern pattern path ≡ true → P (handler path)) × Good mux

  abbrev Found : Option Handler → Type ℓ
  Found none = Unit
  Found (some handler) = P handler

  find-Good : (mux : Mux) → Good mux → Found (find_handler mux path)
  find-Good [] good = tt
  find-Good ((pattern, handler) ∷ mux) good = elim (Bool-cases (matches_pattern pattern path)) [
    | inl fits ↦ rw fits (good.0 fits)
    | inr other ↦ rw other (find-Good mux good.1)
  ]

  serve_mux-Good :
      (mux : Mux)
      → Good mux
      → P not_found
      → P (redirect (path ++ codes "/"))
      → P (serve_mux mux path)
  unfolding serve_mux
  serve_mux-Good mux good missing again = answered (find_handler mux path) (find-Good mux good)
    where
      fallback : (slash : Bool) → P (if slash then redirect (path ++ codes "/") else not_found)
      fallback true = again
      fallback false = missing

      answered :
          (h : Option Handler)
          → Found h
          → P (elim h [
            | some handler ↦ handler
            | none ↦
                if has_pattern mux (path ++ codes "/")
                then redirect (path ++ codes "/")
                else not_found
          ])
      answered none f = fallback (has_pattern mux (path ++ codes "/"))
      answered (some handler) f = f

-- An answer that is no panic, and that is a file only from a directory that is set, for a path below
-- its pattern.
abbrev pub Proper : Config → Text → Handler → Type 0
Proper config path h =
    (h ≢ nil_mux)
    × ((file : Text)
        → h ≡ well_known_file file
        → (is_empty config.well_known_dir ≡ false) × (path ≡ well_known_pattern ++ file))

file-Proper :
    (config : Config) (path : Text)
    → is_empty config.well_known_dir ≡ false
    → has_prefix path well_known_pattern ≡ true
    → Proper config path (well_known path)
file-Proper config path dir below = (
  λ h. cc,
  λ file h. (
    dir,
    has_prefix_split well_known_pattern path below
        ∙ ap (λ f. well_known_pattern ++ f) (ground (arith, h)),
  ),
)

patterns-Proper : (config : Config) (path : Text) → Good (Proper config path) path (patterns config)
unfolding text_eq
patterns-Proper config path = (
  λ m. (λ h. cc, λ file h. cc),
  (λ m. (λ h. cc, λ file h. cc), files (is_empty config.well_known_dir) refl),
)
  where
    files :
        (b : Bool)
        → is_empty config.well_known_dir ≡ b
        → Good (Proper config path) path (
            (if b then [] else (well_known_pattern, well_known) ∷ [])
            ++ ((codes "/api/", λ p. gateway) ∷ []))
    files true e = (λ m. (λ h. cc, λ file h. cc), tt)
    files false e = (λ m. file-Proper config path e m, (λ m. (λ h. cc, λ file h. cc), tt))

-- The router panics exactly for requests that are not gRPC on a server whose address has no port; it
-- serves a file only if a directory is set, for a path that is the pattern followed by the file's.
pub route-Proper :
    (port_of : Text → Option Text) (config : Config) (major : ℕ) (content_type path : Text)
    → ((route (new_http_mux port_of config) major content_type path ≡ nil_mux)
        ↔ ((is_grpc major content_type ≡ false) × (port_of config.bind_addr ≡ none)))
      × ((file : Text)
          → route (new_http_mux port_of config) major content_type path ≡ well_known_file file
          → (is_empty config.well_known_dir ≡ false) × (path ≡ well_known_pattern ++ file))
unfolding route new_http_mux
route-Proper port_of config major content_type path =
    by_case (is_grpc major content_type) (port_of config.bind_addr)
  where
    proper : Proper config path (serve_mux (patterns config) path)
    proper =
        serve_mux-Good (Proper config path) path (patterns config) (patterns-Proper config path)
          (λ h. cc, λ file h. cc) (λ h. cc, λ file h. cc)

    by_case :
        (grpc : Bool) (port : Option Text)
        → let h : Handler =
            if grpc
            then grpc_server
            else elim (elim port as (λ p. Option Mux) [
              | none ↦ none
              | some p ↦ some (patterns config)
            ]) [ none ↦ nil_mux | some mux ↦ serve_mux mux path ] in
          ((h ≡ nil_mux) ↔ ((grpc ≡ false) × (port ≡ none)))
          × ((file : Text)
              → h ≡ well_known_file file
              → (is_empty config.well_known_dir ≡ false) × (path ≡ well_known_pattern ++ file))
    by_case true port = ((λ h. cc, λ h. cc), λ file h. cc)
    by_case false none = ((λ h. (refl, refl), λ h. refl), λ file h. cc)
    by_case false (some p) = ((λ h. absurd (proper.0 h), λ h. cc), proper.1)
