-- ===== src/Server/Auth/Access.antt =====
-- What a request can obtain through `authorizeCtx`, and what it can change in the session cache.
use go_amizone.Base.{
  ℕ, ◌≡◌, refl, sym, ap, ◌∙◌, ◌≢◌, ◌⊎◌, inl, inr, false, List, Option, none, some, Text, text_eq,
  text_eq-false, lookup-insert, lookup-delete, Result, ok, arith, Option-cases,
}
use go_amizone.Server.SessionCache.{
  SessionCache, ClientOption, Reads, make_key, get_or_create, fast_path, delete_session,
  session_options,
}
use go_amizone.Server.SessionCache.View.{view}
use go_amizone.Server.Auth.{with_client, split_credentials, authorize_ctx}
use go_amizone.Server.Auth.Keys.{split_credentials-make_key}

module _ {C : Type 0} where
  -- Where `GetOrCreate` gets the client that it returns.
  get_or_create_source :
      (sc : SessionCache C) (user pass api_key : Text)
      (new_client : Text → Text → List ClientOption → Result C) (t : Reads) (client : C)
      → (get_or_create sc user pass api_key new_client t).1 ≡ ok client
      → (view sc t.checked (make_key user pass) ≡ some client)
        ⊎ (view sc t.rechecked (make_key user pass) ≡ some client)
        ⊎ (new_client user pass (session_options api_key) ≡ ok client)
  unfolding get_or_create fast_path
  get_or_create_source sc user pass api_key new_client t client e = ground arith

  -- `GetOrCreate` changes the answers for its own key alone.
  get_or_create-view_ne :
      (sc : SessionCache C) (user pass api_key : Text)
      (new_client : Text → Text → List ClientOption → Result C) (t : Reads) (later : ℕ) (j : Text)
      → text_eq (make_key user pass) j ≡ false
      → view (get_or_create sc user pass api_key new_client t).0 later j ≡ view sc later j
  unfolding get_or_create fast_path
  get_or_create-view_ne sc user pass api_key new_client t later j e = grind (arith, lookup-insert)

  -- What a request holds when it is let through: the credentials that it showed, and a client that was
  -- cached under them, or that logged in with the user and the password in them.
  pub record Grant (sc : SessionCache C) (encoded : Option Text) (decode : Text → Option Text)
      (api_key : Text) (new_client : Text → Text → List ClientOption → Result C) (t : Reads)
      (client : C) : Type 0 where
    pub text : Text
    pub credentials : Text
    pub user : Text
    pub pass : Text
    pub sent : encoded ≡ some text
    pub decoded : decode text ≡ some credentials
    pub parts : split_credentials credentials ≡ some (user, pass)
    pub source :
        (view sc t.checked credentials ≡ some client)
        ⊎ (view sc t.rechecked credentials ≡ some client)
        ⊎ (new_client user pass (session_options api_key) ≡ ok client)

  -- `authorizeCtx` lets a request through only with such a client.
  pub authorize_ctx-Grant :
      (sc : SessionCache C) (encoded : Option Text) (decode : Text → Option Text) (api_key : Text)
      (new_client : Text → Text → List ClientOption → Result C) (t : Reads) (client : C)
      → (authorize_ctx sc encoded decode api_key new_client t).1 ≡ with_client client
      → Grant sc encoded decode api_key new_client t client
  unfolding authorize_ctx
  authorize_ctx-Grant sc none decode api_key new_client t client e = absurd (cc)
  authorize_ctx-Grant sc (some text) decode api_key new_client t client e =
      elim (Option-cases (decode text)) [
        | inl missing ↦ absurd (ground arith)
        | inr (credentials, decoded) ↦ elim (Option-cases (split_credentials credentials)) [
          | inl missing ↦ absurd (ground arith)
          | inr ((user, pass), parts) ↦
              let key = (split_credentials-make_key credentials user pass parts).0 in
              let served : (get_or_create sc user pass api_key new_client t).1 ≡ ok client =
                ground arith in
              record {
                text = text;
                credentials = credentials;
                user = user;
                pass = pass;
                sent = refl;
                decoded = decoded;
                parts = parts;
                source =
                    rw (← key)
                      (get_or_create_source sc user pass api_key new_client t client served);
              }
        ]
      ]

  -- A request changes no answer of the cache for a key other than the credentials that it shows.
  pub authorize_ctx-view_ne :
      (sc : SessionCache C) (encoded : Option Text) (decode : Text → Option Text) (api_key : Text)
      (new_client : Text → Text → List ClientOption → Result C) (t : Reads) (later : ℕ) (j : Text)
      → ((text : Text) → encoded ≡ some text → decode text ≢ some j)
      → view (authorize_ctx sc encoded decode api_key new_client t).0 later j ≡ view sc later j
  unfolding authorize_ctx delete_session
  authorize_ctx-view_ne sc none decode api_key new_client t later j h = refl
  authorize_ctx-view_ne sc (some text) decode api_key new_client t later j h =
      elim (Option-cases (decode text)) [
        | inl missing ↦ ground arith
        | inr (credentials, decoded) ↦ elim (Option-cases (split_credentials credentials)) [
          | inl missing ↦ ground arith
          | inr ((user, pass), parts) ↦
              let key = (split_credentials-make_key credentials user pass parts).0 in
              let apart : text_eq (make_key user pass) j ≡ false =
                text_eq-false (make_key user pass) j
                  (λ same. h text refl (decoded ∙ ap some (sym key ∙ same))) in
              ground (
                arith,
                get_or_create-view_ne sc user pass api_key new_client t later j apart,
                lookup-delete (make_key user pass) j
                    (get_or_create sc user pass api_key new_client t).0.sessions,
              )
        ]
      ]
