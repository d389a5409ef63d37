-- ===== src/Server/Auth.antt =====
-- server/server.go: `authorizeCtx`, and which requests go to gRPC. The metadata's reader
-- `grpcAuth.AuthFromMD` and the base64 decoder are arguments.
pub mod Keys
pub mod Access
use go_amizone.Base.{
  ℕ, suc, ◌-◌, Bool, ◌&&◌, ◌||◌, List, Option, none, some, Text, codes, take, drop, length,
  index_byte, has_prefix, leb, ◌==◌, if◌then◌else◌, Result, ok, fail, panic,
}
use go_amizone.Server.SessionCache.{
  SessionCache, ClientOption, Reads, get_or_create, delete_session,
}

-- `credentials[:index]` and `credentials[index+1:]`, if the separator is neither first nor last.
unfoldable pub split_credentials : Text → Option (Text × Text)
split_credentials credentials = elim (index_byte credentials b':') [
  | none ↦ none
  | some i ↦
      if i == 0 || i == length credentials - 1
      then none
      else some (take i credentials, drop (suc i) credentials)
]

-- An error of `authorizeCtx`: the metadata's or the decoder's own, or a status.
pub data AuthError : Type 0 where
  bad_metadata bad_base64 bad_auth_string : AuthError
  login_failed : Text → AuthError

pub data Authorized (C : Type 0) : Type 0 where
  with_client : C → Authorized C
  refused : AuthError → Authorized C
  crashed : Authorized C

-- `authorizeCtx` with the cache before and after; the client is the value under
-- `ContextAmizoneClientKey` of the context that it returns.
unfoldable pub authorize_ctx :
    {C : Type 0}
    → SessionCache C
    → Option Text
    → (Text → Option Text)
    → Text
    → (Text → Text → List ClientOption → Result C)
    → Reads
    → SessionCache C × Authorized C
unfolding split_credentials
authorize_ctx sc encoded decode api_key new_client t = elim encoded [
  | none ↦ (sc, refused bad_metadata)
  | some text ↦ elim (decode text) [
    | none ↦ (sc, refused bad_base64)
    | some credentials ↦ elim (split_credentials credentials) [
      | none ↦ (sc, refused bad_auth_string)
      | some (user, pass) ↦
          let (sc', r) = get_or_create sc user pass api_key new_client t in
          elim r [
            | ok client ↦ (sc', with_client client)
            | fail e ↦ (delete_session sc' user pass, refused (login_failed e))
            | panic ↦ (sc', crashed)
          ]
    ]
  ]
]

-- `isGrpc`, by the protocol's major version and the Content-Type header.
unfoldable pub is_grpc : ℕ → Text → Bool
is_grpc major content_type = leb 2 major && has_prefix content_type (codes "application/grpc")
