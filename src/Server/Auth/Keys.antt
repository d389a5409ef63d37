-- ===== src/Server/Auth/Keys.antt =====
-- The keys of the session cache and the credentials of a request: who can share a session.
use go_amizone.Base.{
  suc, ◌-◌, ◌<◌, ◌≡◌, refl, ◌≢◌, ap, inl, inr, [], ◌∷◌, ◌++◌, some, Text, codes, take, drop, length,
  length-append, All, index_byte, index_byte_found, index_byte-append, take-length-append,
  drop_past, ◌==◌, arith, Option-cases, Bool-cases,
}
use mathlib.Core.List.{append_assoc}
use go_amizone.Server.SessionCache.{make_key}
use go_amizone.Server.Auth.{split_credentials}

abbrev pub HasNoColon : Text → Type 0
HasNoColon = All (λ c. c ≢ b':')

length_pos : (s : Text) → s ≢ [] → 0 < length s
length_pos [] h = absurd (h refl)
length_pos (c ∷ s) h = omega arith

-- The credentials that `authorizeCtx` accepts are the cache key of the pair that it makes of them; the
-- user has no colon, and neither part is empty.
pub split_credentials-make_key :
    (credentials user pass : Text)
    → split_credentials credentials ≡ some (user, pass)
    → (make_key user pass ≡ credentials) × HasNoColon user × (user ≢ []) × (pass ≢ [])
unfolding split_credentials make_key
split_credentials-make_key s user pass e = elim (Option-cases (index_byte s b':')) [
  | inl missing ↦ absurd (ground arith)
  | inr (i, found) ↦ elim (Bool-cases (i == 0)) [
    | inl first ↦ absurd (ground arith)
    | inr later ↦ elim (Bool-cases (i == length s - 1)) [
      | inl last ↦ absurd (ground arith)
      | inr earlier ↦
          let (parts, before, small, size) = index_byte_found s b':' i found in
          let same_user : user ≡ take i s = ground arith in
          let same_pass : pass ≡ drop (suc i) s = ground arith in
          let total = length-append (take i s) (b':' ∷ drop (suc i) s) in
          let sizes = ap length parts in
          rw (same_user, same_pass)
            (
              parts,
              before,
              (λ none_left. ground (arith, ap length none_left)),
              (λ none_left. ground (arith, ap length none_left, total, sizes)),
            )
    ]
  ]
]

-- Every pair with such parts is what the credentials `user:pass` are split into.
pub make_key-split_credentials :
    (user pass : Text)
    → HasNoColon user
    → user ≢ []
    → pass ≢ []
    → split_credentials (make_key user pass) ≡ some (user, pass)
unfolding split_credentials make_key
make_key-split_credentials user pass h u p = ground (
  arith,
  index_byte-append user pass b':' h,
  length-append user (b':' ∷ pass),
  take-length-append user (b':' ∷ pass),
  drop_past user pass b':',
  length_pos user u,
  length_pos pass p,
)

-- Pairs whose users have no colon share a key only if they are equal.
pub make_key_injective :
    (user user' pass pass' : Text)
    → HasNoColon user
    → HasNoColon user'
    → make_key user pass ≡ make_key user' pass'
    → (user ≡ user') × (pass ≡ pass')
unfolding make_key
make_key_injective [] [] pass pass' h k e = ground arith
make_key_injective [] (c ∷ user') pass pass' h k e = absurd (ground arith)
make_key_injective (c ∷ user) [] pass pass' h k e = absurd (ground arith)
make_key_injective (c ∷ user) (d ∷ user') pass pass' h k e =
    ground (arith, make_key_injective user user' pass pass' h.1 k.1)

-- With a colon in a user name, two different pairs share one key.
pub make_key_collides :
    (a b c : Text) → make_key (a ++ (codes ":" ++ b)) c ≡ make_key a (b ++ (codes ":" ++ c))
unfolding make_key
make_key_collides a b c = append_assoc a (b':' ∷ b) (b':' ∷ c)
