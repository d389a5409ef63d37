-- ===== src/Tests/Auth.antt =====
-- Authorization of requests on concrete credentials, and the search in the login page.
use go_amizone.Base.{
  ℕ, ◌≡◌, refl, ◌≢◌, List, [], ◌∷◌, none, some, Text, codes, text_eq, lookup, has_prefix,
  index_byte, true, false, Result, fail,
}
use go_amizone.Server.SessionCache.{
  SessionCache, ClientOption, Reads, make_key, get_or_create, fast_path,
}
use go_amizone.Server.Auth.{split_credentials, authorize_ctx, is_grpc}
use go_amizone.Server.Auth.Keys.{HasNoColon, split_credentials-make_key}
use go_amizone.Server.Auth.Access.{Grant, authorize_ctx-Grant}
use go_amizone.Parse.LoginForm.{site_key_in}

abbrev ann : Text
ann = codes "ann"

abbrev colons : Text
colons = codes "p:w"

-- Client 7 is cached under the credentials `ann:p:w`.
abbrev sample : SessionCache ℕ
sample = record {
  sessions = (codes "ann:p:w", record { client = 7; created_at = 100; last_used = 100 }) ∷ [];
  ttl = 50;
}

abbrev reads : Reads
reads = record { checked = 120; used = 121; rechecked = 122; made = 130 }

abbrev refuses : Text → Text → List ClientOption → Result ℕ
refuses username password opts = fail []

split_tests :
    (split_credentials (codes "ann:p:w") ≡ some (ann, colons))
    × (split_credentials (codes ":pw") ≡ none)
    × (split_credentials (codes "ann:") ≡ none)
    × (split_credentials (codes "ann") ≡ none)
unfolding split_credentials index_byte
split_tests = (refl, refl, refl, refl)

is_grpc_tests :
    (is_grpc 2 (codes "application/grpc+proto") ≡ true)
    × (is_grpc 1 (codes "application/grpc") ≡ false)
unfolding is_grpc has_prefix
is_grpc_tests = (refl, refl)

split_credentials-make_key_example :
    (make_key ann colons ≡ codes "ann:p:w") × HasNoColon ann × (ann ≢ []) × (colons ≢ [])
unfolding split_credentials index_byte
split_credentials-make_key_example = split_credentials-make_key (codes "ann:p:w") ann colons refl

authorize_ctx-Grant_example :
    Grant sample (some ann) (λ t. some (codes "ann:p:w")) [] refuses reads 7
unfolding authorize_ctx get_or_create fast_path make_key lookup text_eq index_byte
authorize_ctx-Grant_example =
    authorize_ctx-Grant sample (some ann) (λ t. some (codes "ann:p:w")) [] refuses reads 7 refl

abbrev script : Text
script = codes "render({sitekey: \"0x4AA\", x: 1})"

site_key_test : site_key_in script ≡ codes "0x4AA"
unfolding site_key_in text_eq
site_key_test = refl
