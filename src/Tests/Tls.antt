-- ===== src/Tests/Tls.antt =====
-- Clients of the TLS library with numbered profiles.
use go_amizone.Base.{
  ℕ, ◌*◌, ◌≡◌, refl, true, false, [], ◌∷◌, none, Text, codes, ok, pos, map, seconds, arith, Option,
  Result, Map,
}
use go_amizone.Tls.{Profiles, ClientOptions, profile_rotation_sequential}
use go_amizone.Tls.Rotation.{selected, selected-rotates}
use go_amizone.Tls.Requests.{Request, user_agent}

abbrev numbered : Profiles
numbered = record {
  ClientProfile = ℕ;
  chrome_144 = 0;
  chrome_146 = 1;
  chrome_133 = 2;
  chrome_131 = 3;
  firefox_147 = 4;
  firefox_135 = 5;
  firefox_133 = 6;
  print = λ n. n ∷ [];
}

abbrev rotating : ClientOptions ℕ ℕ
rotating = record {
  profile_rotation_mode = profile_rotation_sequential;
  custom_profiles = 7 ∷ 8 ∷ 9 ∷ [];
  timeout = seconds 30;
  follow_redirects = true;
  cookie_jar = none;
}

selected-rotates_example : selected numbered ℕ rotating 3 (2 * 3) ≡ map ok (7 ∷ 8 ∷ 9 ∷ [])
selected-rotates_example = selected-rotates numbered ℕ rotating 2 refl (omega arith)

abbrev request : Request
request = record {
  method = codes "GET";
  url = codes "https://s.amizone.net/Home";
  header = (codes "Origin", codes "o" ∷ []) ∷ (user_agent, codes "mine" ∷ []) ∷ [];
  body = none;
  host = codes "s.amizone.net";
  content_length = pos 0;
  transfer_encoding = [];
  close = false;
}

-- A request that the library makes: the URL as it was, the method and nothing else.
abbrev make_request : Text → Text → Option Text → Result Request
make_request method url body = ok record {
  method = method;
  url = url;
  header = [];
  body = body;
  host = [];
  content_length = pos 0;
  transfer_encoding = [];
  close = false;
}

abbrev made : Request
made = elim (make_request request.method request.url request.body) [ ok r ↦ r | _ ↦ request ]

abbrev agents : Map Text
agents = (codes "Chrome_131", codes "Mozilla") ∷ (codes "Firefox", codes "Gecko") ∷ []
