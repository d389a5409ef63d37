-- ===== src/Tls/Requests.antt =====
-- amizone/tlsclient/client.go: the conversions between net/http and the TLS library, for requests
-- and responses. A header is a map from a name to its values.
pub mod Agents
use go_amizone.Base.{
  ℕ, Bool, ◌||◌, List, [], ◌∷◌, ◌++◌, Option, none, some, Map, lookup, insert, Text, codes, Result,
  ok, fail, panic, ℤ, is_empty, text_eq, contains, Values, set_value, if◌then◌else◌,
}
use go_amizone.Tls.{Profiles, profile_name}

-- The fields that are read or set, of a request of net/http or of the TLS library; `url` is the text of
-- the URL.
pub record Request : Type 0 where
  pub method : Text
  pub url : Text
  pub header : Values
  pub body : Option Text
  pub host : Text
  pub content_length : ℤ
  pub transfer_encoding : List Text
  pub close : Bool

-- The request that a response keeps.
pub record SentRequest : Type 0 where
  pub method : Text
  pub url : Text
  pub host : Text
  pub header : Values

pub record Response : Type 0 where
  pub status : Text
  pub status_code : ℕ
  pub proto : Text
  pub proto_major : ℕ
  pub proto_minor : ℕ
  pub header : Values
  pub body : Option Text
  pub content_length : ℤ
  pub close : Bool
  pub uncompressed : Bool
  pub request : Option SentRequest

abbrev pub user_agent : Text
user_agent = codes "User-Agent"

abbrev pub profile_user_agents : Map Text
profile_user_agents =
    (
      codes "Chrome_144",
      codes
          "Mozilla/5.0 (Windows NT 10.0; Win64; x64) AppleWebKit/537.36 (KHTML, like Gecko) Chrome/144.0.0.0 Safari/537.36",
    )
    ∷ (
      codes "Chrome_146",
      codes
          "Mozilla/5.0 (Windows NT 10.0; Win64; x64) AppleWebKit/537.36 (KHTML, like Gecko) Chrome/146.0.0.0 Safari/537.36",
    )
    ∷ (
      codes "Chrome_133",
      codes
          "Mozilla/5.0 (Windows NT 10.0; Win64; x64) AppleWebKit/537.36 (KHTML, like Gecko) Chrome/133.0.0.0 Safari/537.36",
    )
    ∷ (
      codes "Chrome_131",
      codes
          "Mozilla/5.0 (Windows NT 10.0; Win64; x64) AppleWebKit/537.36 (KHTML, like Gecko) Chrome/131.0.0.0 Safari/537.36",
    )
    ∷ (
      codes "Firefox_147",
      codes "Mozilla/5.0 (Windows NT 10.0; Win64; x64; rv:147.0) Gecko/20100101 Firefox/147.0",
    )
    ∷ (
      codes "Firefox_135",
      codes "Mozilla/5.0 (Windows NT 10.0; Win64; x64; rv:135.0) Gecko/20100101 Firefox/135.0",
    )
    ∷ (
      codes "Firefox_133",
      codes "Mozilla/5.0 (Windows NT 10.0; Win64; x64; rv:133.0) Gecko/20100101 Firefox/133.0",
    )
    ∷ []

-- The loop that copies a header.
unfoldable pub copy_header : Values → Values → Values
copy_header [] to = to
copy_header ((k, v) ∷ from) to = copy_header from (insert k v to)

-- `Header.Get`.
abbrev pub header_get : Text → Values → Text
header_get key header = elim (lookup key header) [
  | none ↦ []
  | some vs ↦ elim vs [ [] ↦ [] | v ∷ vs ↦ v ]
]

-- The loop over the map of user agents, in the order `order` that its range takes.
unfoldable pub agent_for : Map Text → Text → Option Text
unfolding contains
agent_for [] name = none
agent_for ((key, agent) ∷ order) name =
    if contains name key then some agent else agent_for order name

-- The header with the user agent of a profile, where it has none but Go's own.
unfoldable pub with_agent : Map Text → Text → Values → Values
unfolding agent_for text_eq set_value
with_agent order name header =
    if is_empty (header_get user_agent header)
      || text_eq (header_get user_agent header) (codes "Go-http-client/1.1")
    then elim (agent_for order name) [
      | none ↦ header
      | some agent ↦ set_value user_agent agent header
    ]
    else header

-- `new_request` is the library's `NewRequest`, on a method, the text of a URL and a body.
unfoldable pub convert_to_fhttp_request :
    (lib : Profiles)
    → Map Text
    → (Text → Text → Option Text → Result Request)
    → lib.ClientProfile
    → Request
    → Result Request
unfolding copy_header with_agent profile_name
convert_to_fhttp_request lib order new_request profile req =
    elim (new_request req.method req.url req.body) [
      | fail e ↦ fail e
      | panic ↦ panic
      | ok f_req ↦ ok record f_req {
        header = with_agent order (profile_name lib Unit profile) (copy_header req.header []);
        host = req.host;
        content_length = req.content_length;
        transfer_encoding = req.transfer_encoding;
        close = req.close;
      }
    ]

unfoldable pub convert_to_net_http_response : Response → Response
unfolding copy_header
convert_to_net_http_response f_resp = record f_resp {
  header = copy_header f_resp.header [];
  request = elim f_resp.request [
    | none ↦ none
    | some r ↦ some record r { header = copy_header r.header [] }
  ];
}

-- `RoundTrip`, with the library's `Do`.
unfoldable pub round_trip :
    (lib : Profiles)
    → Map Text
    → (Text → Text → Option Text → Result Request)
    → lib.ClientProfile
    → (Request → Result Response)
    → Request
    → Result Response
unfolding convert_to_fhttp_request convert_to_net_http_response
round_trip lib order new_request profile send req =
    elim (convert_to_fhttp_request lib order new_request profile req) [
      | fail e ↦ fail (codes "failed to convert request: " ++ e)
      | panic ↦ panic
      | ok f_req ↦ elim (send f_req) [
        | fail e ↦ fail e
        | panic ↦ panic
        | ok f_resp ↦ ok (convert_to_net_http_response f_resp)
      ]
    ]
