-- ===== src/Server/Service/Replies.antt =====
-- What the methods of the service reply to requests that they do not serve.
pub mod Answers
use go_amizone.Base.{◌≡◌, refl, Bool, [], none, some, Text, codes}
use go_amizone.Client.Types.{Env, State}
use go_amizone.Server.Service.{
  status, invalid_argument, Rpc, ServiceLib, bad_request, with_address, serve_exam_result,
  serve_class_schedule, serve_courses, serve_register_wifi_mac, serve_deregister_wifi_mac,
}

-- With a client a method refuses the request, and the client is as before.
abbrev pub Rejects : {A : Type 0} → Text → Rpc A → Type 0
Rejects e rpc = (s : State) → rpc (some s) ≡ (some s, status invalid_argument e)

module _ (env : Env) (lib : ServiceLib env) where
  open lib use {macs}

  -- With a client, an empty semester reference, no date, or an address that does not parse is an
  -- invalid argument, and nothing is sent.
  pub service-Rejects :
      (address : Text) (override : Bool)
      → macs.parse_mac address ≡ none
      → Rejects (codes "semester ref is required") (serve_exam_result env lib [])
        × Rejects (codes "semester ref is required") (serve_courses env lib [])
        × Rejects (codes "date is required") (serve_class_schedule env lib none)
        × Rejects (codes "bad mac address") (serve_register_wifi_mac env lib address override)
        × Rejects (codes "bad mac address") (serve_deregister_wifi_mac env lib address)
  unfolding serve_exam_result serve_courses serve_class_schedule serve_register_wifi_mac
      serve_deregister_wifi_mac with_address bad_request
  service-Rejects address override bad = (λ s. refl, λ s. refl, λ s. refl, λ s. rw bad, λ s. rw bad)
