-- ===== src/Tests/Wifi.antt =====
-- Registering and removing addresses: a page is a text with one input per character, whose value is
-- that character; a dash is no address.
use go_amizone.Base.{
  ◌≡◌, refl, true, false, [], ◌∷◌, none, some, Text, codes, text_eq, length, leb, hours, ok, fail,
  map, if◌then◌else◌, ◌⊎◌, arith,
}
use go_amizone.Base.Html.{Html}
use go_amizone.Parse.Wifi.{MacLib, WifiMacInfo, wifi_mac_info, is_registered}
use go_amizone.Parse.Wifi.Slots.{HasSlots}
use go_amizone.Client.Types.{Env, State, Response}
use go_amizone.Client.Request.{unread}
use go_amizone.Client.Retry.{do_request_with_headers}
use go_amizone.Client.Wifi.{
  new_addresses, register_wifi_mac, remove_wifi_mac, send_removal, get_wifi_mac_information,
  register_on, send_registration, confirm, confirm_removal,
}
use go_amizone.Client.Wifi.Addresses.{Accepted, Refused, new_addresses_lem}
use go_amizone.Client.Wifi.Outcome.{Confirmed, register_wifi_mac_ok, remove_wifi_mac_ok}

abbrev wifi_pages : Html
wifi_pages = record {
  Node = Text;
  parse_error = λ body. codes "bad HTML";
  parse_document = λ body. some body;
  find = λ sel name.
      if text_eq name (codes "input")
      then elim sel [ [] ↦ [] | n ∷ ns ↦ map (λ c. c ∷ []) n ]
      else [];
  filter_by = λ sel name. sel;
  children = λ sel. [];
  parent = λ sel. [];
  node_attr = λ n name. some (if text_eq name (codes "id") then codes "Mac1" else n);
  node_text = λ n. n;
  node_name = λ n. codes "input";
}

abbrev mac_lib : MacLib
mac_lib = record {
  mac_string = λ mac. mac;
  parse_mac = λ text. if text_eq text (codes "-") then none else some text;
}

abbrev wifi_page : Text → Response
wifi_page t = record { status_code = 200; path = codes "/mac"; body = some t }

-- The first answer lists `a` and a free slot, all later ones `a` and `c`.
abbrev wifi_portal : Env
wifi_portal = record {
  html = wifi_pages;
  clock = λ n. hours 10;
  transport = λ reqs. ok (wifi_page (if leb (length reqs) 1 then codes "a-" else codes "ac"));
  cookies = λ reqs. none;
  composes = λ m u. true;
  solve_turnstile = λ reqs u key. fail [];
}

abbrev ann_state : State
ann_state = record {
  credentials = record { username = codes "ann"; password = codes "p" };
  has_capsolver = false;
  last_attempt = 0;
  last_login_success = 0;
  did_login = true;
  sent = [];
  reads = 0;
  login_records = [];
}

abbrev full_page : WifiMacInfo
full_page = record {
  registered_addresses = codes "a" ∷ codes "b" ∷ [];
  slots = 2;
  free_slots = 0;
  request_verification_token = [];
}

replaced_test : new_addresses full_page (codes "c") true ≡ ok (codes "a" ∷ codes "c" ∷ [])
unfolding new_addresses
replaced_test = refl

parsed_test :
    wifi_mac_info mac_lib wifi_pages (codes "ab")
    ≡ ok record {
      registered_addresses = codes "a" ∷ codes "b" ∷ [];
      slots = 2;
      free_slots = 0;
      request_verification_token = [];
    }
unfolding wifi_mac_info text_eq
parsed_test = refl

full_page-HasSlots : HasSlots full_page
full_page-HasSlots = record { at_least_one = omega arith; all_counted = refl }

new_addresses_lem_example : Accepted full_page (codes "c") true ⊎ Refused full_page (codes "c") true
new_addresses_lem_example = new_addresses_lem full_page (codes "c") true full_page-HasSlots

register_wifi_mac_ok_example :
    Confirmed mac_lib wifi_portal
      (codes "c")
      ann_state
      (register_wifi_mac mac_lib wifi_portal (codes "c") false ann_state).0
unfolding register_wifi_mac text_eq get_wifi_mac_information do_request_with_headers register_on
    send_registration confirm
register_wifi_mac_ok_example =
    register_wifi_mac_ok mac_lib wifi_portal (codes "c") ann_state
      (register_wifi_mac mac_lib wifi_portal (codes "c") false ann_state).0 refl

remove_wifi_mac_ok_example :
    (info : WifiMacInfo) × (response : Response) × (send_removal mac_lib wifi_portal
        (codes "b")
        ann_state
      ≡ ((remove_wifi_mac mac_lib wifi_portal (codes "b") ann_state).0, ok response))
    × (wifi_mac_info mac_lib wifi_pages (unread response.body) ≡ ok info)
    × (is_registered mac_lib info (codes "b") ≡ false)
unfolding remove_wifi_mac text_eq send_removal do_request_with_headers confirm_removal wifi_mac_info
remove_wifi_mac_ok_example =
    remove_wifi_mac_ok mac_lib wifi_portal (codes "b") ann_state
      (remove_wifi_mac mac_lib wifi_portal (codes "b") ann_state).0 refl
