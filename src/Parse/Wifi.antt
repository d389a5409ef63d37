-- ===== src/Parse/Wifi.antt =====
-- The Wi-Fi registrations of a user: amizone/models/wifi_mac_info.go, the parser of their page in
-- amizone/internal/parse/wifi.go, and the helpers marshaller.Mac and ValidateHardwareAddr.
pub mod Slots
use go_amizone.Base.{
  ℕ, ◌-◌, Bool, true, false, List, [], ◌∷◌, ◌++◌, Option, none, some, Text, codes, Result, ok, fail,
  is_empty, ltb, any, select, length, has_prefix, text_eq, if◌then◌else◌, replace_all,
}
use go_amizone.Base.Html.{Html, attr_or}
use go_amizone.Parse.Session.{verification_token_from_dom}

-- `net.HardwareAddr`: bytes.
abbrev pub HardwareAddr : Type 0
HardwareAddr = List ℕ

-- `HardwareAddr.String` and `net.ParseMAC`; `none` is an error of the latter.
pub record MacLib : Type 0 where
  pub mac_string : HardwareAddr → Text
  pub parse_mac : Text → Option HardwareAddr

pub record WifiMacInfo : Type 0 where
  pub registered_addresses : List HardwareAddr
  pub slots : ℕ
  pub free_slots : ℕ
  pub request_verification_token : Text

abbrev pub has_free_slot : WifiMacInfo → Bool
has_free_slot i = ltb 0 i.free_slots

abbrev pub err_failed_to_parse : Text
err_failed_to_parse = codes "failed to parse"

module _ (lib : MacLib) where
  unfoldable pub is_registered : WifiMacInfo → HardwareAddr → Bool
  unfolding text_eq
  is_registered i mac =
      any (λ addr. text_eq (lib.mac_string addr) (lib.mac_string mac)) i.registered_addresses

  -- `marshaller.Mac`
  unfoldable pub marshal_mac : HardwareAddr → Text
  unfolding replace_all
  marshal_mac mac = replace_all (lib.mac_string mac) (b':' ∷ []) (b'-' ∷ [])

  -- `ValidateHardwareAddr`: whether it gives no error.
  unfoldable pub validate_hardware_addr : HardwareAddr → Bool
  validate_hardware_addr addr = elim (lib.parse_mac (lib.mac_string addr)) [
    | none ↦ false
    | some mac ↦ true
  ]

  module _ (h : Html) where
    open h use {Node, parse_document, parse_error, find}

    abbrev is_mac_input : Node → Bool
    is_mac_input n = has_prefix (attr_or h (n ∷ []) (codes "id") []) (codes "Mac")

    -- The address of one input: none where its value is empty or no address.
    address_of : Node → Option HardwareAddr
    address_of n =
        let v = attr_or h (n ∷ []) (codes "value") [] in
        if is_empty v then none else lib.parse_mac v

    -- The loop over the inputs.
    unfoldable pub addresses_of : List Node → List HardwareAddr
    unfolding address_of
    addresses_of [] = []
    addresses_of (n ∷ ns) = elim (address_of n) [
      | none ↦ addresses_of ns
      | some mac ↦ mac ∷ addresses_of ns
    ]

    -- The page's information, from its inputs. No more addresses are read than there are inputs.
    info_of : Node → List Node → Result WifiMacInfo
    unfolding addresses_of verification_token_from_dom
    info_of dom [] = fail err_failed_to_parse
    info_of dom (n ∷ ns) = ok record {
      registered_addresses = addresses_of (n ∷ ns);
      slots = length (n ∷ ns);
      free_slots = length (n ∷ ns) - length (addresses_of (n ∷ ns));
      request_verification_token = verification_token_from_dom h dom;
    }

    unfoldable pub wifi_mac_info : Text → Result WifiMacInfo
    unfolding info_of has_prefix
    wifi_mac_info body = elim (parse_document body) [
      | none ↦ fail (err_failed_to_parse ++ (codes ": " ++ parse_error body))
      | some dom ↦ info_of dom (select is_mac_input (find (dom ∷ []) (codes "input")))
    ]
