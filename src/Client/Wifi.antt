-- ===== src/Client/Wifi.antt =====
-- amizone/amizone.go: `GetWiFiMacInformation`, `RegisterWifiMac` and `RemoveWifiMac`.
pub mod Addresses
pub mod Bounds
pub mod Outcome
use go_amizone.Base.{
  ℕ, suc, Bool, true, not, List, [], ◌∷◌, ◌++◌, none, some, Text, codes, Map, insert, encode,
  decimal, Result, ok, fail, panic, take, length, if◌then◌else◌,
}
use go_amizone.Parse.Wifi.{
  MacLib, HardwareAddr, WifiMacInfo, has_free_slot, is_registered, marshal_mac,
  validate_hardware_addr, wifi_mac_info,
}
use go_amizone.Client.Types.{Env, Response, M, ◌>>=◌, return, throw, wrap, lift}
use go_amizone.Client.Request.{unread, post, method_get}
use go_amizone.Client.Retry.{do_request}

abbrev err_failed_to_fetch_page : Text
err_failed_to_fetch_page = codes "failed to fetch page"

abbrev pub err_internal_failure : Text
err_internal_failure = codes "internal failure"

abbrev err_invalid_mac : Text
err_invalid_mac = codes "invalid MAC address passed"

abbrev pub err_no_mac_slots : Text
err_no_mac_slots = codes "no free wifi mac slots"

abbrev mac_base_endpoint : Text
mac_base_endpoint = codes "/RegisterForWifi/mac"

abbrev pub as_fetch_failure : Text → Text
as_fetch_failure e = err_failed_to_fetch_page ++ (codes ": " ++ e)

abbrev pub as_internal_failure : Text → Text
as_internal_failure e = err_internal_failure ++ (codes ": " ++ e)

abbrev pub as_parse_failure : Text → Text
as_parse_failure e = err_internal_failure ++ codes ": failed to parse page"

-- The addresses that a registration sends: those of the page and the new one, which takes the place
-- of the last where no slot is free and the limit is bypassed. Slicing an empty list panics.
unfoldable pub new_addresses : WifiMacInfo → HardwareAddr → Bool → Result (List HardwareAddr)
new_addresses info addr bypass_limit =
    if has_free_slot info
    then ok (info.registered_addresses ++ (addr ∷ []))
    else (if not bypass_limit then fail err_no_mac_slots else elim info.registered_addresses [
      | [] ↦ panic
      | x ∷ xs ↦ ok (take (length xs) (x ∷ xs) ++ (addr ∷ []))
    ])

module _ (lib : MacLib) where
  -- The loop that sets `Mac1`, `Mac2` and so on, from index `i`.
  set_macs : ℕ → List HardwareAddr → Map Text → Map Text
  unfolding marshal_mac decimal
  set_macs i [] payload = payload
  set_macs i (mac ∷ macs) payload =
      set_macs (suc i) macs (insert (codes "Mac" ++ decimal (suc i)) (marshal_mac lib mac) payload)

  registration : WifiMacInfo → Text → List HardwareAddr → Map Text
  unfolding set_macs
  registration info username macs = set_macs 0 macs (
      insert (codes "Name") (codes "DoesntMatter") (
        insert (codes "Amizone_Id") username
          (insert (codes "__RequestVerificationToken") info.request_verification_token [])))

  removal_endpoint : Text → HardwareAddr → Text
  unfolding marshal_mac
  removal_endpoint username addr =
      mac_base_endpoint
      ++ (codes "/Mac1RegistrationDelete?Amizone_Id="
          ++ (username
              ++ (codes "&username="
                  ++ (marshal_mac lib addr ++ codes "&X-Requested-With=XMLHttpRequest"))))

  module _ (env : Env) where
    abbrev pub wifi_page_request : M Response
    wifi_page_request =
        do_request env true method_get (mac_base_endpoint ++ codes "/MacRegistration") none

    abbrev pub parse_page : (Text → Text) → Response → M WifiMacInfo
    parse_page g response = wrap g (lift (wifi_mac_info lib env.html (unread response.body)))

    unfoldable pub get_wifi_mac_information : M WifiMacInfo
    unfolding wifi_mac_info
    get_wifi_mac_information =
        wrap as_fetch_failure wifi_page_request >>= parse_page as_internal_failure

    -- The request that sends the addresses.
    unfoldable pub registration_request : WifiMacInfo → List HardwareAddr → Text → M Response
    unfolding registration
    registration_request info macs username =
        do_request env true post (mac_base_endpoint ++ codes "/MacRegistrationSave")
          (some (encode (registration info username macs)))

    unfoldable pub send_registration : WifiMacInfo → List HardwareAddr → M Response
    unfolding registration_request
    send_registration info macs s =
        wrap as_fetch_failure (registration_request info macs s.credentials.username) s

    unfoldable pub check_listed : HardwareAddr → WifiMacInfo → M (Unit {0})
    unfolding is_registered
    check_listed addr macs =
        if not (is_registered lib macs addr)
        then throw (codes "failed to register mac address")
        else return tt

    -- The check of the answer, which is skipped where the limit is bypassed.
    unfoldable pub confirm : HardwareAddr → Bool → Response → M (Unit {0})
    unfolding check_listed
    confirm addr bypass_limit res =
        if bypass_limit then return tt else (parse_page as_parse_failure res >>= check_listed addr)

    unfoldable pub register_on : HardwareAddr → Bool → WifiMacInfo → M (Unit {0})
    unfolding new_addresses is_registered
    register_on addr bypass_limit info =
        if is_registered lib info addr
        then return tt
        else (lift (new_addresses info addr bypass_limit) >>= λ macs.
            send_registration info macs >>= confirm addr bypass_limit)

    unfoldable pub register_wifi_mac : HardwareAddr → Bool → M (Unit {0})
    unfolding validate_hardware_addr
    register_wifi_mac addr bypass_limit =
        if not (validate_hardware_addr lib addr)
        then throw err_invalid_mac
        else (get_wifi_mac_information >>= register_on addr bypass_limit)

    -- The request that removes an address.
    unfoldable pub removal_request : HardwareAddr → Text → M Response
    unfolding removal_endpoint
    removal_request addr username =
        do_request env true method_get (removal_endpoint username addr) none

    unfoldable pub send_removal : HardwareAddr → M Response
    unfolding removal_request
    send_removal addr s = wrap as_fetch_failure (removal_request addr s.credentials.username) s

    unfoldable pub confirm_removal : HardwareAddr → WifiMacInfo → M (Unit {0})
    unfolding is_registered
    confirm_removal addr info =
        if is_registered lib info addr
        then throw (codes "failed to remove mac address")
        else return tt

    unfoldable pub remove_wifi_mac : HardwareAddr → M (Unit {0})
    unfolding validate_hardware_addr
    remove_wifi_mac addr =
        if not (validate_hardware_addr lib addr)
        then throw err_invalid_mac
        else (send_removal addr >>= parse_page as_parse_failure >>= confirm_removal addr)
