-- ===== src/Client/Wifi/Bounds.antt =====
-- How often registering an address calls http.Client.Do.
use go_amizone.Base.{Bool, true, List, Text, arith}
use go_amizone.Parse.Wifi.{MacLib, HardwareAddr, WifiMacInfo}
use go_amizone.Client.Types.{Env, State, Response, ◌>>=◌, wrap, lift}
use go_amizone.Client.Login.Frame.{Frame, Within, Within-bind, Within-wrap}
use go_amizone.Client.Retry.Bounds.{do_request-Frame}
use go_amizone.Client.Wifi.{
  new_addresses, register_wifi_mac, register_on, send_registration, registration_request, confirm,
  check_listed, get_wifi_mac_information, wifi_page_request, parse_page, as_fetch_failure,
  as_internal_failure,
}

module _ (lib : MacLib) (env : Env) where
  parse_page-Within : (g : Text → Text) (r : Response) → Within 0 (parse_page lib env g r)
  parse_page-Within g r s = ground arith

  page-Within : Within 4 (wifi_page_request lib env)
  page-Within s = do_request-Frame env _ _ _ _ true s

  pub get-Within : Within 4 (get_wifi_mac_information lib env)
  unfolding get_wifi_mac_information
  get-Within =
      Within-bind 4 0 (wrap as_fetch_failure (wifi_page_request lib env))
        (parse_page lib env as_internal_failure)
        (Within-wrap 4 as_fetch_failure (wifi_page_request lib env) page-Within)
        (parse_page-Within as_internal_failure)

  registration-Within :
      (info : WifiMacInfo) (macs : List HardwareAddr) (username : Text)
      → Within 4 (registration_request lib env info macs username)
  unfolding registration_request
  registration-Within info macs username s = do_request-Frame env _ _ _ _ true s

  send-Within :
      (info : WifiMacInfo) (macs : List HardwareAddr)
      → Within 4 (send_registration lib env info macs)
  unfolding send_registration
  send-Within info macs s =
      Within-wrap 4 as_fetch_failure (registration_request lib env info macs s.credentials.username)
        (registration-Within info macs s.credentials.username) s

  confirm-Within :
      (addr : HardwareAddr) (bypass_limit : Bool) (r : Response)
      → Within 0 (confirm lib env addr bypass_limit r)
  unfolding confirm check_listed
  confirm-Within addr bypass_limit r s = ground arith

  on_page-Within :
      (addr : HardwareAddr) (bypass_limit : Bool) (info : WifiMacInfo)
      → Within 4 (register_on lib env addr bypass_limit info)
  unfolding register_on
  on_page-Within addr bypass_limit info s = ground (
    arith,
    Within-bind 0 4 (lift (new_addresses info addr bypass_limit))
        (λ macs. send_registration lib env info macs >>= confirm lib env addr bypass_limit)
        (λ t. lifted t)
        (λ macs.
          Within-bind 4 0 (send_registration lib env info macs) (confirm lib env addr bypass_limit)
            (send-Within info macs) (confirm-Within addr bypass_limit))
        s,
  )
    where
      lifted : Within 0 (lift (new_addresses info addr bypass_limit))
      lifted t = ground arith

  -- Registering an address calls http.Client.Do at most eight times, does not reset the record of a login
  -- and keeps the credentials.
  pub register_wifi_mac-Frame :
      (addr : HardwareAddr) (bypass_limit : Bool) (s : State)
      → Frame 8 s (register_wifi_mac lib env addr bypass_limit s).0
  unfolding register_wifi_mac
  register_wifi_mac-Frame addr bypass_limit s = ground (
    arith,
    Within-bind 4 4 (get_wifi_mac_information lib env) (register_on lib env addr bypass_limit)
        get-Within (on_page-Within addr bypass_limit) s,
  )
