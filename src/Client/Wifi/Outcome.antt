-- ===== src/Client/Wifi/Outcome.antt =====
-- What the portal has confirmed when registering or removing an address returns no error.
use go_amizone.Base.{
  ◌≡◌, ap, subst, ◌∙◌, true, false, List, Text, ok, arith, Bool-cases, inl, inr, ◌⊎◌,
}
use go_amizone.Parse.Wifi.{
  MacLib, HardwareAddr, WifiMacInfo, is_registered, wifi_mac_info, validate_hardware_addr,
}
use go_amizone.Client.Types.{Env, State, Response, ◌>>=◌, wrap, lift}
use go_amizone.Client.Request.{unread}
use go_amizone.Client.Request.Answers.{bind_ok, wrap_ok}
use go_amizone.Client.Wifi.{
  new_addresses, register_wifi_mac, register_on, remove_wifi_mac, send_removal, send_registration,
  confirm, check_listed, confirm_removal, get_wifi_mac_information, wifi_page_request, parse_page,
  as_fetch_failure, as_internal_failure, as_parse_failure,
}

module _ (lib : MacLib) (env : Env) where
  parse_page_ok :
      (g : Text → Text) (r : Response) (s t : State) (info : WifiMacInfo)
      → parse_page lib env g r s ≡ (t, ok info)
      → (s ≡ t) × (wifi_mac_info lib env.html (unread r.body) ≡ ok info)
  parse_page_ok g r s t info e =
      let lifted = wrap_ok g (lift (wifi_mac_info lib env.html (unread r.body))) s t info e in
      (ap (λ p. p.0) lifted, ap (λ p. p.1) lifted)

  -- When `RemoveWifiMac` returns no error, the portal's answer to the removal is a page that does not
  -- list the address.
  pub remove_wifi_mac_ok :
      (addr : HardwareAddr) (s s' : State)
      → remove_wifi_mac lib env addr s ≡ (s', ok tt)
      → (info : WifiMacInfo) × (response : Response) × (send_removal lib env addr s
          ≡ (s', ok response))
        × (wifi_mac_info lib env.html (unread response.body) ≡ ok info)
        × (is_registered lib info addr ≡ false)
  unfolding remove_wifi_mac confirm_removal
  remove_wifi_mac_ok addr s s' e = elim (Bool-cases (validate_hardware_addr lib addr)) [
    | inr invalid ↦ ground arith
    | inl valid ↦
        let (t, info, listed, confirmed) =
          bind_ok (send_removal lib env addr >>= parse_page lib env as_parse_failure)
            (confirm_removal lib env addr) s s' tt (ground arith) in
        let (u, response, sent, parsed) =
          bind_ok (send_removal lib env addr) (parse_page lib env as_parse_failure) s t info
            listed in
        let (same, found) = parse_page_ok as_parse_failure response u t info parsed in
        let absent : is_registered lib info addr ≡ false = ground arith in
        let last : t ≡ s' = ground arith in
        (
          info,
          response,
          subst (λ z. send_removal lib env addr s ≡ (z, ok response)) (same ∙ last) sent,
          found,
          absent,
        )
  ]

  -- The portal's page lists an address in the last answer that was received: the page before the
  -- registration, or the answer to it.
  pub record Confirmed (addr : HardwareAddr) (s s' : State) : Type 0 where
    pub info : WifiMacInfo
    pub response : Response
    pub parsed : wifi_mac_info lib env.html (unread response.body) ≡ ok info
    pub listed : is_registered lib info addr ≡ true
    pub received :
        (wifi_page_request lib env s ≡ (s', ok response))
        ⊎ ((before : WifiMacInfo) × (macs : List HardwareAddr) × (t : State) × (is_registered lib
                before addr
              ≡ false)
            × (new_addresses before addr false ≡ ok macs)
            × (send_registration lib env before macs t ≡ (s', ok response)))

  confirm_ok :
      (addr : HardwareAddr) (r : Response) (s s' : State)
      → confirm lib env addr false r s ≡ (s', ok tt)
      → (info : WifiMacInfo) × (s ≡ s')
        × (wifi_mac_info lib env.html (unread r.body) ≡ ok info)
        × (is_registered lib info addr ≡ true)
  unfolding confirm check_listed
  confirm_ok addr r s s' e =
      let (t, info, read, checked) =
        bind_ok (parse_page lib env as_parse_failure r) (check_listed lib env addr) s s' tt e in
      let (same, found) = parse_page_ok as_parse_failure r s t info read in
      let last : t ≡ s' = ground arith in
      let listed : is_registered lib info addr ≡ true = ground arith in
      (info, same ∙ last, found, listed)

  register_on_ok :
      (addr : HardwareAddr) (before : WifiMacInfo) (page : Response) (s t s' : State)
      → wifi_page_request lib env s ≡ (t, ok page)
      → wifi_mac_info lib env.html (unread page.body) ≡ ok before
      → register_on lib env addr false before t ≡ (s', ok tt)
      → Confirmed addr s s'
  unfolding register_on
  register_on_ok addr before page s t s' visited found e =
      elim (Bool-cases (is_registered lib before addr)) [
        | inl already ↦
            let last : t ≡ s' = ground arith in
            record {
              info = before;
              response = page;
              parsed = found;
              listed = already;
              received = inl (subst (λ z. wifi_page_request lib env s ≡ (z, ok page)) last visited);
            }
        | inr unlisted ↦
            let (u, macs, chosen, rest) =
              bind_ok (lift (new_addresses before addr false))
                (λ macs. send_registration lib env before macs >>= confirm lib env addr false) t s'
                tt (ground arith) in
            let (v, response, sent, confirmed) =
              bind_ok (send_registration lib env before macs) (confirm lib env addr false) u s' tt
                rest in
            let (info, same, parsed, listed) = confirm_ok addr response v s' confirmed in
            record {
              info = info;
              response = response;
              parsed = parsed;
              listed = listed;
              received = inr (
                before,
                macs,
                u,
                unlisted,
                ap (λ p. p.1) chosen,
                subst (λ z. send_registration lib env before macs u ≡ (z, ok response)) same sent,
              );
            }
      ]

  -- When `RegisterWifiMac` returns no error and the limit is not bypassed, the last page received
  -- lists the address: the one fetched first, or the answer to a registration of the address.
  pub register_wifi_mac_ok :
      (addr : HardwareAddr) (s s' : State)
      → register_wifi_mac lib env addr false s ≡ (s', ok tt)
      → Confirmed addr s s'
  unfolding register_wifi_mac get_wifi_mac_information register_on
  register_wifi_mac_ok addr s s' e = elim (Bool-cases (validate_hardware_addr lib addr)) [
    | inr invalid ↦ ground arith
    | inl valid ↦
        let (t, before, got, registered) =
          bind_ok (get_wifi_mac_information lib env) (register_on lib env addr false) s s' tt
            (ground arith) in
        let (u, page, visited, read) =
          bind_ok (wrap as_fetch_failure (wifi_page_request lib env))
            (parse_page lib env as_internal_failure) s t before got in
        let (same, found) = parse_page_ok as_internal_failure page u t before read in
        register_on_ok addr before page s t s'
          (subst (λ z. wifi_page_request lib env s ≡ (z, ok page)) same
            (wrap_ok as_fetch_failure (wifi_page_request lib env) s u page visited))
          found registered
  ]
