-- ===== src/Parse/Wifi/Slots.antt =====
-- The slots of a parsed page of Wi-Fi registrations, and the spelling of addresses in requests.
use go_amizone.Base.{
  ℕ, ◌+◌, ◌≤◌, ◌≡◌, ◌≢◌, refl, List, [], ◌∷◌, Text, ok, length, All, arith, Option-cases, Bool,
  true, false, if◌then◌else◌, inl, inr, replace_all, replace_from, has_prefix, select, codes,
}
use go_amizone.Base.Html.{Html}
use go_amizone.Parse.Wifi.{
  MacLib, HardwareAddr, WifiMacInfo, addresses_of, address_of, info_of, wifi_mac_info, marshal_mac,
  is_mac_input,
}

-- Every slot holds an address or is free, and there is one.
pub record HasSlots (i : WifiMacInfo) : Type 0 where
  pub at_least_one : 1 ≤ i.slots
  pub all_counted : length i.registered_addresses + i.free_slots ≡ i.slots

dash_if :
    (u : Bool) (c : ℕ) (rest : Text)
    → (u ≡ false → c ≢ b':')
    → All (λ d. d ≢ b':') rest
    → All (λ d. d ≢ b':') (if u then b'-' ∷ rest else c ∷ rest)
dash_if true c rest h hs = (λ e. ground arith, hs)
dash_if false c rest h hs = (h refl, hs)

dash_from : (s : Text) → All (λ c. c ≢ b':') (replace_from 0 s (b':' ∷ []) (b'-' ∷ []))
unfolding replace_from has_prefix
dash_from [] = _
dash_from (c ∷ s) =
    dash_if (has_prefix (c ∷ s) (b':' ∷ [])) c (replace_from 0 s (b':' ∷ []) (b'-' ∷ []))
      (λ h. ground arith) (dash_from s)

module _ (lib : MacLib) where
  -- An address is sent without colons.
  pub marshal_mac-no_colon : (mac : HardwareAddr) → All (λ c. c ≢ b':') (marshal_mac lib mac)
  unfolding marshal_mac replace_all
  marshal_mac-no_colon mac = dash_from (lib.mac_string mac)

  module _ (h : Html) where
    open h use {Node, parse_document, find}

    length-addresses_of : (ns : List Node) → length (addresses_of lib h ns) ≤ length ns
    unfolding addresses_of
    length-addresses_of [] = omega arith
    length-addresses_of (n ∷ ns) = elim (Option-cases (address_of lib h n)) [
      | inl e ↦ ground (arith, length-addresses_of ns)
      | inr (mac, e) ↦ ground (arith, length-addresses_of ns)
    ]

    info_of-HasSlots :
        (dom : Node) (ns : List Node) (i : WifiMacInfo) → info_of lib h dom ns ≡ ok i → HasSlots i
    unfolding info_of
    info_of-HasSlots dom [] i e = ground arith
    info_of-HasSlots dom (n ∷ ns) i e = record {
      at_least_one = ground (arith, e);
      all_counted = ground (arith, e, length-addresses_of (n ∷ ns));
    }

    -- A page that is parsed has at least one slot, and the free slots are the others.
    pub wifi_mac_info-HasSlots :
        (body : Text) (i : WifiMacInfo) → wifi_mac_info lib h body ≡ ok i → HasSlots i
    unfolding wifi_mac_info
    wifi_mac_info-HasSlots body i e = elim (Option-cases (parse_document body)) [
      | inl none_found ↦ ground arith
      | inr (dom, found) ↦
          info_of-HasSlots dom (select (is_mac_input lib h) (find (dom ∷ []) (codes "input"))) i
            (ground arith)
    ]
