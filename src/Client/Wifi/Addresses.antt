-- ===== src/Client/Wifi/Addresses.antt =====
-- The addresses that a registration sends.
use go_amizone.Base.{
  ℕ, suc, ◌≤◌, ◌≡◌, refl, sym, ap, Bool, true, false, List, [], ◌∷◌, ◌++◌, ok, fail, take, length,
  arith, Bool-cases, inl, inr, ◌⊎◌, length-append,
}
use go_amizone.Parse.Wifi.{HardwareAddr, WifiMacInfo, has_free_slot}
use go_amizone.Parse.Wifi.Slots.{HasSlots}
use go_amizone.Client.Wifi.{new_addresses, err_no_mac_slots}

-- The addresses of a registration: some of the old ones from the front, all but at most one, and
-- the new one; no more than there are slots.
pub record Chosen (info : WifiMacInfo) (addr : HardwareAddr) (macs : List HardwareAddr)
    : Type 0 where
  pub front : ℕ
  pub at_most_one_lost : length info.registered_addresses ≤ suc front
  pub shape : macs ≡ take front info.registered_addresses ++ (addr ∷ [])
  pub fits : length macs ≤ info.slots

take-length : (xs : List HardwareAddr) → take (length xs) xs ≡ xs
take-length [] = refl
take-length (x ∷ xs) = ap (λ ys. x ∷ ys) (take-length xs)

length-take-init :
    (x : HardwareAddr) (xs : List HardwareAddr) → length (take (length xs) (x ∷ xs)) ≡ length xs
length-take-init x [] = refl
length-take-init x (y ∷ xs) = ap suc (length-take-init y xs)

-- No slot is free, and the limit stands.
pub record Refused (info : WifiMacInfo) (addr : HardwareAddr) (bypass_limit : Bool) : Type 0 where
  pub failed : new_addresses info addr bypass_limit ≡ fail err_no_mac_slots
  pub none_free : info.free_slots ≡ 0
  pub limited : bypass_limit ≡ false

abbrev pub Accepted : WifiMacInfo → HardwareAddr → Bool → Type 0
Accepted info addr bypass_limit =
    (macs : List HardwareAddr) × ((new_addresses info addr bypass_limit ≡ ok macs)
      × Chosen info addr macs)

free_lem :
    (info : WifiMacInfo) (addr : HardwareAddr) (bypass_limit : Bool)
    → HasSlots info
    → has_free_slot info ≡ true
    → Accepted info addr bypass_limit
unfolding new_addresses
free_lem info addr bypass_limit slots free = (
  info.registered_addresses ++ (addr ∷ []),
  (
    ground arith,
    record {
      front = length info.registered_addresses;
      at_most_one_lost = omega arith;
      shape = ap (λ xs. xs ++ (addr ∷ [])) (sym (take-length info.registered_addresses));
      fits = ground (arith, length-append info.registered_addresses (addr ∷ []), slots.all_counted);
    },
  ),
)

full_lem :
    (info : WifiMacInfo) (addr : HardwareAddr) (xs : List HardwareAddr)
    → HasSlots info
    → has_free_slot info ≡ false
    → info.registered_addresses ≡ xs
    → Accepted info addr true
unfolding new_addresses
full_lem info addr [] slots full e =
    absurd (ground (arith, e, slots.at_least_one, slots.all_counted))
full_lem info addr (x ∷ xs) slots full e = (
  take (length xs) (x ∷ xs) ++ (addr ∷ []),
  (
    rw (full, e) refl,
    record {
      front = length xs;
      at_most_one_lost = rw e (omega arith);
      shape = rw e refl;
      fits = ground (
        arith,
        length-append (take (length xs) (x ∷ xs)) (addr ∷ []),
        length-take-init x xs,
        slots.all_counted,
        slots.at_least_one,
        e,
      );
    },
  ),
)

-- For a page with slots as a parsed page has them, the choice of addresses never panics: it gives a
-- list as `Chosen` says, or fails where no slot is free and the limit is not bypassed.
pub new_addresses_lem :
    (info : WifiMacInfo) (addr : HardwareAddr) (bypass_limit : Bool)
    → HasSlots info
    → Accepted info addr bypass_limit ⊎ Refused info addr bypass_limit
unfolding new_addresses
new_addresses_lem info addr bypass_limit slots = elim (Bool-cases (has_free_slot info)) [
  | inl free ↦ inl (free_lem info addr bypass_limit slots free)
  | inr full ↦ elim bypass_limit as (λ b. Accepted info addr b ⊎ Refused info addr b) [
    | true ↦ inl (full_lem info addr info.registered_addresses slots full refl)
    | false ↦ inr record { failed = ground arith; none_free = ground arith; limited = refl }
  ]
]
