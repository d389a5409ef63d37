-- ===== src/Server/Service/Bounds.antt =====
-- How often the methods of the service make the client call http.Client.Do, and what they keep of the client.
use go_amizone.Base.{ℕ, ◌≡◌, refl, Bool, true, [], ◌∷◌, Option, none, some, Text, arith}
use go_amizone.Parse.Schedule.{filter_by_date}
use go_amizone.Parse.Wifi.{HardwareAddr}
use go_amizone.Client.Types.{Env, State, M, ◌>>=◌, return}
use go_amizone.Client.Request.{method_get}
use go_amizone.Client.Login.Frame.{Frame, Within, Within-bind, Within-wrap}
use go_amizone.Client.Retry.{do_request}
use go_amizone.Client.Retry.Bounds.{do_request-Frame}
use go_amizone.Client.Schedule.{
  get_class_schedule, schedule_request, schedule_endpoint, parse_schedule,
}
use go_amizone.Client.Wifi.{
  as_fetch_failure, as_parse_failure, parse_page, send_removal, removal_request, confirm_removal,
  remove_wifi_mac,
}
use go_amizone.Client.Wifi.Bounds.{register_wifi_mac-Frame, get-Within}
use go_amizone.Client.Getters.Outcome.{getters-Within}
use go_amizone.Server.Service.{
  Rpc, ServiceLib, with_client, bad_request, with_address, serve_attendance,
  serve_current_exam_result, serve_exam_result, serve_class_schedule, serve_exam_schedule,
  serve_semesters, serve_courses, serve_current_courses, serve_user_profile, serve_wifi_mac_info,
  serve_register_wifi_mac, serve_deregister_wifi_mac, day_of,
}
use go_amizone.Server.Messages.{Date}

-- With a client a method leaves one that called http.Client.Do at most `n` times, for the
-- same user.
abbrev pub Serves : {A : Type 0} → ℕ → Rpc A → Type 0
Serves n rpc = (s : State) → (s' : State) × ((rpc (some s)).0 ≡ some s') × Frame n s s'

same-Frame : (n : ℕ) (s : State) → Frame n s s
same-Frame n s = ground arith

module _ (env : Env) (lib : ServiceLib env) where
  open lib use {pages, schedules, format_date, macs}

  request-Within : (time_from : ℕ) → Within 4 (schedule_request env schedules format_date time_from)
  unfolding schedule_request
  request-Within time_from =
      Within-wrap 4 as_fetch_failure
        (do_request env true method_get (schedule_endpoint env schedules format_date time_from)
          none)
        (λ s. do_request-Frame env method_get _ none [] true s)

  schedule-Within :
      (time_from : ℕ) → Within 4 (get_class_schedule env schedules format_date time_from)
  unfolding get_class_schedule parse_schedule
  schedule-Within time_from =
      Within-bind 4 0
        (schedule_request env schedules format_date time_from
          >>= parse_schedule env schedules format_date)
        (λ s. return (filter_by_date s time_from))
        (Within-bind 4 0 (schedule_request env schedules format_date time_from)
          (parse_schedule env schedules format_date) (request-Within time_from)
          (λ r s. ground arith))
        (λ c s. ground arith)

  removal-Within : (addr : HardwareAddr) → Within 4 (send_removal macs env addr)
  unfolding send_removal removal_request
  removal-Within addr s =
      Within-wrap 4 as_fetch_failure (removal_request macs env addr s.credentials.username)
        (λ t. do_request-Frame env method_get _ none [] true t) s

  remove-Within : (addr : HardwareAddr) → Within 4 (remove_wifi_mac macs env addr)
  unfolding remove_wifi_mac confirm_removal
  remove-Within addr s = ground (
    arith,
    Within-bind 4 0 (send_removal macs env addr >>= parse_page macs env as_parse_failure)
        (confirm_removal macs env addr)
        (Within-bind 4 0 (send_removal macs env addr) (parse_page macs env as_parse_failure)
          (removal-Within addr) (λ r t. ground arith))
        (λ i t. ground arith) s,
  )

  exam_result-Serves : (semester_ref : Text) → Serves 4 (serve_exam_result env lib semester_ref)
  unfolding serve_exam_result with_client bad_request
  exam_result-Serves [] = λ s. (s, refl, same-Frame 4 s)
  exam_result-Serves (c ∷ semester_ref) =
      λ s. (_, refl, (getters-Within env pages pages.atoi (c ∷ semester_ref)).2 s)

  courses-Serves : (semester_ref : Text) → Serves 4 (serve_courses env lib semester_ref)
  unfolding serve_courses with_client bad_request
  courses-Serves [] = λ s. (s, refl, same-Frame 4 s)
  courses-Serves (c ∷ semester_ref) =
      λ s. (_, refl, (getters-Within env pages pages.atoi (c ∷ semester_ref)).5 s)

  class_schedule-Serves : (date : Option Date) → Serves 4 (serve_class_schedule env lib date)
  unfolding serve_class_schedule with_client bad_request
  class_schedule-Serves none = λ s. (s, refl, same-Frame 4 s)
  class_schedule-Serves (some date) = λ s. (_, refl, (schedule-Within (day_of env lib date)) s)

  address-Serves :
      (n : ℕ) (address : Option HardwareAddr) (call : HardwareAddr → M (Unit {0})) (prefix : Text)
      → ((addr : HardwareAddr) → Within n (call addr))
      → Serves n (with_address env lib address call prefix)
  unfolding with_address with_client bad_request
  address-Serves n none call prefix within = λ s. (s, refl, same-Frame n s)
  address-Serves n (some addr) call prefix within = λ s. (_, refl, (within addr) s)

  -- With a client every method leaves a client for the same user that still counts as logged in if it
  -- did; in the registration of an address the client calls http.Client.Do at most eight times, in the
  -- others four. The requests of the solver within a login and the redirects that Do follows are not
  -- counted.
  pub service-Serves :
      (semester_ref address : Text) (date : Option Date) (override : Bool)
      → Serves 4 (serve_attendance env lib)
        × Serves 4 (serve_current_exam_result env lib)
        × Serves 4 (serve_exam_result env lib semester_ref)
        × Serves 4 (serve_class_schedule env lib date)
        × Serves 4 (serve_exam_schedule env lib)
        × Serves 4 (serve_semesters env lib)
        × Serves 4 (serve_courses env lib semester_ref)
        × Serves 4 (serve_current_courses env lib)
        × Serves 4 (serve_user_profile env lib)
        × Serves 4 (serve_wifi_mac_info env lib)
        × Serves 8 (serve_register_wifi_mac env lib address override)
        × Serves 4 (serve_deregister_wifi_mac env lib address)
  unfolding serve_attendance serve_current_exam_result serve_exam_schedule serve_semesters
      serve_current_courses serve_user_profile serve_wifi_mac_info serve_register_wifi_mac
      serve_deregister_wifi_mac with_client
  service-Serves semester_ref address date override =
      let getters = getters-Within env pages pages.atoi semester_ref in
      (
        λ s. (_, refl, getters.0 s),
        λ s. (_, refl, getters.1 s),
        exam_result-Serves semester_ref,
        class_schedule-Serves date,
        λ s. (_, refl, getters.3 s),
        λ s. (_, refl, getters.4 s),
        courses-Serves semester_ref,
        λ s. (_, refl, getters.6 s),
        λ s. (_, refl, getters.7 s),
        λ s. (_, refl, (get-Within macs env) s),
        address-Serves 8 (macs.parse_mac address) _ _
            (λ addr. register_wifi_mac-Frame macs env addr override),
        address-Serves 4 (macs.parse_mac address) _ _ remove-Within,
      )
