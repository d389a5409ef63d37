-- ===== src/Server/Service.antt =====
-- server/grpc_service_server.go: the methods of the gRPC service. The client of the context is `none`
-- where `authorizeCtx` left none there.
pub mod Replies
pub mod Bounds
use go_amizone.Base.{
  ℕ, Bool, List, Option, none, some, Map, Text, codes, ◌++◌, Result, ok, fail, panic, is_empty, ℤ,
  if◌then◌else◌,
}
use go_amizone.Parse.Library.{PageLib}
use go_amizone.Parse.Schedule.{ScheduleLib}
use go_amizone.Parse.Wifi.{MacLib, HardwareAddr}
use go_amizone.Client.Types.{Env, State, M}
use go_amizone.Client.Schedule.{get_class_schedule}
use go_amizone.Client.Wifi.{get_wifi_mac_information, register_wifi_mac, remove_wifi_mac}
use go_amizone.Client.Getters.{
  get_attendance, get_current_examination_result, get_examination_result, get_exam_schedule,
  get_semesters, get_courses, get_current_courses, get_user_profile,
}
use go_amizone.Client.Feedback.Submissions.{Returns}
use go_amizone.Server.ToProto.{
  ProtoLib, attendance_records, courses, exam_schedule, examination_result_records, from_date,
  profile, scheduled_classes, semester_list, wifi_info,
}
use go_amizone.Server.Messages.{
  Date, V1AttendanceRecord, V1Course, V1ExamResultRecords, V1ExaminationSchedule, V1Profile,
  V1ScheduledClass, V1Semester, V1WifiMacInfo,
}

-- The status codes in use.
pub data Code : Type 0 where
  unauthenticated invalid_argument internal unknown : Code

-- What a method returns: a message, a status, an error without one, or a panic.
pub data Reply (A : Type 0) : Type 0 where
  message : A → Reply A
  status : Code → Text → Reply A
  plain_error : Text → Reply A
  crash : Reply A

abbrev pub Context : Type 0
Context = Option State

-- A method of the service on the client in its context.
abbrev pub Rpc : Type 0 → Type 0
Rpc A = Context → Context × Reply A

abbrev pub failed_to_authenticate : Text
failed_to_authenticate = codes "failed to authenticate"

-- What the result of the client's method becomes.
unfoldable pub answer : {A B : Type 0} → (Text → Reply B) → (A → B) → Result A → Reply B
answer on_error transform (ok a) = message (transform a)
answer on_error transform (fail e) = on_error e
answer on_error transform panic = crash

-- The type assertion on the context's value, and the call of the client.
unfoldable pub with_client : {A B : Type 0} → Code → M A → (Text → Reply B) → (A → B) → Rpc B
unfolding answer
with_client code call on_error transform none = (none, status code failed_to_authenticate)
with_client code call on_error transform (some s) =
    let (s', r) = call s in (some s', answer on_error transform r)

-- A request that is refused once there is a client.
unfoldable pub bad_request : {B : Type 0} → Code → Text → Rpc B
bad_request code e none = (none, status code failed_to_authenticate)
bad_request code e (some s) = (some s, status invalid_argument e)

abbrev pub status_error : {B : Type 0} → Code → Text → Text → Reply B
status_error code prefix e = status code (prefix ++ e)

-- What the methods of the client use.
pub record ServiceLib (env : Env) : Type 1 where
  pub pages : PageLib env.html
  pub schedules : ScheduleLib
  pub format_date : ℕ → Text
  pub macs : MacLib
  pub proto : ProtoLib
  pub query_of : Text → Option (Map Text)
  pub endpoint_in : env.html.Node → Option Text

module _ (env : Env) (lib : ServiceLib env) where
  open lib use {pages, schedules, format_date, macs, proto, query_of, endpoint_in}
  open pages use {Float}
  open proto use {Timestamp}

  abbrev no_attendance_error : {B : Type 0} → Text → Reply B
  no_attendance_error e = plain_error (codes "failed to retrieve attendance")

  unfoldable pub serve_attendance : Rpc (List V1AttendanceRecord)
  unfolding with_client get_attendance attendance_records
  serve_attendance =
      with_client unauthenticated (get_attendance env pages.atoi) no_attendance_error
        attendance_records

  unfoldable pub serve_current_exam_result : Rpc (V1ExamResultRecords Float)
  unfolding with_client get_current_examination_result examination_result_records
  serve_current_exam_result =
      with_client unauthenticated (get_current_examination_result env pages) no_attendance_error
        (examination_result_records proto)

  unfoldable pub serve_exam_result : Text → Rpc (V1ExamResultRecords Float)
  unfolding with_client bad_request get_examination_result examination_result_records
  serve_exam_result semester_ref =
      if is_empty semester_ref
      then bad_request unauthenticated (codes "semester ref is required")
      else with_client unauthenticated (get_examination_result env pages semester_ref)
          no_attendance_error (examination_result_records proto)

  -- The midnight of the day that a date names.
  unfoldable pub day_of : Date → ℕ
  unfolding from_date
  day_of d =
      let n_date = from_date proto d in
      proto.utc_date (proto.year n_date) (proto.month n_date) (proto.day n_date)

  unfoldable pub serve_class_schedule : Option Date → Rpc (List (V1ScheduledClass Timestamp))
  unfolding with_client bad_request get_class_schedule day_of scheduled_classes
  serve_class_schedule none = bad_request unauthenticated (codes "date is required")
  serve_class_schedule (some date) =
      with_client unauthenticated (get_class_schedule env schedules format_date (day_of date))
        (status_error internal (codes "failed to retrieve class schedule: "))
        (scheduled_classes proto)

  unfoldable pub serve_exam_schedule : Rpc (V1ExaminationSchedule Timestamp)
  unfolding with_client get_exam_schedule exam_schedule
  serve_exam_schedule =
      with_client unauthenticated (get_exam_schedule env pages)
        (status_error internal (codes "failed to retrieve exam schedule: ")) (exam_schedule proto)

  unfoldable pub serve_semesters : Rpc (List V1Semester)
  unfolding with_client get_semesters semester_list
  serve_semesters =
      with_client unauthenticated (get_semesters env pages)
        (status_error internal (codes "failed to retrieve semesters: ")) semester_list

  unfoldable pub serve_courses : Text → Rpc (List (V1Course Float))
  unfolding with_client bad_request get_courses courses
  serve_courses semester_ref =
      if is_empty semester_ref
      then bad_request unauthenticated (codes "semester ref is required")
      else with_client unauthenticated (get_courses env pages semester_ref)
          (status_error internal (codes "failed to retrieve courses: ")) courses

  unfoldable pub serve_current_courses : Rpc (List (V1Course Float))
  unfolding with_client get_current_courses courses
  serve_current_courses =
      with_client unauthenticated (get_current_courses env pages)
        (status_error internal (codes "failed to retrieve courses: ")) courses

  unfoldable pub serve_user_profile : Rpc (V1Profile Timestamp)
  unfolding with_client get_user_profile profile
  serve_user_profile =
      with_client internal (get_user_profile env pages)
        (status_error internal (codes "failed to retrieve user-profile: ")) (profile proto)

  unfoldable pub serve_wifi_mac_info : Rpc V1WifiMacInfo
  unfolding with_client get_wifi_mac_information wifi_info
  serve_wifi_mac_info =
      with_client internal (get_wifi_mac_information macs env)
        (λ e. status internal (codes "failed to retrieve mac info")) (wifi_info macs)

  -- A call with an address; `none` is an address that `net.ParseMAC` refuses.
  unfoldable pub with_address :
      Option HardwareAddr → (HardwareAddr → M (Unit {0})) → Text → Rpc (Unit {0})
  unfolding with_client bad_request
  with_address none call prefix = bad_request internal (codes "bad mac address")
  with_address (some addr) call prefix =
      with_client internal (call addr) (status_error unknown prefix) (λ u. u)

  unfoldable pub serve_register_wifi_mac : Text → Bool → Rpc (Unit {0})
  unfolding with_address register_wifi_mac
  serve_register_wifi_mac address override_limit =
      with_address (macs.parse_mac address) (λ addr. register_wifi_mac macs env addr override_limit)
        (codes "failed to register: ")

  unfoldable pub serve_deregister_wifi_mac : Text → Rpc (Unit {0})
  unfolding with_address remove_wifi_mac
  serve_deregister_wifi_mac address =
      with_address (macs.parse_mac address) (remove_wifi_mac macs env) (codes "failed removal: ")

  -- `FillFacultyFeedback`, a relation as the submissions interleave.
  pub data FillsFacultyFeedback (rating query_rating : ℤ) (comment : Text)
      : Context → Context → Reply ℤ → Type 0 where
    unauthorized :
        FillsFacultyFeedback rating query_rating comment none none
          (status internal failed_to_authenticate)
    fills :
        (s s' : State) (r : Result ℤ)
        → Returns env pages query_of endpoint_in rating query_rating comment s s' r
        → FillsFacultyFeedback rating query_rating comment
            (some s)
            (some s')
            (answer (status_error unknown (codes "failed submission: ")) (λ n. n) r)
