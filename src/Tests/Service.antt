-- ===== src/Tests/Service.antt =====
-- The service against a portal whose courses page has one row.
use go_amizone.Base.{
  map, ℕ, ◌≡◌, refl, true, false, List, [], ◌∷◌, none, some, Text, codes, text_eq, ok, fail, pos,
  is_empty, if◌then◌else◌, length,
}
use go_amizone.Base.Html.{Html}
use go_amizone.Parse.Attendance.{AttendanceRecord}
use go_amizone.Parse.Schedule.{ScheduledClass}
use go_amizone.Parse.Courses.{Course, Semester}
use go_amizone.Parse.Examinations.{ExaminationSchedule}
use go_amizone.Parse.Profiles.{Profile}
use go_amizone.Client.Types.{Env, State}
use go_amizone.Client.Retry.{do_request_with_headers}
use go_amizone.Client.Request.{post}
use go_amizone.Client.Getters.{courses_endpoint, semester_payload}
use go_amizone.Client.Getters.Outcome.{Listed}
use go_amizone.Tests.Schedule.{library}
use go_amizone.Tests.Client.{returning}
use go_amizone.Server.ToProto.{
  ProtoLib, attendance_records, semester_list, courses, scheduled_classes, exam_schedule, profile,
}
use go_amizone.Server.Messages.{V1Course}
use go_amizone.Server.ToProto.Reading.{
  messages-read, attendance_record_of, semester_in, course_in, class_in, schedule_in, profile_in,
}
use go_amizone.Server.Service.{
  ServiceLib, Reply, message, Context, serve_attendance, serve_current_exam_result,
  serve_exam_result, serve_class_schedule, serve_exam_schedule, serve_semesters, serve_courses,
  serve_current_courses, serve_user_profile, serve_wifi_mac_info, serve_register_wifi_mac,
  serve_deregister_wifi_mac,
}
use go_amizone.Server.Service.Bounds.{Serves, service-Serves}
use go_amizone.Server.Service.Replies.Answers.{serve_courses-Listed}

-- A page is its own text, and every selection but the login form's has the one node `My Courses`.
abbrev course_pages : Html
course_pages = record {
  Node = Text;
  parse_document = λ body. some body;
  parse_error = λ body. [];
  find = λ sel name. if text_eq name (codes "#loginform") then [] else codes "My Courses" ∷ [];
  filter_by = λ sel name. sel;
  children = λ sel. [];
  parent = λ sel. [];
  node_attr = λ n name. none;
  node_text = λ n. n;
  node_name = λ n. [];
}

abbrev course_portal : Env
course_portal = record {
  html = course_pages;
  clock = λ n. n;
  transport = λ reqs. ok record { status_code = 200; path = codes "/"; body = some (codes "page") };
  cookies = λ reqs. none;
  composes = λ m u. true;
  solve_turnstile = λ reqs u key. fail [];
}

abbrev instants : ProtoLib
instants = record {
  Timestamp = ℕ;
  timestamp_new = λ t. t;
  year = λ t. pos 1;
  month = λ t. pos 1;
  day = λ t. pos 1;
  utc_date = λ y m d. 0;
}

abbrev course_lib : ServiceLib course_portal
course_lib = record {
  pages = record {
    markup = record { quote = λ t. t; unquote = λ t. ok t; unescape = λ t. t; sanitize = λ t. t };
    add_selection = λ a b. a;
    text_with_lines = λ sel. [];
    text_without = λ sel name. [];
    find_submatch = λ pattern s. [];
    atoi = λ t. pos 0;
    atoi_ok = λ t. false;
    Float = ℕ;
    float_zero = 0;
    parse_float = λ t. length t;
    parse_float_ok = λ t. true;
    time_parse = λ layout t. none;
    upper = λ t. t;
    title = λ t. t;
  };
  schedules = library;
  format_date = λ t. [];
  macs = record { mac_string = λ a. a; parse_mac = λ t. some t };
  proto = instants;
  query_of = λ t. none;
  endpoint_in = λ n. none;
}

abbrev answered : Context × Reply (List (V1Course ℕ))
answered = serve_courses course_portal course_lib (codes "3") (some returning)

abbrev shown : List (V1Course ℕ)
shown = elim answered.1 [ message v ↦ v | _ ↦ [] ]

abbrev left : State
left = elim answered.0 [ some s ↦ s | none ↦ returning ]

serve_courses-Listed_example :
    (cs : List (Course ℕ)) × (is_empty (codes "3") ≡ false)
    × (shown ≡ courses cs)
    × Listed course_portal course_lib.pages post courses_endpoint
        (semester_payload (codes "3"))
        left
        cs
unfolding serve_courses text_eq do_request_with_headers
serve_courses-Listed_example =
    serve_courses-Listed course_portal course_lib (codes "3") returning left shown refl

service-Serves_example :
    Serves 4 (serve_attendance course_portal course_lib)
    × Serves 4 (serve_current_exam_result course_portal course_lib)
    × Serves 4 (serve_exam_result course_portal course_lib (codes "3"))
    × Serves 4 (serve_class_schedule course_portal course_lib none)
    × Serves 4 (serve_exam_schedule course_portal course_lib)
    × Serves 4 (serve_semesters course_portal course_lib)
    × Serves 4 (serve_courses course_portal course_lib (codes "3"))
    × Serves 4 (serve_current_courses course_portal course_lib)
    × Serves 4 (serve_user_profile course_portal course_lib)
    × Serves 4 (serve_wifi_mac_info course_portal course_lib)
    × Serves 8 (serve_register_wifi_mac course_portal course_lib (codes "aa") true)
    × Serves 4 (serve_deregister_wifi_mac course_portal course_lib (codes "aa"))
service-Serves_example = service-Serves course_portal course_lib (codes "3") (codes "aa") none true

messages-read_example :
    ((a : List AttendanceRecord) → map attendance_record_of (attendance_records a) ≡ a)
    × ((a : List Semester) → map semester_in (semester_list a) ≡ a)
    × ((a : List (Course ℕ)) → map course_in (courses a) ≡ a)
    × ((a : List ScheduledClass)
        → map (class_in instants (λ t. t)) (scheduled_classes instants a) ≡ a)
    × ((a : ExaminationSchedule) → schedule_in instants (λ t. t) (exam_schedule instants a) ≡ a)
    × ((a : Profile) → profile_in instants (λ t. t) (profile instants a) ≡ a)
messages-read_example = messages-read instants (λ t. t) (λ t. refl)
