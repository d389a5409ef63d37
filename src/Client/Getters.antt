-- ===== src/Client/Getters.antt =====
-- amizone/amizone.go: the methods that fetch one page and parse it, `GetAttendance` to
-- `GetUserProfile`. `GetClassSchedule` is in Client.Schedule, `GetWiFiMacInformation` in Client.Wifi.
pub mod Outcome
use go_amizone.Base.{List, [], ◌∷◌, Option, Text, codes, none, some, true, Result, ℤ, encode}
use go_amizone.Parse.Library.{PageLib}
use go_amizone.Parse.Attendance.{AttendanceRecord, attendance}
use go_amizone.Parse.Courses.{Course, Semester, courses, semesters}
use go_amizone.Parse.Examinations.{
  ExaminationSchedule, ExamResultRecords, examination_schedule, examination_result,
}
use go_amizone.Parse.Profiles.{Profile, profile}
use go_amizone.Client.Types.{Env, Response, M, ◌>>=◌, wrap, lift}
use go_amizone.Client.Request.{unread, post, method_get, err_failed_to_visit_page}
use go_amizone.Client.Retry.{do_request}
use go_amizone.Client.Wifi.{as_fetch_failure, as_internal_failure}

abbrev pub current_courses_endpoint : Text
current_courses_endpoint = codes "/Academics/MyCourses"

abbrev pub courses_endpoint : Text
courses_endpoint = codes "/Academics/MyCourses/CourseListSemWise"

abbrev pub profile_endpoint : Text
profile_endpoint = codes "/IDCard"

abbrev pub exam_schedule_endpoint : Text
exam_schedule_endpoint = codes "/Examination/ExamSchedule"

abbrev pub current_examination_result_endpoint : Text
current_examination_result_endpoint = codes "/Examination/Examination"

abbrev pub examination_result_endpoint : Text
examination_result_endpoint = codes "/Examination/Examination/ExaminationListSemWise"

-- The payload of the methods that take the reference of a semester.
abbrev pub semester_payload : Text → Option Text
semester_payload semester_ref = some (encode ((codes "sem", semester_ref) ∷ []))

-- `GetExamSchedule` and `GetSemesters` drop the error of the request.
abbrev pub as_visit_failure : Text → Text
as_visit_failure e = err_failed_to_visit_page

module _ (env : Env) where
  -- The parsing at the end of each method.
  unfoldable pub parse_page : {A : Type 0} → (Text → Result A) → Response → M A
  parse_page parse response = wrap as_internal_failure (lift (parse (unread response.body)))

  unfoldable pub page_request : Text → Text → Option Text → (Text → Text) → M Response
  page_request method endpoint body on_failure =
      wrap on_failure (do_request env true method endpoint body)

  unfoldable pub get_attendance : (Text → ℤ) → M (List AttendanceRecord)
  unfolding page_request parse_page attendance
  get_attendance atoi =
      page_request method_get (codes "/Home") none as_fetch_failure
      >>= parse_page (attendance env.html atoi)

module _ (env : Env) (lib : PageLib env.html) where
  open lib use {Float}

  unfoldable pub get_current_examination_result : M (ExamResultRecords Float)
  unfolding page_request parse_page examination_result
  get_current_examination_result =
      page_request env method_get current_examination_result_endpoint none as_fetch_failure
      >>= parse_page env (examination_result env.html lib)

  unfoldable pub get_examination_result : Text → M (ExamResultRecords Float)
  unfolding page_request parse_page examination_result
  get_examination_result semester_ref =
      page_request env post examination_result_endpoint (semester_payload semester_ref)
        as_fetch_failure
      >>= parse_page env (examination_result env.html lib)

  unfoldable pub get_exam_schedule : M ExaminationSchedule
  unfolding page_request parse_page examination_schedule
  get_exam_schedule =
      page_request env method_get exam_schedule_endpoint none as_visit_failure
      >>= parse_page env (examination_schedule env.html lib)

  unfoldable pub get_semesters : M (List Semester)
  unfolding page_request parse_page semesters
  get_semesters =
      page_request env method_get current_courses_endpoint none as_visit_failure
      >>= parse_page env (semesters env.html lib)

  unfoldable pub get_courses : Text → M (List (Course Float))
  unfolding page_request parse_page courses
  get_courses semester_ref =
      page_request env post courses_endpoint (semester_payload semester_ref) as_fetch_failure
      >>= parse_page env (courses env.html lib)

  unfoldable pub get_current_courses : M (List (Course Float))
  unfolding page_request parse_page courses
  get_current_courses =
      page_request env method_get current_courses_endpoint none as_fetch_failure
      >>= parse_page env (courses env.html lib)

  unfoldable pub get_user_profile : M Profile
  unfolding page_request parse_page profile
  get_user_profile =
      page_request env method_get profile_endpoint none as_fetch_failure
      >>= parse_page env (profile env.html lib)
