-- ===== src/Server/Messages.antt =====
-- server/proto/v1/amizone.proto: the messages of the API, as the generated Go types have them. A type
-- has the name of the Go type after `V1`; a timestamp and a number with a fraction are parameters.
use go_amizone.Base.{Bool, List, Option, Text, ℤ}

pub record V1CourseRef : Type 0 where
  pub code : Text
  pub name : Text

pub record V1Attendance : Type 0 where
  pub attended : ℤ
  pub held : ℤ

pub record V1AttendanceRecord : Type 0 where
  pub attendance : V1Attendance
  pub course : V1CourseRef

pub data V1AttendanceState : Type 0 where
  v1_pending v1_present v1_absent v1_na v1_invalid : V1AttendanceState

pub record V1ScheduledClass (T : Type 0) : Type 0 where
  pub course : V1CourseRef
  pub start_time : T
  pub end_time : T
  pub faculty : Text
  pub room : Text
  pub attendance : V1AttendanceState
  pub cancelled : Bool

pub record V1ScheduledExam (T : Type 0) : Type 0 where
  pub course : V1CourseRef
  pub time : T
  pub mode : Text
  pub location : Option Text

pub record V1ExaminationSchedule (T : Type 0) : Type 0 where
  pub title : Text
  pub exams : List (V1ScheduledExam T)

pub record V1Semester : Type 0 where
  pub name : Text
  pub ref : Text

pub record V1Marks (F : Type 0) : Type 0 where
  pub have : F
  pub max : F

pub record V1Course (F : Type 0) : Type 0 where
  pub ref : V1CourseRef
  pub type : Text
  pub attendance : V1Attendance
  pub internal_marks : V1Marks F
  pub syllabus_doc : Text

pub record V1Profile (T : Type 0) : Type 0 where
  pub name : Text
  pub enrollment_number : Text
  pub enrollment_validity : T
  pub batch : Text
  pub program : Text
  pub date_of_birth : T
  pub blood_group : Text
  pub id_card_number : Text
  pub uuid : Text

pub record V1WifiMacInfo : Type 0 where
  pub addresses : List Text
  pub slots : ℤ
  pub free_slots : ℤ

pub record Date : Type 0 where
  pub year : ℤ
  pub month : ℤ
  pub day : ℤ

pub record V1Score : Type 0 where
  pub max : ℤ
  pub grade : Text
  pub grade_point : ℤ

pub record V1Credits : Type 0 where
  pub acquired : ℤ
  pub points : ℤ
  pub effective : ℤ

pub record V1ExamResultRecord : Type 0 where
  pub course : V1CourseRef
  pub score : V1Score
  pub credits : V1Credits
  pub publish_date : Date

pub record V1OverallResult (F : Type 0) : Type 0 where
  pub semester : Text
  pub semester_grade_point_average : F
  pub cumulative_grade_point_average : F

pub record V1ExamResultRecords (F : Type 0) : Type 0 where
  pub overall : List (V1OverallResult F)
  pub course_wise : List V1ExamResultRecord
