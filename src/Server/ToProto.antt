-- ===== src/Server/ToProto.antt =====
-- server/transformers: how the client's models become messages of the API, and the date that comes with
-- a request.
pub mod Reading
use go_amizone.Base.{ℕ, List, Option, none, some, Text, ℤ, pos, is_empty, map, if◌then◌else◌}
use go_amizone.Parse.Attendance.{AttendanceRecord, to_int32}
use go_amizone.Parse.Schedule.{
  CourseRef, ScheduledClass, AttendanceState, pending, present, absent, not_applicable, invalid,
}
use go_amizone.Parse.Courses.{Marks, Course, Semester}
use go_amizone.Parse.Examinations.{
  ScheduledExam, ExaminationSchedule, ExamResultRecord, OverallResult, ExamResultRecords,
}
use go_amizone.Parse.Profiles.{Profile}
use go_amizone.Server.Messages.{
  V1CourseRef, V1AttendanceRecord, V1AttendanceState, V1ScheduledClass, V1ScheduledExam,
  V1ExaminationSchedule, V1Semester, V1Marks, V1Course, V1Profile, V1WifiMacInfo, Date,
  V1ExamResultRecord, V1OverallResult, V1ExamResultRecords, v1_pending, v1_present, v1_absent,
  v1_na, v1_invalid,
}
use go_amizone.Parse.Wifi.{WifiMacInfo, MacLib}

-- `timestamppb.New`, and what the transformers use of Go's `time.Time`: the fields of its date, and
-- `time.Date` for a midnight in UTC.
pub record ProtoLib : Type 1 where
  pub Timestamp : Type 0
  pub timestamp_new : ℕ → Timestamp
  pub year : ℕ → ℤ
  pub month : ℕ → ℤ
  pub day : ℕ → ℤ
  pub utc_date : ℤ → ℤ → ℤ → ℕ

unfoldable pub course_ref : CourseRef → V1CourseRef
course_ref a = record { code = a.code; name = a.name }

unfoldable pub attendance_record : AttendanceRecord → V1AttendanceRecord
unfolding course_ref
attendance_record a = record {
  attendance = record { attended = a.classes_attended; held = a.classes_held };
  course = course_ref a.course;
}

unfoldable pub attendance_records : List AttendanceRecord → List V1AttendanceRecord
unfolding attendance_record
attendance_records a = map attendance_record a

abbrev pub attendance_state_of : AttendanceState → V1AttendanceState
attendance_state_of present = v1_present
attendance_state_of absent = v1_absent
attendance_state_of pending = v1_pending
attendance_state_of not_applicable = v1_na
attendance_state_of invalid = v1_invalid

unfoldable pub semester_of : Semester → V1Semester
semester_of c = record { name = c.name; ref = c.ref }

unfoldable pub semester_list : List Semester → List V1Semester
unfolding semester_of
semester_list a = map semester_of a

unfoldable pub marks : {F : Type 0} → Marks F → V1Marks F
marks m = record { have = m.have; max = m.max }

unfoldable pub course_to_proto : {F : Type 0} → Course F → V1Course F
unfolding course_ref marks
course_to_proto c = record {
  ref = course_ref c.ref;
  type = c.type;
  attendance = record {
    attended = c.attendance.classes_attended;
    held = c.attendance.classes_held;
  };
  internal_marks = marks c.internal_marks;
  syllabus_doc = c.syllabus_doc;
}

unfoldable pub courses : {F : Type 0} → List (Course F) → List (V1Course F)
unfolding course_to_proto
courses a = map course_to_proto a

unfoldable pub overall_result : {F : Type 0} → OverallResult F → V1OverallResult F
overall_result a = record {
  semester = a.semester.ref;
  semester_grade_point_average = a.semester_grade_point_average;
  cumulative_grade_point_average = a.cumulative_grade_point_average;
}

unfoldable pub wifi_info : MacLib → WifiMacInfo → V1WifiMacInfo
wifi_info macs i = record {
  addresses = map macs.mac_string i.registered_addresses;
  slots = to_int32 (pos i.slots);
  free_slots = to_int32 (pos i.free_slots);
}

module _ (lib : ProtoLib) where
  open lib use {Timestamp, timestamp_new, utc_date}

  abbrev pub time_to_proto_ts : ℕ → Timestamp
  time_to_proto_ts t = timestamp_new t

  unfoldable pub scheduled_class : ScheduledClass → V1ScheduledClass Timestamp
  unfolding course_ref
  scheduled_class c = record {
    course = course_ref c.course;
    start_time = time_to_proto_ts c.start_time;
    end_time = time_to_proto_ts c.end_time;
    faculty = c.faculty;
    room = c.room;
    attendance = attendance_state_of c.attended;
    cancelled = c.cancelled;
  }

  unfoldable pub scheduled_classes : List ScheduledClass → List (V1ScheduledClass Timestamp)
  unfolding scheduled_class
  scheduled_classes a = map scheduled_class a

  -- The pointer to the location, which is nil for an empty one.
  abbrev pub location_of : Text → Option Text
  location_of location = if is_empty location then none else some location

  unfoldable pub scheduled_exam : ScheduledExam → V1ScheduledExam Timestamp
  unfolding course_ref
  scheduled_exam c = record {
    course = course_ref c.course;
    time = time_to_proto_ts c.time;
    mode = c.mode;
    location = location_of c.location;
  }

  unfoldable pub exam_schedule : ExaminationSchedule → V1ExaminationSchedule Timestamp
  unfolding scheduled_exam
  exam_schedule a = record { title = a.title; exams = map scheduled_exam a.exams }

  unfoldable pub profile : Profile → V1Profile Timestamp
  profile a = record {
    name = a.name;
    enrollment_number = a.enrollment_number;
    enrollment_validity = time_to_proto_ts a.enrollment_validity;
    batch = a.batch;
    program = a.program;
    date_of_birth = time_to_proto_ts a.date_of_birth;
    blood_group = a.blood_group;
    id_card_number = a.id_card_number;
    uuid = a.uuid;
  }

  unfoldable pub exam_result_record : ExamResultRecord → V1ExamResultRecord
  exam_result_record a = record {
    course = record { code = a.course.code; name = a.course.name };
    score = record {
      max = to_int32 a.result.score.max;
      grade = a.result.score.grade;
      grade_point = to_int32 a.result.score.grade_point;
    };
    credits = record {
      acquired = to_int32 a.result.credits.acquired;
      points = to_int32 a.result.credits.points;
      effective = to_int32 a.result.credits.effective;
    };
    publish_date = record {
      year = to_int32 (lib.year a.result.publish_date);
      month = to_int32 (lib.month a.result.publish_date);
      day = to_int32 (lib.day a.result.publish_date);
    };
  }

  unfoldable pub examination_result_records :
      {F : Type 0} → ExamResultRecords F → V1ExamResultRecords F
  unfolding overall_result exam_result_record
  examination_result_records e = record {
    overall = map overall_result e.overall;
    course_wise = map exam_result_record e.course_wise;
  }

  -- `fromproto.Date`.
  unfoldable pub from_date : Date → ℕ
  from_date d = utc_date d.year d.month d.day
