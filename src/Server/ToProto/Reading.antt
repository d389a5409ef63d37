-- ===== src/Server/ToProto/Reading.antt =====
-- What the messages say of the client's answers.
use go_amizone.Base.{ℕ, ◌≡◌, refl, List, [], ◌∷◌, Option, none, some, Text, map}
use go_amizone.Parse.Attendance.{AttendanceRecord}
use go_amizone.Parse.Schedule.{
  CourseRef, ScheduledClass, AttendanceState, present, absent, pending, not_applicable, invalid,
}
use go_amizone.Parse.Courses.{Course, Semester}
use go_amizone.Parse.Examinations.{ScheduledExam, ExaminationSchedule}
use go_amizone.Parse.Profiles.{Profile}
use go_amizone.Server.ToProto.{
  ProtoLib, attendance_record, attendance_records, attendance_state_of, course_ref, course_to_proto,
  courses, marks, exam_schedule, scheduled_exam, location_of, scheduled_class, scheduled_classes,
  profile, semester_of, semester_list,
}
use go_amizone.Server.Messages.{
  V1CourseRef, V1AttendanceRecord, V1Course, V1Semester, V1ScheduledClass, V1ScheduledExam,
  V1ExaminationSchedule, V1Profile, V1AttendanceState, v1_pending, v1_present, v1_absent, v1_na,
  v1_invalid,
}

-- A left inverse of a function is one on lists.
map_inverse :
    {A B : Type 0} (f : A → B) (g : B → A)
    → ((x : A) → g (f x) ≡ x)
    → (xs : List A) → map g (map f xs) ≡ xs
map_inverse f g inv [] = refl
map_inverse f g inv (x ∷ xs) = rw (inv x, map_inverse f g inv xs)

-- What a message says of the model.
pub course_ref_of : V1CourseRef → CourseRef
course_ref_of c = record { code = c.code; name = c.name }

pub attendance_record_of : V1AttendanceRecord → AttendanceRecord
unfolding course_ref_of
attendance_record_of r = record {
  course = course_ref_of r.course;
  classes_held = r.attendance.held;
  classes_attended = r.attendance.attended;
}

pub semester_in : V1Semester → Semester
semester_in s = record { name = s.name; ref = s.ref }

pub course_in : {F : Type 0} → V1Course F → Course F
unfolding course_ref_of
course_in c = record {
  ref = course_ref_of c.ref;
  type = c.type;
  attendance = record {
    classes_held = c.attendance.held;
    classes_attended = c.attendance.attended;
  };
  internal_marks = record { have = c.internal_marks.have; max = c.internal_marks.max };
  syllabus_doc = c.syllabus_doc;
}

abbrev pub state_of : V1AttendanceState → AttendanceState
state_of v1_pending = pending
state_of v1_present = present
state_of v1_absent = absent
state_of v1_na = not_applicable
state_of v1_invalid = invalid

state_of_lem : (a : AttendanceState) → state_of (attendance_state_of a) ≡ a
state_of_lem pending = refl
state_of_lem present = refl
state_of_lem absent = refl
state_of_lem not_applicable = refl
state_of_lem invalid = refl

abbrev pub location_in : Option Text → Text
location_in none = []
location_in (some location) = location

location_in_lem : (lib : ProtoLib) (t : Text) → location_in (location_of lib t) ≡ t
location_in_lem lib [] = refl
location_in_lem lib (c ∷ t) = refl

module _ (lib : ProtoLib) (as_time : lib.Timestamp → ℕ) where
  open lib use {Timestamp, timestamp_new}

  pub class_in : V1ScheduledClass Timestamp → ScheduledClass
  unfolding course_ref_of
  class_in c = record {
    course = course_ref_of c.course;
    start_time = as_time c.start_time;
    end_time = as_time c.end_time;
    faculty = c.faculty;
    room = c.room;
    attended = state_of c.attendance;
    cancelled = c.cancelled;
  }

  pub exam_in : V1ScheduledExam Timestamp → ScheduledExam
  unfolding course_ref_of
  exam_in c = record {
    course = course_ref_of c.course;
    time = as_time c.time;
    mode = c.mode;
    location = location_in c.location;
  }

  pub schedule_in : V1ExaminationSchedule Timestamp → ExaminationSchedule
  unfolding exam_in
  schedule_in s = record { title = s.title; exams = map exam_in s.exams }

  pub profile_in : V1Profile Timestamp → Profile
  profile_in p = record {
    name = p.name;
    enrollment_number = p.enrollment_number;
    enrollment_validity = as_time p.enrollment_validity;
    batch = p.batch;
    program = p.program;
    date_of_birth = as_time p.date_of_birth;
    blood_group = p.blood_group;
    id_card_number = p.id_card_number;
    uuid = p.uuid;
  }

  module _ (reads_back : (t : ℕ) → as_time (timestamp_new t) ≡ t) where
    class_in_lem : (c : ScheduledClass) → class_in (scheduled_class lib c) ≡ c
    unfolding class_in scheduled_class course_ref_of course_ref
    class_in_lem c = rw (reads_back c.start_time, reads_back c.end_time, state_of_lem c.attended)

    exam_in_lem : (c : ScheduledExam) → exam_in (scheduled_exam lib c) ≡ c
    unfolding exam_in scheduled_exam course_ref_of course_ref
    exam_in_lem c = rw (reads_back c.time, location_in_lem lib c.location)

    schedule_in_lem : (a : ExaminationSchedule) → schedule_in (exam_schedule lib a) ≡ a
    unfolding schedule_in exam_schedule
    schedule_in_lem a = rw (map_inverse (scheduled_exam lib) exam_in exam_in_lem a.exams)

    profile_in_lem : (p : Profile) → profile_in (profile lib p) ≡ p
    unfolding profile_in profile
    profile_in_lem p = rw (reads_back p.enrollment_validity, reads_back p.date_of_birth)

    -- The messages of attendance, semesters, courses, classes, the exam schedule and the profile give
    -- back the client's answers, each field under its own name, and an exam without a location stays
    -- apart from one that has a location; a timestamp can be read back.
    pub messages-read :
        {F : Type 0}
        → ((a : List AttendanceRecord) → map attendance_record_of (attendance_records a) ≡ a)
          × ((a : List Semester) → map semester_in (semester_list a) ≡ a)
          × ((a : List (Course F)) → map course_in (courses a) ≡ a)
          × ((a : List ScheduledClass) → map class_in (scheduled_classes lib a) ≡ a)
          × ((a : ExaminationSchedule) → schedule_in (exam_schedule lib a) ≡ a)
          × ((a : Profile) → profile_in (profile lib a) ≡ a)
    unfolding attendance_records attendance_record attendance_record_of semester_list semester_of
        semester_in courses course_to_proto course_in marks course_ref_of course_ref
        scheduled_classes
    messages-read = (
      map_inverse attendance_record attendance_record_of (λ r. refl),
      map_inverse semester_of semester_in (λ s. refl),
      map_inverse course_to_proto course_in (λ c. refl),
      map_inverse (scheduled_class lib) class_in class_in_lem,
      schedule_in_lem,
      profile_in_lem,
    )
