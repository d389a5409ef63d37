-- ===== src/Parse/Schedule.antt =====
-- The class schedule: amizone/models/class_schedule.go and diary_entry.go, and the parser of the diary
-- events in amizone/internal/parse/class_schedule.go.
pub mod Day
use go_amizone.Base.{
  ℕ, ◌-◌, ◌%◌, Bool, ◌&&◌, not, Option, none, some, List, [], ◌∷◌, Text, codes, Result, ok, fail,
  panic, if◌then◌else◌, text_eq, to_upper, to_lower, contains, ltb, hours, select, seconds, ◌++◌,
}
use go_amizone.Base.Sort.{SortSlice}
use go_amizone.Parse.Clean.{Markup, clean_string}

pub data AttendanceState : Type 0 where
  pending present absent not_applicable invalid : AttendanceState

pub record CourseRef : Type 0 where
  pub code : Text
  pub name : Text

pub record ScheduledClass : Type 0 where
  pub course : CourseRef
  pub start_time : ℕ
  pub end_time : ℕ
  pub faculty : Text
  pub room : Text
  pub attended : AttendanceState
  pub cancelled : Bool

-- The test of `Sort`: `Before`.
abbrev pub starts_before : ScheduledClass → ScheduledClass → Bool
starts_before a b = ltb a.start_time b.start_time

unfoldable pub sort : SortSlice → List ScheduledClass → List ScheduledClass
sort lib s = lib.sort_slice starts_before s

-- `Truncate` to a whole number of days since the zero time.
abbrev pub truncate_day : ℕ → ℕ
truncate_day t = t - t % hours 24

-- The difference from the day's start in hours is above 0 and below 24.
abbrev pub is_within : ℕ → ScheduledClass → Bool
is_within target class = ltb target class.start_time && ltb (class.start_time - target) (hours 24)

unfoldable pub filter_by_date : List ScheduledClass → ℕ → List ScheduledClass
filter_by_date s t = let target_date = truncate_day t in select (is_within target_date) s

pub record AmizoneDiaryEvent : Type 0 where
  pub type : Text
  pub course_name : Text
  pub course_code : Text
  pub class_name : Text
  pub faculty : Text
  pub room : Text
  pub start : Text
  pub end : Text
  pub attendance_color : Text

unfoldable pub attendance_state : AmizoneDiaryEvent → AttendanceState
unfolding to_upper text_eq
attendance_state e =
    let color = to_upper e.attendance_color in
    if text_eq color (codes "#F00")
    then absent
    else (if text_eq color (codes "#3A87AD")
        then pending
        else (if text_eq color (codes "#4FCC4F")
            then present
            else if text_eq color []
            then not_applicable
            else invalid))

unfoldable pub is_cancelled : AmizoneDiaryEvent → Bool
unfolding to_lower contains
is_cancelled e = contains (to_lower e.class_name) (codes "strikeoutclass")

-- What the parser uses of the libraries: the JSON decoder on the body, `time.Parse` with the format
-- `2006/01/02 03:04:05 PM`, and the functions of CleanString and Sort.
pub record ScheduleLib : Type 1 where
  pub decode_events : Text → Result (List AmizoneDiaryEvent)
  pub time_parse : Text → Option ℕ
  pub markup : Markup
  pub sort_lib : SortSlice

module _ (lib : ScheduleLib) where
  -- `time.Unix(0, 0)` where the text is no time.
  parse_time : Text → ℕ
  parse_time text = elim (lib.time_parse text) [ none ↦ seconds 62135596800 | some t ↦ t ]

  unfoldable pub class_of : AmizoneDiaryEvent → ScheduledClass
  unfolding parse_time clean_string attendance_state is_cancelled
  class_of entry = record {
    course = record {
      code = clean_string lib.markup entry.course_code [];
      name = clean_string lib.markup entry.course_name [];
    };
    start_time = parse_time entry.start;
    end_time = parse_time entry.end;
    faculty = clean_string lib.markup entry.faculty [];
    room = clean_string lib.markup entry.room [];
    attended = attendance_state entry;
    cancelled = is_cancelled entry;
  }

  -- The loop, with the classes in the order that it appends them.
  unfoldable pub classes_of : List AmizoneDiaryEvent → List ScheduledClass
  unfolding class_of text_eq
  classes_of [] = []
  classes_of (entry ∷ events) =
      if not (text_eq entry.type (codes "C"))
      then classes_of events
      else class_of entry ∷ classes_of events

  unfoldable pub class_schedule : Text → Result (List ScheduledClass)
  unfolding classes_of sort
  class_schedule body = elim (lib.decode_events body) [
    | ok events ↦ ok (sort lib.sort_lib (classes_of events))
    | fail e ↦ fail (codes "JSON decode: " ++ e)
    | panic ↦ panic
  ]
