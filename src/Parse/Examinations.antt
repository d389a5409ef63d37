-- ===== src/Parse/Examinations.antt =====
-- amizone/internal/parse/examination_schedule.go and examination_result.go, with their models.
pub mod Dates
use go_amizone.Base.{
  ℕ, Bool, true, false, not, List, [], ◌∷◌, ◌++◌, none, some, Text, codes, Result, ok, fail, panic,
  is_empty, trim_space, length, map, ◌==◌, ◌>>=◌, ℤ, if◌then◌else◌,
}
use go_amizone.Base.Html.{Html, text_of, first}
use go_amizone.Parse.Attendance.{split}
use go_amizone.Parse.Clean.{clean_string}
use go_amizone.Parse.Courses.{Semester, cell_text, clean_cell, data_cell}
use go_amizone.Parse.Library.{PageLib}
use go_amizone.Parse.Schedule.{CourseRef}
use go_amizone.Parse.Session.{is_logged_in_dom}

pub record ScheduledExam : Type 0 where
  pub course : CourseRef
  pub time : ℕ
  pub mode : Text
  pub location : Text

pub record ExaminationSchedule : Type 0 where
  pub title : Text
  pub exams : List ScheduledExam

pub record Score : Type 0 where
  pub max : ℤ
  pub grade : Text
  pub grade_point : ℤ

pub record Credits : Type 0 where
  pub acquired : ℤ
  pub effective : ℤ
  pub points : ℤ

pub record CourseResult : Type 0 where
  pub score : Score
  pub credits : Credits
  pub publish_date : ℕ

pub record ExamResultRecord : Type 0 where
  pub course : CourseRef
  pub result : CourseResult

pub record OverallResult (F : Type 0) : Type 0 where
  pub semester : Semester
  pub semester_grade_point_average : F
  pub cumulative_grade_point_average : F

pub record ExamResultRecords (F : Type 0) : Type 0 where
  pub course_wise : List ExamResultRecord
  pub overall : List (OverallResult F)

module _ (h : Html) (lib : PageLib h) where
  open h use {Node, parse_document, parse_error, find, filter_by, children}
  open lib use {markup, text_with_lines, atoi, Float, float_zero, parse_float, time_parse, title}

  -- `time.Parse`, with the zero time on an error.
  abbrev pub time_or_zero : Text → Text → ℕ
  time_or_zero layout text = elim (time_parse layout text) [ none ↦ 0 | some t ↦ t ]

  exam_time : Node → ℕ
  exam_time row =
      time_or_zero (codes "02/01/2006 15:04") (
        cell_text h lib row (codes "Exam Date")
        ++ (codes " " ++ cell_text h lib row (codes "Time")))

  exam_mode : Node → Text
  unfolding split clean_string trim_space
  exam_mode row =
      let raw =
        text_of h (first h (find (find (row ∷ []) (data_cell (codes "Paper Type"))) (codes "b"))) in
      elim (split raw b':').1 [ [] ↦ trim_space raw | part ∷ parts ↦ clean_string markup part [] ]

  exam_location : Node → Text
  unfolding split clean_string
  exam_location row =
      let raw =
        clean_string markup
          (text_with_lines (
            find (find (row ∷ []) (data_cell (codes "Paper Type"))) (codes "b[style='color:red']")))
          [] in
      if is_empty raw then [] else elim (split raw b':').1 [
        | [] ↦ []
        | part ∷ parts ↦ clean_string markup (split part 10).0 (b'-' ∷ [])
      ]

  unfoldable pub exam_of : Node → ScheduledExam
  unfolding exam_time exam_mode exam_location clean_string
  exam_of row = record {
    course = record {
      code = clean_cell h lib row (codes "Course Code");
      name = clean_cell h lib row (codes "Course Title");
    };
    time = exam_time row;
    mode = exam_mode row;
    location = exam_location row;
  }

  exam_title : Node → Text
  unfolding trim_space
  exam_title dom =
      let raw = text_of h (find (dom ∷ []) (codes "div.page-header h1")) in
      if not (is_empty raw) then title (trim_space raw) else codes "Unknown Exam"

  abbrev pub schedule_breadcrumb : Node → List Node
  schedule_breadcrumb dom =
      filter_by (find (dom ∷ []) (codes "#breadcrumbs > ul.breadcrumb > li.active"))
        (codes ":contains('Examination Schedule')")

  unfoldable pub examination_schedule : Text → Result ExaminationSchedule
  unfolding is_logged_in_dom exam_of exam_title
  examination_schedule body = elim (parse_document body) [
    | none ↦ fail (codes "failed to parse DOM: " ++ parse_error body)
    | some dom ↦
        if not (is_logged_in_dom h dom)
        then fail (codes "failed to parse: not logged in")
        else (if length (schedule_breadcrumb dom) == 0
            then fail (codes "failed to parse")
            else (if length (find (dom ∷ []) (codes "table.table")) == 0
                then fail (codes "failed to parse")
                else ok record {
                  title = exam_title dom;
                  exams =
                      map exam_of
                        (find (find (dom ∷ []) (codes "table.table")) (codes "tbody > tr"));
                }))
  ]

  unfoldable pub parse_to_float : Text → Float
  parse_to_float raw = if is_empty raw then float_zero else parse_float raw

  unfoldable pub overall_of : Node → OverallResult Float
  unfolding clean_string parse_to_float
  overall_of row = record {
    semester = record {
      name = clean_cell h lib row (codes "Semester");
      ref = clean_cell h lib row (codes "Semester");
    };
    semester_grade_point_average = parse_to_float (clean_cell h lib row (codes "SGPA"));
    cumulative_grade_point_average = parse_to_float (clean_cell h lib row (codes "CGPA"));
  }

  -- Whether the date in a row of the course table parses.
  unfoldable pub has_date : Node → Bool
  has_date row =
      elim (time_parse (codes "02/01/2006") (cell_text h lib row (codes "PublishDate"))) [
        | none ↦ false
        | some t ↦ true
      ]

  -- The date is parsed into variables of which one is named `nil`; the test `err != nil` compares an
  -- older error, which is nil, with the new one, so a date that does not parse calls `Error` on nil.
  unfoldable pub publish_date : Node → Result ℕ
  publish_date row =
      elim (time_parse (codes "02/01/2006") (cell_text h lib row (codes "PublishDate"))) [
        | none ↦ panic
        | some t ↦ ok t
      ]

  unfoldable pub course_result : Node → ℕ → ExamResultRecord
  unfolding clean_string
  course_result row date = record {
    course = record {
      code = clean_cell h lib row (codes "Course Code");
      name = clean_cell h lib row (codes "Course Title");
    };
    result = record {
      score = record {
        max = atoi (cell_text h lib row (codes "Max Total"));
        grade = clean_cell h lib row (codes "Go");
        grade_point = atoi (cell_text h lib row (codes "GP"));
      };
      credits = record {
        acquired = atoi (cell_text h lib row (codes "ACU"));
        points = atoi (cell_text h lib row (codes "CP"));
        effective = atoi (cell_text h lib row (codes "ECU"));
      };
      publish_date = date;
    };
  }

  unfoldable pub result_of : Node → Result ExamResultRecord
  unfolding publish_date course_result
  result_of row = publish_date row >>= λ date. ok (course_result row date)

  -- The loop over the rows of the course table.
  unfoldable pub course_wise_of : List Node → Result (List ExamResultRecord)
  unfolding result_of
  course_wise_of [] = ok []
  course_wise_of (row ∷ rows) =
      result_of row >>= λ row_result. course_wise_of rows >>= λ records. ok (row_result ∷ records)

  abbrev pub course_rows : Node → List Node
  course_rows course_table = children (find (course_table ∷ []) (codes "tbody"))

  -- The two tables, the courses' and the overall one; any other number of tables is an error.
  unfoldable pub results_in : List Node → Result (ExamResultRecords Float)
  unfolding overall_of course_wise_of
  results_in (course_table ∷ overall_table ∷ []) =
      course_wise_of (course_rows course_table) >>= λ course_wise. ok record {
        course_wise = course_wise;
        overall = map overall_of (children (find (overall_table ∷ []) (codes "tbody")));
      }
  results_in _ = fail (codes "failed to parse")

  unfoldable pub examination_result : Text → Result (ExamResultRecords Float)
  unfolding is_logged_in_dom results_in
  examination_result body = elim (parse_document body) [
    | none ↦ fail (codes "failed to parse DOM: " ++ parse_error body)
    | some dom ↦
        if not (is_logged_in_dom h dom)
        then fail (codes "failed to parse: not logged in")
        else results_in (children (find (dom ∷ []) (codes "div#no-more-tables")))
  ]
