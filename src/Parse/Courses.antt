-- ===== src/Parse/Courses.antt =====
-- amizone/internal/parse/courses.go and sem_count.go: the courses of a semester, and the semesters
-- that the courses page offers.
pub mod Rows
use go_amizone.Base.{
  Bool, not, ◌&&◌, ◌||◌, List, [], ◌∷◌, ◌++◌, none, some, Text, codes, Result, ok, fail, is_empty,
  text_eq, trim_space, replace_all, contains, length, map, ◌==◌, ℤ, pos, if◌then◌else◌,
}
use go_amizone.Base.Html.{Html, text_of, attr_or}
use go_amizone.Parse.Attendance.{to_int32}
use go_amizone.Parse.Clean.{clean_string}
use go_amizone.Parse.Library.{PageLib, find_string}
use go_amizone.Parse.Schedule.{CourseRef}
use go_amizone.Parse.Session.{is_logged_in_dom}

pub record Attendance : Type 0 where
  pub classes_held : ℤ
  pub classes_attended : ℤ

pub record Marks (F : Type 0) : Type 0 where
  pub have : F
  pub max : F

pub record Course (F : Type 0) : Type 0 where
  pub ref : CourseRef
  pub type : Text
  pub attendance : Attendance
  pub internal_marks : Marks F
  pub syllabus_doc : Text

pub record Semester : Type 0 where
  pub name : Text
  pub ref : Text

-- The zero value of `Attendance`.
abbrev pub no_attendance : Attendance
no_attendance = record { classes_held = pos 0; classes_attended = pos 0 }

-- `td[data-title='…']`
abbrev pub data_cell : Text → Text
data_cell data_title = codes "td[data-title='" ++ (data_title ++ codes "']")

module _ (h : Html) (lib : PageLib h) where
  open h use {Node, parse_document, parse_error, find, children}
  open lib use {
    markup, add_selection, find_submatch, atoi, atoi_ok, Float, float_zero, parse_float,
    parse_float_ok, upper,
  }

  -- The text of a row's cell.
  abbrev pub cell_text : Node → Text → Text
  cell_text row data_title = text_of h (find (row ∷ []) (data_cell data_title))

  abbrev pub clean_cell : Node → Text → Text
  clean_cell row data_title = clean_string markup (cell_text row data_title) []

  unfoldable pub is_na_value : Text → Bool
  unfolding trim_space replace_all text_eq
  is_na_value s =
      let normal = replace_all (replace_all (upper (trim_space s)) (codes ".") []) (codes " ") [] in
      is_empty s
      || (text_eq normal (codes "NA")
          || (text_eq normal (codes "N/A")
              || (text_eq normal (codes "-") || text_eq normal (codes "--"))))

  unfoldable pub is_non_numeric_value : Text → Bool
  unfolding contains
  is_non_numeric_value s =
      contains (upper s) (codes "NOT PUBLISHED")
      || (contains (upper s) (codes "NOT AVAILABLE")
          || (contains (upper s) (codes "NOT APPLICABLE") || contains (upper s) (codes "VIEW")))

  -- The numbers of a match with at least two groups.
  attendance_match : List Text → Attendance
  attendance_match (m ∷ a ∷ t ∷ groups) =
      if not (atoi_ok a) || not (atoi_ok t)
      then no_attendance
      else record { classes_held = to_int32 (atoi t); classes_attended = to_int32 (atoi a) }
  attendance_match _ = no_attendance

  unfoldable pub attendance_of : Text → Attendance
  unfolding is_na_value attendance_match
  attendance_of clean_raw =
      if is_na_value clean_raw
      then no_attendance
      else attendance_match (find_submatch (codes "(\\d+)\\s*/\\s*(\\d+)") clean_raw)

  abbrev pub no_marks : Marks Float
  no_marks = record { have = float_zero; max = float_zero }

  -- Have and max of a match.
  pair_marks : Text → Text → Marks Float
  pair_marks have max =
      if not (parse_float_ok have) || not (parse_float_ok max)
      then no_marks
      else record { have = parse_float have; max = parse_float max }

  -- The fallback: a single number.
  single_marks : Text → Marks Float
  single_marks got =
      if is_empty got || not (parse_float_ok got)
      then no_marks
      else record { have = parse_float got; max = float_zero }

  legacy_marks : Text → List Text → Marks Float
  unfolding pair_marks single_marks
  legacy_marks clean_raw (m ∷ have ∷ max ∷ groups) = pair_marks have max
  legacy_marks clean_raw _ = single_marks (find_string lib (codes "\\d+(?:\\.\\d+)?") clean_raw)

  new_marks : Text → List Text → Marks Float
  unfolding pair_marks legacy_marks
  new_marks clean_raw (m ∷ have ∷ max ∷ groups) = pair_marks have max
  new_marks clean_raw _ =
      legacy_marks clean_raw
        (find_submatch (codes "(\\d+(?:\\.\\d+)?)\\s*(?:/|\\[)\\s*(\\d+(?:\\.\\d+)?)") clean_raw)

  unfoldable pub marks_of : Text → Marks Float
  unfolding is_na_value is_non_numeric_value new_marks
  marks_of clean_raw =
      if is_na_value clean_raw || is_non_numeric_value clean_raw
      then no_marks
      else new_marks clean_raw (
          find_submatch (codes "(\\d+(?:\\.\\d+)?)\\[[\\d\\.\\+]+\\]/(\\d+(?:\\.\\d+)?)") clean_raw)

  unfoldable pub course_of : Node → Course Float
  unfolding clean_string attendance_of marks_of
  course_of row = record {
    ref = record {
      code = clean_cell row (codes "Course Code");
      name = clean_cell row (codes "Course Name");
    };
    type = clean_cell row (codes "Type");
    attendance = attendance_of (clean_cell row (codes "Attendance"));
    internal_marks = marks_of (clean_cell row (codes "Internal Asses."));
    syllabus_doc =
        attr_or h (find (find (row ∷ []) (data_cell (codes "Course Syllabus"))) (codes "a"))
          (codes "href") [];
  }

  unfoldable pub is_courses_page : Node → Bool
  unfolding text_eq
  is_courses_page dom =
      text_eq (text_of h (find (dom ∷ []) (codes "ul.breadcrumb li.active"))) (codes "My Courses")
      || (not (length (find (dom ∷ []) (data_cell (codes "Course Code"))) == 0)
          && not (length (find (dom ∷ []) (data_cell (codes "Attendance"))) == 0))

  normalise_page : Node → List Node
  normalise_page dom = elim (children (find (dom ∷ []) (codes "#CourseListSemWise"))) [
    | [] ↦ dom ∷ []
    | n ∷ ns ↦ n ∷ ns
  ]

  abbrev pub primary_table : Node → List Node
  unfolding normalise_page
  primary_table dom = find (normalise_page dom) (codes "div:nth-child(1) > table:nth-child(1)")

  abbrev pub primary_entries : Node → List Node
  primary_entries dom = find (primary_table dom) (codes "tbody > tr")

  abbrev pub course_entries : Node → List Node
  unfolding normalise_page
  course_entries dom = add_selection (primary_entries dom) (
      find (find (normalise_page dom) (codes "div:nth-child(2) > table:nth-child(1)"))
        (codes "tbody > tr"))

  unfoldable pub courses : Text → Result (List (Course Float))
  unfolding is_logged_in_dom is_courses_page course_of normalise_page
  courses body = elim (parse_document body) [
    | none ↦ fail (codes "failed to parse DOM: " ++ parse_error body)
    | some dom ↦
        if not (is_logged_in_dom h dom)
        then fail (codes "failed to parse: not logged in")
        else (if not (is_courses_page dom)
            then fail (codes "failed to parse")
            else (if not (length (primary_table dom) == 1)
                then fail (codes "failed to parse")
                else (if length (primary_entries dom) == 0
                    then fail (codes "failed to parse")
                    else ok (map course_of (course_entries dom)))))
  ]

  -- The loop over the options of the page's selector.
  semesters_of : List Node → List Semester
  unfolding clean_string
  semesters_of [] = []
  semesters_of (opt ∷ opts) =
      let value = attr_or h (opt ∷ []) (codes "value") [] in
      if not (is_empty value)
      then record { name = clean_string markup (text_of h (opt ∷ [])) []; ref = value }
        ∷ semesters_of opts
      else semesters_of opts

  unfoldable pub semesters : Text → Result (List Semester)
  unfolding is_logged_in_dom is_courses_page semesters_of
  semesters body = elim (parse_document body) [
    | none ↦ fail (codes "failed to parse DOM")
    | some dom ↦
        if not (is_logged_in_dom h dom)
        then fail (codes "failed to parse: not logged in")
        else (if not (is_courses_page dom)
            then fail (codes "failed to parse")
            else ok (semesters_of (find (dom ∷ []) (codes "#CurrentSemesterInfo option"))))
  ]
