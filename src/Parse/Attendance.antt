-- ===== src/Parse/Attendance.antt =====
-- amizone/internal/parse/attendance.go: the attendance records on the home page.
pub mod Panics
use go_amizone.Base.{
  ℕ, ◌-◌, ◌^◌, ◌%◌, not, ◌||◌, List, [], ◌∷◌, ◌++◌, none, some, Text, codes, Result, ok, fail,
  panic, trim, trim_space, in_set, index_byte, drop, length, ltb, ◌==◌, ℤ, pos, negsuc,
  if◌then◌else◌,
}
use go_amizone.Base.Html.{Html, text_of}
use go_amizone.Parse.Schedule.{CourseRef}
use go_amizone.Parse.Session.{is_logged_in_dom}

pub record AttendanceRecord : Type 0 where
  pub course : CourseRef
  pub classes_held : ℤ
  pub classes_attended : ℤ

-- The number of 32 bits with a remainder below 2 ^ 32.
abbrev signed32 : ℕ → ℤ
signed32 m = if ltb m (2 ^ 31) then pos m else negsuc (2 ^ 32 - 1 - m)

-- `int32(i)`, which keeps the low 32 bits.
abbrev pub to_int32 : ℤ → ℤ
to_int32 (pos n) = signed32 (n % 2 ^ 32)
to_int32 (negsuc n) = signed32 (2 ^ 32 - 1 - n % 2 ^ 32)

-- `strings.Split` by one character: the first part, and the others.
unfoldable pub split : Text → ℕ → Text × List Text
split [] sep = ([], [])
split (c ∷ s) sep = let (w, ws) = split s sep in if c == sep then ([], w ∷ ws) else (c ∷ w, ws)

-- `atoi` is `strconv.Atoi`, whose value `parseToInt` returns also on an error.
module _ (h : Html) (atoi : Text → ℤ) where
  open h use {Node, parse_document, parse_error, find, filter_by, parent}

  -- The text of the class count, without spaces and quotation marks around it.
  abbrev pub count_text : Node → Text
  count_text record_node =
      trim (in_set (b' ' ∷ b'"' ∷ []))
        (text_of h (find (record_node ∷ []) (codes "div.class-count span")))

  abbrev pub name_text : Node → Text
  name_text record_node = text_of h (find (record_node ∷ []) (codes "span.lbl"))

  -- Both numbers; an index out of range panics where no slash divides the text.
  counts_of : Node → Result (ℤ × ℤ)
  unfolding split trim
  counts_of record_node =
      let (attended, others) = split (count_text record_node) b'/' in
      elim others [ [] ↦ panic | held ∷ more ↦ ok (atoi attended, atoi held) ]

  -- The name after the first space; slicing from -1 panics.
  name_of : Node → Result Text
  unfolding index_byte trim_space
  name_of record_node = elim (index_byte (name_text record_node) b' ') [
    | none ↦ panic
    | some i ↦ ok (trim_space (drop i (name_text record_node)))
  ]

  record_of : Node → Result AttendanceRecord
  unfolding counts_of name_of trim_space
  record_of record_node = elim (counts_of record_node) [
    | fail e ↦ fail e
    | panic ↦ panic
    | ok (attended, held) ↦ elim (name_of record_node) [
      | fail e ↦ fail e
      | panic ↦ panic
      | ok name ↦ ok record {
        course = record {
          code = trim_space (text_of h (find (record_node ∷ []) (codes "span.sub-code")));
          name = name;
        };
        classes_held = to_int32 held;
        classes_attended = to_int32 attended;
      }
    ]
  ]

  records_of : List Node → Result (List AttendanceRecord)
  unfolding record_of
  records_of [] = ok []
  records_of (n ∷ ns) = elim (record_of n) [
    | fail e ↦ fail e
    | panic ↦ panic
    | ok r ↦ elim (records_of ns) [ fail e ↦ fail e | panic ↦ panic | ok rs ↦ ok (r ∷ rs) ]
  ]

  abbrev pub widget_header : Node → List Node
  widget_header dom =
      filter_by (find (dom ∷ []) (codes ".widget-header")) (codes ":containsOwn('My Attendance')")

  abbrev pub attendance_list : Node → List Node
  attendance_list dom = find (parent (widget_header dom)) (codes "ul#tasks li")

  unfoldable pub attendance : Text → Result (List AttendanceRecord)
  unfolding records_of is_logged_in_dom
  attendance body = elim (parse_document body) [
    | none ↦ fail (codes "failed to parse DOM: " ++ parse_error body)
    | some dom ↦
        if not (is_logged_in_dom h dom)
        then fail (codes "failed to parse: not logged in")
        else (if (length (widget_header dom) == 0) || (length (attendance_list dom) == 0)
            then fail (codes "failed to parse")
            else records_of (attendance_list dom))
  ]
