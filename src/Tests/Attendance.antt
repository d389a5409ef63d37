-- ===== src/Tests/Attendance.antt =====
-- A home page with one attendance record, whose count is the page's text.
use go_amizone.Base.{
  ◌≡◌, ◌↔◌, refl, true, [], ◌∷◌, some, none, Text, codes, text_eq, ok, panic, any, ℤ, pos, negsuc,
  if◌then◌else◌, trim, index_byte, trim_space,
}
use go_amizone.Base.Html.{Html}
use go_amizone.Parse.Session.{is_logged_in_dom}
use go_amizone.Parse.Attendance.{attendance, attendance_list, split}
use go_amizone.Parse.Attendance.Panics.{is_malformed, attendance-panic}

abbrev home : Html
home = record {
  Node = Text;
  parse_document = λ body. some body;
  parse_error = λ body. [];
  find = λ sel name.
      if text_eq name (codes "#loginform")
      then []
      else (if text_eq name (codes "span.lbl") then codes "CSE Compilers" ∷ [] else sel);
  filter_by = λ sel name. sel;
  children = λ sel. [];
  parent = λ sel. sel;
  node_attr = λ n name. none;
  node_text = λ n. n;
  node_name = λ n. [];
}

abbrev read_number : Text → ℤ
read_number t = if text_eq t (codes "3") then pos 3 else pos 4294967295

attendance_test :
    attendance home read_number (codes " \"3/4 ")
    ≡ ok (
        record {
          course = record { code = codes "\"3/4"; name = codes "Compilers" };
          classes_held = negsuc 0;
          classes_attended = pos 3;
        }
        ∷ [])
unfolding attendance text_eq trim index_byte trim_space split
attendance_test = refl

attendance-panic_example :
    (attendance home read_number (codes "none") ≡ panic)
    ↔ (any (is_malformed home read_number) (attendance_list home read_number (codes "none")) ≡ true)
unfolding text_eq is_logged_in_dom
attendance-panic_example =
    attendance-panic home read_number (codes "none") (codes "none") refl refl refl refl
