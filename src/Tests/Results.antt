-- ===== src/Tests/Results.antt =====
-- A result page whose publish dates do not parse.
use go_amizone.Base.{
  ◌≡◌, refl, true, false, [], ◌∷◌, none, some, Text, codes, text_eq, ok, panic, pos, ◌↔◌,
  if◌then◌else◌,
}
use go_amizone.Base.Html.{Html}
use go_amizone.Parse.Library.{PageLib}
use go_amizone.Parse.Session.{is_logged_in_dom}
use go_amizone.Parse.Examinations.{course_rows, examination_result}
use go_amizone.Parse.Examinations.Dates.{lacks_date, examination_result-panic}

-- Every selection has two nodes, but there is no login form.
abbrev result_pages : Html
result_pages = record {
  Node = Text;
  parse_document = λ body. some body;
  parse_error = λ body. [];
  find = λ sel name. if text_eq name (codes "#loginform") then [] else codes "div" ∷ [];
  filter_by = λ sel name. sel;
  children = λ sel. codes "first" ∷ codes "second" ∷ [];
  parent = λ sel. [];
  node_attr = λ n name. none;
  node_text = λ n. n;
  node_name = λ n. [];
}

abbrev result_lib : PageLib result_pages
result_lib = record {
  markup = record { quote = λ t. t; unquote = λ t. ok t; unescape = λ t. t; sanitize = λ t. t };
  add_selection = λ a b. a;
  text_with_lines = λ sel. [];
  text_without = λ sel name. [];
  find_submatch = λ pattern s. [];
  atoi = λ t. pos 0;
  atoi_ok = λ t. false;
  Float = Text;
  float_zero = [];
  parse_float = λ t. t;
  parse_float_ok = λ t. true;
  time_parse = λ layout t. none;
  upper = λ t. t;
  title = λ t. t;
}

examination_result-panic_example :
    (examination_result result_pages result_lib (codes "page") ≡ panic) ↔ (
      lacks_date result_pages result_lib (course_rows result_pages result_lib (codes "first"))
      ≡ true)
unfolding is_logged_in_dom text_eq
examination_result-panic_example =
    examination_result-panic result_pages result_lib (codes "page") (codes "page") (codes "first")
      (codes "second") refl refl refl
