-- ===== src/Tests/Forms.antt =====
-- A feedback form with one rating, and the lines of an ID card.
use go_amizone.Base.{
  HasUniqueKeys, ◌≡◌, refl, true, false, [], ◌∷◌, none, some, Text, codes, text_eq, Result, ok,
  Values, pos, encode_values, lookup, if◌then◌else◌,
}
use go_amizone.Base.Html.{Html}
use go_amizone.Parse.Library.{PageLib}
use go_amizone.Parse.FeedbackForm.{
  FacultyFeedbackSubmission, faculty_feedback_submission, sprint, rating_pattern,
}
use go_amizone.Parse.FeedbackForm.Ratings.{submission_rating}

abbrev rating_name : Text
rating_name = codes "Feedback"

-- Every element is its own text; a form has the one field `rating_name`.
abbrev form_pages : Html
form_pages = record {
  Node = Text;
  parse_document = λ body. some body;
  parse_error = λ body. [];
  find = λ sel name.
      if text_eq name (codes "input[name], textarea[name], select[name]")
      then rating_name ∷ []
      else [];
  filter_by = λ sel name. sel;
  children = λ sel. [];
  parent = λ sel. [];
  node_attr = λ n name. some n;
  node_text = λ n. n;
  node_name = λ n. codes "input";
}

-- The pattern of a rating matches `rating_name`; of a line `label: value`, the pattern of labels gives
-- the label and the one of values gives `O+`.
abbrev form_lib : PageLib form_pages
form_lib = record {
  markup = record { quote = λ t. t; unquote = λ t. ok t; unescape = λ t. t; sanitize = λ t. t };
  add_selection = λ a b. a;
  text_with_lines = λ sel. [];
  text_without = λ sel name. [];
  find_submatch = λ pattern s.
      if text_eq pattern rating_pattern
      then (if text_eq s rating_name then s ∷ [] else [])
      else (if text_eq pattern (codes ":( )?.*$")
          then codes "O+" ∷ []
          else codes "Blood Group" ∷ []);
  atoi = λ t. pos 0;
  atoi_ok = λ t. false;
  Float = Text;
  float_zero = [];
  parse_float = λ t. t;
  parse_float_ok = λ t. true;
  time_parse = λ layout t. none;
  upper = λ t. t;
  title = λ t. t;
}

abbrev form_body : Text
form_body = codes "form"

abbrev submitted : Result FacultyFeedbackSubmission
submitted =
    faculty_feedback_submission form_pages form_lib (pos 4) (pos 1) (codes "fine") form_body
      (codes "/save")

abbrev submission : FacultyFeedbackSubmission
submission = elim submitted [ ok s ↦ s | _ ↦ record { submit_endpoint = []; payload = [] } ]

submission_rating_example :
    (values : Values) × HasUniqueKeys values
    × (submission.payload ≡ encode_values values)
    × (lookup rating_name values ≡ some (sprint (pos 4) ∷ []))
unfolding faculty_feedback_submission
submission_rating_example =
    submission_rating form_pages form_lib (pos 4) (pos 1) (codes "fine") form_body (codes "/save")
      form_body submission rating_name refl refl refl refl refl refl
