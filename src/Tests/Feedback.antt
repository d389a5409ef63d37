-- ===== src/Tests/Feedback.antt =====
-- Calls of the feedback dialog, and a faculty page with two equal calls.
use mathlib.Core.List.{flat_map}
use go_amizone.Base.{
  insert, ◌≡◌, refl, List, [], ◌∷◌, some, none, Text, codes, text_eq, Map, ok, Result,
  if◌then◌else◌, length, Option,
}
use go_amizone.Base.Html.{Html}
use go_amizone.Parse.Clean.{Markup}
use go_amizone.Parse.Feedback.{
  FacultyFeedbackSpec, find_call_end, parse_js_call_args, flush, scanner_start,
}
use go_amizone.Parse.Feedback.Scan.{EndsCall, find_call_end-EndsCall}
use go_amizone.Parse.Feedback.Page.{faculty_feedback, infer_feedback_submit_endpoint}

abbrev block : Text
block = codes "'O\\'B)', \"2\",,x);"

end_test : find_call_end block ≡ some 15
unfolding find_call_end
end_test = refl

args_test :
    parse_js_call_args (codes "'O\\'B)', \"2\",,x") ≡ codes "O'B)" ∷ codes "2" ∷ codes "x" ∷ []
unfolding parse_js_call_args flush
args_test = refl

submit_test :
    infer_feedback_submit_endpoint (codes "/F/_FeedbackRating") ≡ codes "/F/SaveFeedbackRating"
unfolding infer_feedback_submit_endpoint
submit_test = refl

find_call_end-EndsCall_example : EndsCall scanner_start block 15
unfolding find_call_end
find_call_end-EndsCall_example = find_call_end-EndsCall block 15 refl

-- Every page has the breadcrumb of the faculty page and the same call in two elements.
abbrev pub call_text : Text
call_text = codes "FnFeedBackAgian('c','f','s','1','2','3','4')"

abbrev pub faculty_pages : Html
faculty_pages = record {
  Node = Text;
  parse_document = λ body. some body;
  parse_error = λ body. [];
  find = λ sel name.
      if text_eq name (codes "[onclick], a[href]")
      then call_text ∷ call_text ∷ []
      else (if text_eq name (codes "ul.breadcrumb li.active") then codes "My Faculty" ∷ [] else []);
  filter_by = λ sel name. sel;
  children = λ sel. [];
  parent = λ sel. [];
  node_attr = λ n name. some n;
  node_text = λ n. n;
  node_name = λ n. [];
}

abbrev plain_markup : Markup
plain_markup = record { quote = λ t. t; unquote = λ t. ok t; unescape = λ t. t; sanitize = λ t. t }

abbrev pub no_query : Text → Option (Map Text)
no_query t = none

abbrev returned : Result (List FacultyFeedbackSpec)
returned = faculty_feedback faculty_pages plain_markup no_query (λ t. t) (λ d. none) []

abbrev found_specs : List FacultyFeedbackSpec
found_specs = elim returned [ ok specs ↦ specs | _ ↦ [] ]

one_test : length found_specs ≡ 1
unfolding faculty_feedback text_eq flat_map insert
one_test = refl
