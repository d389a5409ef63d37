-- ===== src/Parse/FeedbackForm.antt =====
-- amizone/internal/parse/faculty_feedback_form.go: the payload that a feedback form is answered with.
pub mod Ratings
pub mod Unique
use go_amizone.Base.{
  ℕ, suc, Bool, true, false, not, List, [], ◌∷◌, ◌++◌, Option, none, some, Text, codes, Result, ok,
  fail, is_empty, text_eq, any, contains, trim_space, to_lower, decimal, ◌==◌, ◌||◌, ℤ, pos, negsuc,
  if◌then◌else◌, Values, set_value, add_value, encode_values,
}
use go_amizone.Base.Html.{Html, attr, attr_or, first}
use go_amizone.Parse.Clean.{clean_string}
use go_amizone.Parse.Feedback.{first_non_empty}
use go_amizone.Parse.Library.{PageLib}
use go_amizone.Parse.Session.{is_logged_in_dom}

pub record FacultyFeedbackSubmission : Type 0 where
  pub submit_endpoint : Text
  pub payload : Text

-- `fmt.Sprint` of a number.
unfoldable pub sprint : ℤ → Text
unfolding decimal
sprint (pos n) = decimal n
sprint (negsuc n) = b'-' ∷ decimal (suc n)

-- What the loop over the fields builds: the values, the names in `seenField`, and `ratingFields`.
pub record Form : Type 0 where
  pub values : Values
  pub seen : List Text
  pub rating_fields : ℕ

abbrev pub empty_form : Form
empty_form = record { values = []; seen = []; rating_fields = 0 }

-- `values.Set` with the mark in `seenField`.
unfoldable pub put : Text → Text → Form → Form
unfolding set_value
put name value f = record f { values = set_value name value f.values; seen = name ∷ f.seen }

abbrev pub rating_pattern : Text
rating_pattern = codes "^FeedbackRating\\[\\d+\\]\\.Rating$"

abbrev pub query_pattern : Text
query_pattern = codes "^FeedbackRating_Q\\d+Rating$"

module _ (h : Html) (lib : PageLib h) (rating query_rating : ℤ) (comment : Text) where
  open h use {Node, parse_document, parse_error, find, node_text, node_name}
  open lib use {markup, find_submatch}

  -- `MatchString`.
  abbrev pub matches : Text → Text → Bool
  matches pattern name = elim (find_submatch pattern name) [ [] ↦ false | m ∷ groups ↦ true ]

  abbrev is_checked : Option Text → Bool
  is_checked none = false
  is_checked (some v) = true

  -- The value of the first option that is selected.
  selected_option : List Node → Text
  unfolding clean_string
  selected_option [] = []
  selected_option (option ∷ options) =
      if is_checked (attr h (option ∷ []) (codes "selected"))
      then attr_or h (option ∷ []) (codes "value") (clean_string markup (node_text option) [])
      else selected_option options

  unfoldable pub select_value : Node → Text
  unfolding selected_option
  select_value field =
      let options = find (field ∷ []) (codes "option") in
      let selected = selected_option options in
      if is_empty selected then attr_or h (first h options) (codes "value") [] else selected

  -- A radio button or a checkbox.
  unfoldable pub check_field : Text → Node → Form → Form
  unfolding add_value
  check_field name field f =
      if any (text_eq name) f.seen
      then f
      else (if is_checked (attr h (field ∷ []) (codes "checked"))
          then record f {
            values = add_value name (attr_or h (field ∷ []) (codes "value") (codes "on")) f.values;
            seen = name ∷ f.seen;
          }
          else f)

  -- The `switch` on the type of an input.
  unfoldable pub input_field : Text → Text → Node → Form → Form
  unfolding check_field put text_eq
  input_field name type field f =
      if text_eq type (codes "radio") || text_eq type (codes "checkbox")
      then check_field name field f
      else (if text_eq type (codes "submit")
            || (text_eq type (codes "button")
                || (text_eq type (codes "reset") || text_eq type (codes "file")))
          then f
          else put name (attr_or h (field ∷ []) (codes "value") []) f)

  -- The `switch` on the name of the element, for a field with no rating and no comment.
  unfoldable pub other_field : Text → Node → Form → Form
  unfolding input_field select_value put text_eq to_lower trim_space
  other_field name field f =
      let tag = node_name field in
      if text_eq tag (codes "input")
      then input_field name (to_lower (trim_space (attr_or h (field ∷ []) (codes "type") []))) field
          f
      else (if text_eq tag (codes "textarea")
          then put name (node_text field) f
          else (if text_eq tag (codes "select") then put name (select_value field) f else f))

  abbrev pub field_name : Node → Text
  unfolding trim_space
  field_name field = trim_space (attr_or h (field ∷ []) (codes "name") [])

  -- One round of the loop.
  unfoldable pub field_step : Text → Node → Form → Form
  unfolding other_field put contains to_lower
  field_step name field f =
      if is_empty name
      then f
      else (if matches rating_pattern name
          then (let g = put name (sprint rating) f in
              record g { rating_fields = suc g.rating_fields })
          else (if matches query_pattern name
              then put name (sprint query_rating) f
              else (if contains (to_lower name) (codes "comment")
                  then put name comment f
                  else other_field name field f)))

  unfoldable pub fill_fields : List Node → Form → Form
  unfolding field_step trim_space
  fill_fields [] f = f
  fill_fields (field ∷ fields) f = fill_fields fields (field_step (field_name field) field f)

  abbrev pub form_of : Node → List Node
  form_of dom = first h (find (dom ∷ []) (codes "form"))

  abbrev root_of : Node → List Node
  root_of dom = elim (form_of dom) [ [] ↦ dom ∷ [] | n ∷ ns ↦ n ∷ ns ]

  abbrev pub fields_of : Node → List Node
  fields_of dom = find (root_of dom) (codes "input[name], textarea[name], select[name]")

  endpoint_of : Node → Text → Text
  unfolding trim_space first_non_empty
  endpoint_of dom default_submit_endpoint =
      trim_space (
        first_non_empty
          (attr_or h (form_of dom) (codes "action") [] ∷ default_submit_endpoint ∷ []))

  unfoldable pub payload_of : Form → Text
  unfolding encode_values set_value
  payload_of f =
      encode_values (set_value (codes "X-Requested-With") (codes "XMLHttpRequest") f.values)

  unfoldable pub faculty_feedback_submission : Text → Text → Result FacultyFeedbackSubmission
  unfolding is_logged_in_dom endpoint_of fill_fields payload_of
  faculty_feedback_submission body default_submit_endpoint = elim (parse_document body) [
    | none ↦ fail (codes "failed to parse DOM: " ++ parse_error body)
    | some dom ↦
        if not (is_logged_in_dom h dom)
        then fail (codes "failed to parse: not logged in")
        else (if is_empty (endpoint_of dom default_submit_endpoint)
            then fail (codes "failed to parse")
            else (if (fill_fields (fields_of dom) empty_form).rating_fields == 0
                then fail (codes "failed to parse")
                else ok record {
                  submit_endpoint = endpoint_of dom default_submit_endpoint;
                  payload = payload_of (fill_fields (fields_of dom) empty_form);
                }))
  ]
