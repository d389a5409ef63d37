-- ===== src/Parse/FeedbackForm/Ratings.antt =====
-- The ratings in the payload of a feedback form.
use go_amizone.Base.{
  ◌≡◌, Bool, true, false, List, [], ◌∷◌, some, Text, ok, is_empty, text_eq, text_eq_iff,
  text_eq_refl, arith, Bool-cases, Option-cases, inl, inr, lookup, lookup-insert, ℤ, Values,
  encode_values, set_value, add_value, to_lower, trim_space, codes, any, sym, ◌∙◌, subst,
  if◌then◌else◌, ◌++◌, HasUniqueKeys, insert-HasUniqueKeys,
}
use go_amizone.Base.Html.{Html, attr_or}
use go_amizone.Parse.Library.{PageLib}
use go_amizone.Parse.FeedbackForm.{
  Form, empty_form, put, sprint, matches, rating_pattern, field_step, field_name, fill_fields,
  fields_of, other_field, input_field, check_field, select_value, faculty_feedback_submission,
  payload_of, FacultyFeedbackSubmission,
}
use go_amizone.Parse.FeedbackForm.Unique.{fill_fields-HasUniqueKeys}

-- A key other than the one that is set keeps its values.
lookup-put :
    (name k value : Text) (f : Form)
    → lookup k (put name value f).values
      ≡ (if text_eq name k then some (value ∷ []) else lookup k f.values)
unfolding put set_value
lookup-put name k value f = lookup-insert name k (value ∷ []) f.values

lookup-add :
    (name k value : Text) (f : Form)
    → text_eq name k ≡ false
    → lookup k (add_value name value f.values) ≡ lookup k f.values
unfolding add_value
lookup-add name k value f h = elim (Option-cases (lookup name f.values)) [
  | inl e ↦ ground (arith, e, h, lookup-insert name k (value ∷ []) f.values)
  | inr (vs, e) ↦ ground (arith, e, h, lookup-insert name k (vs ++ (value ∷ [])) f.values)
]

set_other :
    (name k value : Text) (m : Values)
    → text_eq name k ≡ false
    → lookup k (set_value name value m) ≡ lookup k m
unfolding set_value
set_other name k value m e = rw (lookup-insert name k (value ∷ []) m, e)

put_other :
    (name k value : Text) (f : Form)
    → text_eq name k ≡ false
    → lookup k (put name value f).values ≡ lookup k f.values
put_other name k value f e = rw (lookup-put name k value f, e)

module _ (h : Html) (lib : PageLib h) (rating query_rating : ℤ) (comment : Text) where
  open h use {Node, parse_document, node_text}

  abbrev is_rating : Text → Bool
  is_rating = matches h lib rating query_rating comment rating_pattern

  check_field_other :
      (name : Text) (field : Node) (k : Text) (f : Form)
      → text_eq name k ≡ false
      → lookup k (check_field h lib rating query_rating comment name field f).values
        ≡ lookup k f.values
  unfolding check_field
  check_field_other name field k f e =
      ground (arith, lookup-add name k (attr_or h (field ∷ []) (codes "value") (codes "on")) f e)

  input_field_other :
      (name type : Text) (field : Node) (k : Text) (f : Form)
      → text_eq name k ≡ false
      → lookup k (input_field h lib rating query_rating comment name type field f).values
        ≡ lookup k f.values
  unfolding input_field
  input_field_other name type field k f e = ground (
    arith,
    check_field_other name field k f e,
    put_other name k (attr_or h (field ∷ []) (codes "value") []) f e,
  )

  other_field_other :
      (name : Text) (field : Node) (k : Text) (f : Form)
      → text_eq name k ≡ false
      → lookup k (other_field h lib rating query_rating comment name field f).values
        ≡ lookup k f.values
  unfolding other_field
  other_field_other name field k f e = ground (
    arith,
    input_field_other name (to_lower (trim_space (attr_or h (field ∷ []) (codes "type") []))) field
        k f e,
    put_other name k (node_text field) f e,
    put_other name k (select_value h lib rating query_rating comment field) f e,
  )

  -- A step on a field leaves the values of all other names.
  field_step_other :
      (name : Text) (field : Node) (k : Text) (f : Form)
      → text_eq name k ≡ false
      → lookup k (field_step h lib rating query_rating comment name field f).values
        ≡ lookup k f.values
  unfolding field_step
  field_step_other name field k f e = ground (
    arith,
    other_field_other name field k f e,
    put_other name k (sprint rating) f e,
    put_other name k (sprint query_rating) f e,
    put_other name k comment f e,
  )

  field_step_rating :
      (name : Text) (field : Node) (f : Form)
      → is_empty name ≡ false
      → is_rating name ≡ true
      → lookup name (field_step h lib rating query_rating comment name field f).values
        ≡ some (sprint rating ∷ [])
  unfolding field_step
  field_step_rating name field f filled rate =
      ground (arith, filled, rate, text_eq_refl name, lookup-put name name (sprint rating) f)

  abbrev name_of : Node → Text
  name_of = field_name h lib rating query_rating comment

  abbrev step : Text → Node → Form → Form
  step = field_step h lib rating query_rating comment

  abbrev pub filled_form : List Node → Form → Form
  filled_form = fill_fields h lib rating query_rating comment

  -- Whether a field of the form has the name `k`.
  abbrev pub has_field : Text → List Node → Bool
  has_field k = any (λ field. text_eq (name_of field) k)

  field_step_hits :
      (name : Text) (field : Node) (k : Text) (f : Form)
      → is_empty k ≡ false
      → is_rating k ≡ true
      → text_eq name k ≡ true
      → lookup k (step name field f).values ≡ some (sprint rating ∷ [])
  field_step_hits name field k f filled rate e =
      subst (λ n. lookup k (step n field f).values ≡ some (sprint rating ∷ []))
        (sym ((text_eq_iff name k).0 e)) (field_step_rating k field f filled rate)

  -- A step on any field leaves a rating field that has its value with that value.
  field_step_keeps :
      (name : Text) (field : Node) (k : Text) (f : Form)
      → is_empty k ≡ false
      → is_rating k ≡ true
      → lookup k f.values ≡ some (sprint rating ∷ [])
      → lookup k (step name field f).values ≡ some (sprint rating ∷ [])
  field_step_keeps name field k f filled rate held = elim (Bool-cases (text_eq name k)) [
    | inl e ↦ field_step_hits name field k f filled rate e
    | inr e ↦ field_step_other name field k f e ∙ held
  ]

  fill_fields_keeps :
      (k : Text) (fields : List Node) (f : Form)
      → is_empty k ≡ false
      → is_rating k ≡ true
      → lookup k f.values ≡ some (sprint rating ∷ [])
      → lookup k (filled_form fields f).values ≡ some (sprint rating ∷ [])
  unfolding fill_fields
  fill_fields_keeps k [] f filled rate held = held
  fill_fields_keeps k (field ∷ fields) f filled rate held =
      fill_fields_keeps k fields (step (name_of field) field f) filled rate
        (field_step_keeps (name_of field) field k f filled rate held)

  -- A field with the name of a rating is answered with the rating, whichever fields follow it.
  pub fill_fields-rating :
      (k : Text) (fields : List Node) (f : Form)
      → is_empty k ≡ false
      → is_rating k ≡ true
      → has_field k fields ≡ true
      → lookup k (filled_form fields f).values ≡ some (sprint rating ∷ [])
  unfolding fill_fields
  fill_fields-rating k [] f filled rate member = ground (arith, member)
  fill_fields-rating k (field ∷ fields) f filled rate member =
      elim (Bool-cases (text_eq (name_of field) k)) [
        | inl e ↦
            fill_fields_keeps k fields (step (name_of field) field f) filled rate
              (field_step_hits (name_of field) field k f filled rate e)
        | inr e ↦
            fill_fields-rating k fields (step (name_of field) field f) filled rate
              (ground (arith, e, member))
      ]

  submission_payload :
      (body endpoint : Text) (dom : Node) (sub : FacultyFeedbackSubmission)
      → parse_document body ≡ some dom
      → faculty_feedback_submission h lib rating query_rating comment body endpoint ≡ ok sub
      → sub.payload
        ≡ payload_of h lib rating query_rating comment
            (filled_form (fields_of h lib rating query_rating comment dom) empty_form)
  unfolding faculty_feedback_submission
  submission_payload body endpoint dom sub parsed answer = ground (arith, parsed, answer)

  -- The payload of a feedback form that parses is the encoding of values, each key standing in them
  -- once, that have under the name of each of the form's rating fields the rating and nothing else.
  pub submission_rating :
      (body endpoint : Text) (dom : Node) (sub : FacultyFeedbackSubmission) (k : Text)
      → parse_document body ≡ some dom
      → faculty_feedback_submission h lib rating query_rating comment body endpoint ≡ ok sub
      → is_empty k ≡ false
      → is_rating k ≡ true
      → text_eq (codes "X-Requested-With") k ≡ false
      → has_field k (fields_of h lib rating query_rating comment dom) ≡ true
      → (values : Values) × HasUniqueKeys values
        × (sub.payload ≡ encode_values values)
        × (lookup k values ≡ some (sprint rating ∷ []))
  unfolding payload_of set_value
  submission_rating body endpoint dom sub k parsed answer filled rate other member = (
    set_value (codes "X-Requested-With") (codes "XMLHttpRequest") answered.values,
    insert-HasUniqueKeys (codes "X-Requested-With") (codes "XMLHttpRequest" ∷ []) answered.values (
        fill_fields-HasUniqueKeys h lib rating query_rating comment
          (fields_of h lib rating query_rating comment dom) empty_form tt),
    submission_payload body endpoint dom sub parsed answer,
    set_other (codes "X-Requested-With") k (codes "XMLHttpRequest") answered.values other
        ∙ fill_fields-rating k (fields_of h lib rating query_rating comment dom) empty_form filled
            rate member,
  )
    where
      answered : Form
      answered = filled_form (fields_of h lib rating query_rating comment dom) empty_form
