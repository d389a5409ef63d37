-- ===== src/Parse/FeedbackForm/Unique.antt =====
-- The values of a feedback form have each key once.
use go_amizone.Base.{
  List, [], ◌∷◌, Text, arith, Option-cases, inl, inr, lookup, ℤ, Values, set_value, add_value,
  to_lower, trim_space, codes, ◌++◌, HasUniqueKeys, insert-HasUniqueKeys,
}
use go_amizone.Base.Html.{Html, attr_or}
use go_amizone.Parse.Library.{PageLib}
use go_amizone.Parse.FeedbackForm.{
  Form, put, sprint, field_step, field_name, fill_fields, other_field, input_field, check_field,
  select_value,
}

put-HasUniqueKeys :
    (name value : Text) (f : Form)
    → HasUniqueKeys f.values
    → HasUniqueKeys (put name value f).values
unfolding put set_value
put-HasUniqueKeys name value f u = insert-HasUniqueKeys name (value ∷ []) f.values u

add_value-HasUniqueKeys :
    (name value : Text) (m : Values) → HasUniqueKeys m → HasUniqueKeys (add_value name value m)
unfolding add_value
add_value-HasUniqueKeys name value m u = elim (Option-cases (lookup name m)) [
  | inl e ↦ ground (arith, e, insert-HasUniqueKeys name (value ∷ []) m u)
  | inr (vs, e) ↦ ground (arith, e, insert-HasUniqueKeys name (vs ++ (value ∷ [])) m u)
]

module _ (h : Html) (lib : PageLib h) (rating query_rating : ℤ) (comment : Text) where
  open h use {Node, node_text}

  check_field-HasUniqueKeys :
      (name : Text) (field : Node) (f : Form)
      → HasUniqueKeys f.values
      → HasUniqueKeys (check_field h lib rating query_rating comment name field f).values
  unfolding check_field
  check_field-HasUniqueKeys name field f u = ground (
    arith,
    u,
    add_value-HasUniqueKeys name (attr_or h (field ∷ []) (codes "value") (codes "on")) f.values u,
  )

  input_field-HasUniqueKeys :
      (name type : Text) (field : Node) (f : Form)
      → HasUniqueKeys f.values
      → HasUniqueKeys (input_field h lib rating query_rating comment name type field f).values
  unfolding input_field
  input_field-HasUniqueKeys name type field f u = ground (
    arith,
    u,
    check_field-HasUniqueKeys name field f u,
    put-HasUniqueKeys name (attr_or h (field ∷ []) (codes "value") []) f u,
  )

  other_field-HasUniqueKeys :
      (name : Text) (field : Node) (f : Form)
      → HasUniqueKeys f.values
      → HasUniqueKeys (other_field h lib rating query_rating comment name field f).values
  unfolding other_field
  other_field-HasUniqueKeys name field f u = ground (
    arith,
    u,
    input_field-HasUniqueKeys name
        (to_lower (trim_space (attr_or h (field ∷ []) (codes "type") []))) field f u,
    put-HasUniqueKeys name (node_text field) f u,
    put-HasUniqueKeys name (select_value h lib rating query_rating comment field) f u,
  )

  field_step-HasUniqueKeys :
      (name : Text) (field : Node) (f : Form)
      → HasUniqueKeys f.values
      → HasUniqueKeys (field_step h lib rating query_rating comment name field f).values
  unfolding field_step
  field_step-HasUniqueKeys name field f u = ground (
    arith,
    u,
    other_field-HasUniqueKeys name field f u,
    put-HasUniqueKeys name (sprint rating) f u,
    put-HasUniqueKeys name (sprint query_rating) f u,
    put-HasUniqueKeys name comment f u,
  )

  pub fill_fields-HasUniqueKeys :
      (fields : List Node) (f : Form)
      → HasUniqueKeys f.values
      → HasUniqueKeys (fill_fields h lib rating query_rating comment fields f).values
  unfolding fill_fields
  fill_fields-HasUniqueKeys [] f u = u
  fill_fields-HasUniqueKeys (field ∷ fields) f u =
      fill_fields-HasUniqueKeys fields
        (field_step h lib rating query_rating comment
          (field_name h lib rating query_rating comment field) field f)
        (field_step-HasUniqueKeys (field_name h lib rating query_rating comment field) field f u)
