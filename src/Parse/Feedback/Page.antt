-- ===== src/Parse/Feedback/Page.antt =====
-- `FacultyFeedback` over the document of the faculty page.
pub mod Distinct
use go_amizone.Base.{
  Bool, not, List, [], ◌∷◌, ◌++◌, Option, none, some, Text, codes, Map, is_empty, text_eq, contains,
  any, lookup, Result, ok, fail, length, take, ◌-◌, has_prefix, if◌then◌else◌,
}
use mathlib.Core.List.{reverse}
use go_amizone.Base.Html.{Html, attr_or, text_of}
use go_amizone.Parse.Clean.{Markup, clean_string}
use go_amizone.Parse.Session.{is_logged_in_dom, verification_token_from_dom}
use go_amizone.Parse.Feedback.{
  FacultyFeedbackSpec, call_mark, escape_feedback_value, first_non_empty, is_complete,
  spec_from_feedback_call,
}

-- `strings.TrimSuffix`
unfoldable pub trim_suffix : Text → Text → Text
unfolding has_prefix
trim_suffix s suffix =
    if has_prefix (reverse s) (reverse suffix) then take (length s - length suffix) s else s

unfoldable pub infer_feedback_submit_endpoint : Text → Text
unfolding trim_suffix
infer_feedback_submit_endpoint endpoint =
    if is_empty endpoint
    then codes "/FacultyFeeback/FacultyFeedback/SaveFeedbackRating"
    else trim_suffix endpoint (codes "/_FeedbackRating") ++ codes "/SaveFeedbackRating"

-- The text under which `appendSpec` remembers a spec.
unfoldable pub feedback_key : FacultyFeedbackSpec → Text
feedback_key s =
    s.submit_endpoint
    ++ (codes "|"
        ++ (s.feedback_endpoint
            ++ (codes "|"
                ++ (s.feedback_method
                    ++ (codes "|"
                        ++ (s.feedback_payload
                            ++ (codes "|"
                                ++ (s.faculty_id
                                    ++ (codes "|"
                                        ++ (s.course_type
                                            ++ (codes "|"
                                                ++ (s.department_id
                                                    ++ (codes "|" ++ s.serial_number)))))))))))))

-- The keys seen, and the specs in their order.
abbrev pub Found : Type 0
Found = List Text × List FacultyFeedbackSpec

unfoldable pub append_spec : FacultyFeedbackSpec → Found → Found
unfolding is_complete feedback_key text_eq
append_spec spec (seen, specs) =
    if not (is_complete spec)
    then (seen, specs)
    else (if any (text_eq (feedback_key spec)) seen
        then (seen, specs)
        else (feedback_key spec ∷ seen, specs ++ (spec ∷ [])))

-- The libraries: the markup functions, `url.Parse` with the first value of every key of the query,
-- `strings.ToUpper`, and the first group that the pattern for the endpoint of the ratings matches in
-- the HTML of a document.
module _ (h : Html) (markup : Markup) (query_of : Text → Option (Map Text)) (upper : Text → Text)
    (endpoint_in : h.Node → Option Text) where
  open h use {Node, parse_document, parse_error, find}

  is_faculty_page : Node → Bool
  unfolding clean_string text_eq
  is_faculty_page dom =
      text_eq
        (clean_string markup (text_of h (find (dom ∷ []) (codes "ul.breadcrumb li.active"))) [])
        (codes "My Faculty")

  infer_feedback_endpoint : Node → Text
  infer_feedback_endpoint dom = elim (endpoint_in dom) [
    | none ↦ codes "/FacultyFeeback/FacultyFeedback/_FeedbackRating"
    | some endpoint ↦ endpoint
  ]

  abbrev query_get : Map Text → Text → Text
  query_get query key = elim (lookup key query) [ none ↦ [] | some v ↦ v ]

  spec_from_feedback_anchor : Text → Text → Node → Option FacultyFeedbackSpec
  unfolding first_non_empty escape_feedback_value is_complete
  spec_from_feedback_anchor token submit anchor =
      let raw_uri = attr_or h (anchor ∷ []) (codes "href") [] in
      elim (query_of raw_uri) [
        | none ↦ none
        | some query ↦
            let value : Text → Text → Text = λ a b.
              escape_feedback_value
                (first_non_empty (query_get query a ∷ query_get query b ∷ [])) in
            let spec : FacultyFeedbackSpec = record {
              verification_token = token;
              feedback_endpoint = raw_uri;
              feedback_method = upper (
                  first_non_empty
                    (attr_or h (anchor ∷ []) (codes "data-ajax-method") [] ∷ codes "POST" ∷ []));
              feedback_payload = [];
              submit_endpoint = submit;
              faculty_id = value (codes "FacultyStaffID") (codes "FacultyId");
              course_type = value (codes "CourseType") (codes "sType");
              department_id = value (codes "DetID") (codes "iDetId");
              serial_number = value (codes "SrNo") (codes "iSRNO");
              set_rating = [];
              set_qrating = [];
              set_comment = [];
            } in
            if is_complete spec then some spec else none
      ]

  abbrev append_found : Option FacultyFeedbackSpec → Found → Found
  append_found none found = found
  append_found (some spec) found = append_spec spec found

  -- The loop over the links to ratings.
  add_anchors : Text → Text → List Node → Found → Found
  unfolding spec_from_feedback_anchor append_spec
  add_anchors token submit [] found = found
  add_anchors token submit (anchor ∷ anchors) found =
      add_anchors token submit anchors
        (append_found (spec_from_feedback_anchor token submit anchor) found)

  abbrev call_of : Node → Text
  call_of n =
      let on_click = attr_or h (n ∷ []) (codes "onclick") [] in
      if is_empty on_click then attr_or h (n ∷ []) (codes "href") [] else on_click

  -- The loop over the elements that may call `FnFeedBackAgian`.
  add_calls : Text → Text → Text → List Node → Found → Found
  unfolding spec_from_feedback_call append_spec contains
  add_calls token feedback submit [] found = found
  add_calls token feedback submit (n ∷ ns) found = add_calls token feedback submit ns (
      if not (contains (call_of n) call_mark)
      then found
      else append_found (spec_from_feedback_call token feedback submit (call_of n)) found)

  -- The keys and specs after both loops.
  found_of : Node → Found
  unfolding add_anchors add_calls infer_feedback_endpoint infer_feedback_submit_endpoint
      verification_token_from_dom
  found_of dom =
      let feedback = infer_feedback_endpoint dom in
      let submit = infer_feedback_submit_endpoint feedback in
      let token = verification_token_from_dom h dom in
      add_calls token feedback submit (find (dom ∷ []) (codes "[onclick], a[href]"))
        (add_anchors token submit (find (dom ∷ []) (codes "a[href*=\"_FeedbackRating\"]")) ([], []))

  unfoldable pub faculty_feedback : Text → Result (List FacultyFeedbackSpec)
  unfolding found_of is_logged_in_dom is_faculty_page
  faculty_feedback body = elim (parse_document body) [
    | none ↦ fail (codes "failed to parse DOM: " ++ parse_error body)
    | some dom ↦
        if not (is_logged_in_dom h dom)
        then fail (codes "failed to parse: not logged in")
        else (if not (is_faculty_page dom)
            then fail (codes "failed to parse: Not Faculty Feedback Page")
            else ok (found_of dom).1)
  ]
