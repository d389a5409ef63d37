-- ===== src/Parse/Feedback/Page/Distinct.antt =====
-- The specs that `FacultyFeedback` returns are complete, and none is returned twice.
use go_amizone.Base.{
  ◌≡◌, subst, Bool, true, false, not, List, [], ◌∷◌, Option, none, some, Text, codes, text_eq, any,
  Map, ok, All, All-append, arith, Option-cases, Bool-cases, inl, inr, contains, if◌then◌else◌,
}
use go_amizone.Base.Html.{Html}
use go_amizone.Base.Sort.{Pairwise}
use go_amizone.Base.Distinct.{DifferentKeys, IsKeyed, IsKeyed-add}
use go_amizone.Parse.Session.{verification_token_from_dom}
use go_amizone.Parse.Clean.{Markup}
use go_amizone.Parse.Feedback.{FacultyFeedbackSpec, is_complete, call_mark, spec_from_feedback_call}
use go_amizone.Parse.Feedback.Page.{
  Found, append_spec, append_found, feedback_key, add_anchors, add_calls, found_of,
  faculty_feedback, spec_from_feedback_anchor, call_of, infer_feedback_endpoint,
  infer_feedback_submit_endpoint,
}

-- Complete specs with different keys, all of which were seen.
pub record IsDistinct (found : Found) : Type 0 where
  pub complete : All (λ s. is_complete s ≡ true) found.1
  pub keyed : IsKeyed feedback_key found.0 found.1

append_spec-IsDistinct :
    (spec : FacultyFeedbackSpec) (found : Found)
    → IsDistinct found
    → IsDistinct (append_spec spec found)
unfolding append_spec
append_spec-IsDistinct spec (seen, specs) d = elim (Bool-cases (is_complete spec)) [
  | inr partial ↦ rw partial d
  | inl complete ↦ elim (Bool-cases (any (text_eq (feedback_key spec)) seen)) [
    | inl old ↦ rw (complete, old) d
    | inr fresh ↦
        rw (complete, fresh)
          record {
            complete =
                All-append (λ s. is_complete s ≡ true) specs (spec ∷ []) d.complete (complete, _);
            keyed = IsKeyed-add feedback_key seen specs spec fresh d.keyed;
          }
  ]
]

module _ (h : Html) (markup : Markup) (query_of : Text → Option (Map Text)) (upper : Text → Text)
    (endpoint_in : h.Node → Option Text) where
  open h use {Node, parse_document, find}

  append_found-IsDistinct :
      (spec : Option FacultyFeedbackSpec) (found : Found)
      → IsDistinct found
      → IsDistinct (append_found h markup query_of upper endpoint_in spec found)
  append_found-IsDistinct none found d = d
  append_found-IsDistinct (some spec) found d = append_spec-IsDistinct spec found d

  add_anchors-IsDistinct :
      (token submit : Text) (anchors : List Node) (found : Found)
      → IsDistinct found
      → IsDistinct (add_anchors h markup query_of upper endpoint_in token submit anchors found)
  unfolding add_anchors
  add_anchors-IsDistinct token submit [] found d = d
  add_anchors-IsDistinct token submit (a ∷ anchors) found d =
      add_anchors-IsDistinct token submit anchors _ (
        append_found-IsDistinct
          (spec_from_feedback_anchor h markup query_of upper endpoint_in token submit a) found d)

  call-IsDistinct :
      (u : Bool) (spec : Option FacultyFeedbackSpec) (found : Found)
      → IsDistinct found
      → IsDistinct
          (if u then found else append_found h markup query_of upper endpoint_in spec found)
  call-IsDistinct true spec found d = d
  call-IsDistinct false spec found d = append_found-IsDistinct spec found d

  add_calls-IsDistinct :
      (token feedback submit : Text) (ns : List Node) (found : Found)
      → IsDistinct found
      → IsDistinct (add_calls h markup query_of upper endpoint_in token feedback submit ns found)
  unfolding add_calls
  add_calls-IsDistinct token feedback submit [] found d = d
  add_calls-IsDistinct token feedback submit (n ∷ ns) found d =
      add_calls-IsDistinct token feedback submit ns _ (
        call-IsDistinct (not (contains (call_of h markup query_of upper endpoint_in n) call_mark))
          (spec_from_feedback_call token feedback submit
            (call_of h markup query_of upper endpoint_in n))
          found d)

  found_of-IsDistinct : (dom : Node) → IsDistinct (found_of h markup query_of upper endpoint_in dom)
  unfolding found_of
  found_of-IsDistinct dom =
      let feedback = infer_feedback_endpoint h markup query_of upper endpoint_in dom in
      let submit = infer_feedback_submit_endpoint feedback in
      let token = verification_token_from_dom h dom in
      add_calls-IsDistinct token feedback submit (find (dom ∷ []) (codes "[onclick], a[href]")) _ (
        add_anchors-IsDistinct token submit (find (dom ∷ []) (codes "a[href*=\"_FeedbackRating\"]"))
          ([], []) record { complete = _; keyed = record { different = _; all_seen = _ } })

  -- The specs that `FacultyFeedback` returns all have a faculty, a course type, a department and a
  -- serial number, and no two have the same key.
  pub faculty_feedback-distinct :
      (body : Text) (specs : List FacultyFeedbackSpec)
      → faculty_feedback h markup query_of upper endpoint_in body ≡ ok specs
      → All (λ s. is_complete s ≡ true) specs × Pairwise (DifferentKeys feedback_key) specs
  unfolding faculty_feedback
  faculty_feedback-distinct body specs e = elim (Option-cases (parse_document body)) [
    | inl f ↦ ground (arith, e, f)
    | inr (dom, f) ↦
        let found = found_of h markup query_of upper endpoint_in dom in
        let same : found.1 ≡ specs = ground (arith, e, f) in
        let distinct = found_of-IsDistinct dom in
        (
          subst (All (λ s. is_complete s ≡ true)) same distinct.complete,
          subst (Pairwise (DifferentKeys feedback_key)) same distinct.keyed.different,
        )
  ]
