-- ===== src/Client/Feedback.antt =====
-- amizone/amizone.go: `SubmitFacultyFeedbackHack` up to the submissions: the check of the arguments,
-- and the collection of the specs from the two feedback pages.
pub mod Specs
pub mod Submissions
pub mod Runs
pub mod Tasks
use go_amizone.Base.{
  ℕ, Bool, true, false, not, ◌&&◌, List, [], ◌∷◌, ◌++◌, Option, none, some, Map, Text, codes,
  Result, ok, fail, panic, is_empty, text_eq, any, leb, ◌==◌, ℤ, pos, negsuc, if◌then◌else◌,
}
use go_amizone.Parse.Library.{PageLib}
use go_amizone.Parse.Feedback.{FacultyFeedbackSpec}
use go_amizone.Parse.Feedback.Page.{faculty_feedback}
use go_amizone.Client.Types.{Env, Response, M, ◌>>=◌, return, throw, lift}
use go_amizone.Client.Request.{unread, method_get}
use go_amizone.Client.Retry.{do_request}
use go_amizone.Client.Wifi.{as_fetch_failure}

abbrev pub faculty_feedback_endpoints : List Text
faculty_feedback_endpoints =
    codes "/FacultyFeeback/SummerSemesterFacultyFeedback"
    ∷ codes "/FacultyFeeback/FacultyFeedback"
    ∷ []

-- `1 <= r && r <= max`
abbrev pub in_range : ℕ → ℤ → Bool
in_range max (pos n) = leb 1 n && leb n max
in_range max (negsuc n) = false

-- The rating as the form counts it, where 1 is the best.
unfoldable pub form_rating : ℤ → ℤ
form_rating (pos n) = if n == 1 then pos 3 else (if n == 3 then pos 1 else pos n)
form_rating (negsuc n) = negsuc n

-- The text under which a spec is remembered.
unfoldable pub spec_key : FacultyFeedbackSpec → Text
spec_key s =
    s.submit_endpoint
    ++ (codes "|"
        ++ (s.faculty_id
            ++ (codes "|"
                ++ (s.course_type
                    ++ (codes "|" ++ (s.department_id ++ (codes "|" ++ s.serial_number)))))))

-- The local variables of the loop over the pages.
pub record Survey : Type 0 where
  pub fetched_any : Bool
  pub parsed_any : Bool
  pub last_err : Option Text
  pub seen_specs : List Text
  pub feedback_specs : List FacultyFeedbackSpec

abbrev pub no_survey : Survey
no_survey = record {
  fetched_any = false;
  parsed_any = false;
  last_err = none;
  seen_specs = [];
  feedback_specs = [];
}

unfoldable pub add_spec : FacultyFeedbackSpec → Survey → Survey
unfolding spec_key text_eq
add_spec spec v = if any (text_eq (spec_key spec)) v.seen_specs then v else record v {
  seen_specs = spec_key spec ∷ v.seen_specs;
  feedback_specs = v.feedback_specs ++ (spec ∷ []);
}

-- The loop over the specs of a page.
unfoldable pub add_specs : List FacultyFeedbackSpec → Survey → Survey
unfolding add_spec
add_specs [] v = v
add_specs (spec ∷ specs) v = add_specs specs (add_spec spec v)

-- What a page that was fetched adds.
unfoldable pub note_page : Survey → Result (List FacultyFeedbackSpec) → Result Survey
unfolding add_specs
note_page v (ok specs) = ok (add_specs specs record v { fetched_any = true; parsed_any = true })
note_page v (fail e) = ok record v { fetched_any = true; last_err = some e }
note_page v panic = panic

-- The errors after the loop.
unfoldable pub specs_of : Survey → Result (List FacultyFeedbackSpec)
specs_of v = elim v.last_err [
  | none ↦ ok v.feedback_specs
  | some e ↦
      if not v.fetched_any
      then fail (as_fetch_failure e)
      else (if not v.parsed_any
          then fail (codes "internal failure: failed to parse page")
          else ok v.feedback_specs)
]

-- `query_of` and `endpoint_in` are as for `faculty_feedback`.
module _ (env : Env) (lib : PageLib env.html) (query_of : Text → Option (Map Text))
    (endpoint_in : env.html.Node → Option Text) where
  -- The request for a feedback page.
  abbrev pub feedback_page : Text → M Response
  feedback_page endpoint = do_request env true method_get endpoint none

  unfoldable pub specs_on : Response → Result (List FacultyFeedbackSpec)
  unfolding faculty_feedback
  specs_on page =
      faculty_feedback env.html lib.markup query_of lib.upper endpoint_in (unread page.body)

  -- What the answer to a request for a page adds; the loop goes on after an error.
  unfoldable pub note_answer : Survey → Result Response → Result Survey
  unfolding note_page specs_on
  note_answer v (ok page) = note_page v (specs_on page)
  note_answer v (fail e) = ok record v { last_err = some e }
  note_answer v panic = panic

  -- One round of the loop over the pages.
  unfoldable pub visit : Text → Survey → M Survey
  unfolding note_answer
  visit endpoint v s = let (s', r) = feedback_page endpoint s in (s', note_answer v r)

  unfoldable pub visit_all : List Text → Survey → M Survey
  unfolding visit
  visit_all [] v = return v
  visit_all (endpoint ∷ endpoints) v = visit endpoint v >>= visit_all endpoints

  unfoldable pub collect_specs : M (List FacultyFeedbackSpec)
  unfolding visit_all specs_of
  collect_specs = visit_all faculty_feedback_endpoints no_survey >>= λ v. lift (specs_of v)

  -- The method up to the submissions.
  unfoldable pub prepare : ℤ → ℤ → Text → M (List FacultyFeedbackSpec)
  unfolding collect_specs
  prepare rating query_rating comment =
      if not (in_range 5 rating)
      then throw (codes "invalid rating")
      else (if not (in_range 3 query_rating)
          then throw (codes "invalid query rating")
          else (if is_empty comment
              then throw (codes "comment cannot be empty")
              else collect_specs))
