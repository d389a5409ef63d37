-- ===== src/Tests/Hack.antt =====
-- Feedback for the one faculty of a page; the portal answers every request but the first with it.
use go_amizone.Base.{
  ◌+◌, ◌*◌, ◌≡◌, ◌≤◌, ◌<◌, All, refl, true, false, List, [], ◌∷◌, none, some, Text, codes, text_eq,
  Result, ok, fail, pos, is_empty, length, insert, ◌==◌, if◌then◌else◌,
}
use mathlib.Core.List.{flat_map}
use go_amizone.Client.Retry.{do_request_with_headers}
use go_amizone.Base.Sort.{Pairwise}
use go_amizone.Base.Distinct.{DifferentKeys}
use go_amizone.Parse.Attendance.{to_int32}
use go_amizone.Parse.Library.{PageLib}
use go_amizone.Parse.Feedback.{FacultyFeedbackSpec}
use go_amizone.Client.Types.{Env, State}
use go_amizone.Client.Login.Frame.{Frame}
use go_amizone.Client.Feedback.{in_range, form_rating, prepare, spec_key}
use go_amizone.Client.Feedback.Specs.{prepare_ok}
use go_amizone.Client.Feedback.Submissions.{
  submits, here, next, runs, fetching, Pool, run_task, Step, work,
}
use go_amizone.Client.Feedback.Runs.{submissions-Waits, Returns-Frame}
use go_amizone.Client.Feedback.Tasks.{unfinished}
use go_amizone.Tests.Client.{returning}
use go_amizone.Tests.Feedback.{faculty_pages, no_query}

abbrev feedback_portal : Env
feedback_portal = record {
  html = faculty_pages;
  clock = λ n. n;
  transport = λ reqs.
      if length reqs == 1
      then fail (codes "timeout")
      else ok record { status_code = 200; path = codes "/"; body = some (codes "page") };
  cookies = λ reqs. none;
  composes = λ m u. true;
  solve_turnstile = λ reqs u key. fail [];
}

abbrev feedback_lib : PageLib faculty_pages
feedback_lib = record {
  markup = record { quote = λ t. t; unquote = λ t. ok t; unescape = λ t. t; sanitize = λ t. t };
  add_selection = λ a b. a;
  text_with_lines = λ sel. [];
  text_without = λ sel name. [];
  find_submatch = λ pattern s. [];
  atoi = λ t. pos 0;
  atoi_ok = λ t. false;
  Float = Text;
  float_zero = [];
  parse_float = λ t. t;
  parse_float_ok = λ t. true;
  time_parse = λ layout t. none;
  upper = λ t. t;
  title = λ t. t;
}

abbrev no_spec : FacultyFeedbackSpec
no_spec = record {
  verification_token = [];
  feedback_endpoint = [];
  feedback_method = [];
  feedback_payload = [];
  submit_endpoint = [];
  course_type = [];
  department_id = [];
  faculty_id = [];
  serial_number = [];
  set_rating = [];
  set_qrating = [];
  set_comment = [];
}

abbrev prepared_run : State × Result (List FacultyFeedbackSpec)
prepared_run =
    prepare feedback_portal feedback_lib no_query (λ d. none) (pos 5) (pos 3) (codes "fine")
      returning

abbrev collected : List FacultyFeedbackSpec
collected = elim prepared_run.1 [ ok specs ↦ specs | _ ↦ [] ]

collected_test : length collected ≡ 1
unfolding prepare text_eq do_request_with_headers flat_map insert
collected_test = refl

abbrev one_spec : FacultyFeedbackSpec
one_spec = elim collected as (λ c. FacultyFeedbackSpec) [ [] ↦ no_spec | spec ∷ specs ↦ spec ]

prepare_ok_example :
    (in_range 5 (pos 5) ≡ true)
    × (in_range 3 (pos 3) ≡ true)
    × (is_empty (codes "fine") ≡ false)
    × Pairwise (DifferentKeys spec_key) (one_spec ∷ [])
unfolding prepare text_eq do_request_with_headers flat_map insert
prepare_ok_example =
    prepare_ok feedback_portal feedback_lib no_query (λ d. none) (pos 5) (pos 3) (codes "fine")
      returning prepared_run.0 (one_spec ∷ []) refl

abbrev ended : Pool
ended =
    run_task feedback_portal feedback_lib (pos 5) (form_rating (pos 3)) (codes "fine")
      prepared_run.0 1 [] (fetching one_spec) []

Returns-Frame_example :
    (t : State) × (specs : List FacultyFeedbackSpec) × (prepare feedback_portal feedback_lib
        no_query
        (λ d. none)
        (pos 5)
        (pos 3)
        (codes "fine")
        returning
      ≡ (t, ok specs))
    × (pos 1 ≡ to_int32 (pos (length specs)))
    × Frame (8 + 8 * length specs) returning ended.client
unfolding prepare text_eq do_request_with_headers flat_map insert run_task
Returns-Frame_example =
    Returns-Frame feedback_portal feedback_lib no_query (λ d. none) (pos 5) (pos 3) (codes "fine")
      returning ended.client (pos 1)
      (submits prepared_run.0 (one_spec ∷ []) 1 ended refl
        (next 0 _ ended here (runs [] (fetching one_spec) [] 1 refl refl)) refl refl)

submissions-Waits_example :
    (1 ≤ 2 * 1)
    × (length ended.tasks ≡ 1)
    × (ended.wait_count ≡ unfinished ended.tasks)
    × (ended.wait_count ≡ 0 → All (λ t. work t ≡ 0) ended.tasks)
    × (0 < ended.wait_count
        → (r : Pool) × Step feedback_portal feedback_lib
            (pos 5)
            (form_rating (pos 3))
            (codes "fine")
            ended
            r)
unfolding prepare text_eq do_request_with_headers flat_map insert run_task
submissions-Waits_example =
    submissions-Waits feedback_portal feedback_lib (pos 5) (form_rating (pos 3)) (codes "fine")
      prepared_run.0 (one_spec ∷ []) 1 ended
      (next 0 _ ended here (runs [] (fetching one_spec) [] 1 refl refl))
