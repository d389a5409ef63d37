-- ===== src/Client/Feedback/Submissions.antt =====
-- amizone/amizone.go: the goroutines of `SubmitFacultyFeedbackHack`, one for each spec. A goroutine
-- asks for the form, then sends it; a request with its logins is one step, and the steps of the
-- goroutines interleave in any order.
use go_amizone.Base.{
  ℕ, suc, ◌+◌, ◌-◌, ◌==◌, ◌≡◌, Bool, true, false, List, [], ◌∷◌, ◌++◌, Option, none, some, Map,
  Text, codes, Result, ok, fail, panic, is_empty, length, ℤ, pos, if◌then◌else◌,
}
use go_amizone.Parse.Attendance.{to_int32}
use go_amizone.Parse.Library.{PageLib}
use go_amizone.Parse.Feedback.{FacultyFeedbackSpec}
use go_amizone.Parse.FeedbackForm.{FacultyFeedbackSubmission, faculty_feedback_submission}
use go_amizone.Client.Types.{Env, State, Response, M, ◌>>=◌, lift}
use go_amizone.Client.Request.{unread, post}
use go_amizone.Client.Retry.{do_request_with_headers}
use go_amizone.Client.Feedback.{prepare, form_rating}

-- Where a goroutine stands.
pub data Task : Type 0 where
  fetching : FacultyFeedbackSpec → Task
  sending : FacultyFeedbackSubmission → Task
  finished crashed : Task

-- The client, the goroutines, and the counter of the WaitGroup.
pub record Pool : Type 0 where
  pub client : State
  pub tasks : List Task
  pub wait_count : ℕ

abbrev pub ajax : Map Text
ajax = (codes "X-Requested-With", codes "XMLHttpRequest") ∷ []

abbrev pub method_of : FacultyFeedbackSpec → Text
method_of spec = if is_empty spec.feedback_method then post else spec.feedback_method

abbrev pub payload_for : FacultyFeedbackSpec → Option Text
payload_for spec = if is_empty spec.feedback_payload then none else some spec.feedback_payload

abbrev pub after_fetch : Result FacultyFeedbackSubmission → Task
after_fetch (ok submission) = sending submission
after_fetch (fail e) = finished
after_fetch panic = crashed

abbrev pub after_send : Result Response → Task
after_send (ok response) = finished
after_send (fail e) = finished
after_send panic = crashed

-- How many calls of `doRequestWithHeaders` a task has still to make, at most.
abbrev pub work : Task → ℕ
work (fetching spec) = 2
work (sending submission) = 1
work finished = 0
work crashed = 0

abbrev pub remaining : List Task → ℕ
remaining [] = 0
remaining (t ∷ ts) = work t + remaining ts

-- `wg.Done()`, deferred, when a goroutine that was running has come to its end.
unfoldable pub signal : Task → ℕ → ℕ
signal task wait_count = if work task == 0 then wait_count - 1 else wait_count

abbrev pub any_crashed : List Task → Bool
any_crashed [] = false
any_crashed (crashed ∷ ts) = true
any_crashed (_ ∷ ts) = any_crashed ts

module _ (env : Env) (lib : PageLib env.html) (rating query_rating : ℤ) (comment : Text) where
  unfoldable pub read_form : FacultyFeedbackSpec → Response → M FacultyFeedbackSubmission
  unfolding faculty_feedback_submission
  read_form spec form_response = lift (
      faculty_feedback_submission env.html lib rating query_rating comment
        (unread form_response.body) spec.submit_endpoint)

  unfoldable pub fetch_form : FacultyFeedbackSpec → M FacultyFeedbackSubmission
  unfolding read_form
  fetch_form spec =
      do_request_with_headers env (method_of spec) spec.feedback_endpoint (payload_for spec) ajax
        true
      >>= read_form spec

  unfoldable pub send_form : FacultyFeedbackSubmission → M Response
  send_form submission =
      do_request_with_headers env post submission.submit_endpoint (some submission.payload) ajax
        true

  unfoldable pub advance : Task → State → State × Task
  unfolding fetch_form send_form
  advance (fetching spec) s = let (s', r) = fetch_form spec s in (s', after_fetch r)
  advance (sending submission) s = let (s', r) = send_form submission s in (s', after_send r)
  advance finished s = (s, finished)
  advance crashed s = (s, crashed)

  unfoldable pub run_task : State → ℕ → List Task → Task → List Task → Pool
  unfolding advance signal
  run_task s wait_count before task after =
      let (s', t) = advance task s in
      record { client = s'; tasks = before ++ (t ∷ after); wait_count = signal t wait_count }

  pub data Step (p : Pool) : Pool → Type 0 where
    runs :
        (before : List Task) (task : Task) (after : List Task) (left : ℕ)
        → p.tasks ≡ before ++ (task ∷ after)
        → work task ≡ suc left
        → Step p (run_task p.client p.wait_count before task after)

  -- Runs of a number of steps.
  pub data Reach (p : Pool) : ℕ → Pool → Type 0 where
    here : Reach p 0 p
    next : (n : ℕ) (q r : Pool) → Reach p n q → Step q r → Reach p (suc n) r

-- The loop that adds one to the WaitGroup and starts a goroutine, for each spec. A goroutine's steps
-- before the loop is over are as if they came after it: nothing reads the counter before the loop ends.
abbrev pub start : State → List FacultyFeedbackSpec → Pool
start s [] = record { client = s; tasks = []; wait_count = 0 }
start s (spec ∷ specs) =
    let rest = start s specs in
    record { client = s; tasks = fetching spec ∷ rest.tasks; wait_count = 1 + rest.wait_count }

-- `SubmitFacultyFeedbackHack`: what it can return from a state, and the state that it leaves; `wg.Wait()`
-- lets it go on where the counter is 0. A panic in a goroutine ends the program.
module _ (env : Env) (lib : PageLib env.html) (query_of : Text → Option (Map Text))
    (endpoint_in : env.html.Node → Option Text) (rating query_rating : ℤ) (comment : Text) where
  abbrev pub prepared : M (List FacultyFeedbackSpec)
  prepared = prepare env lib query_of endpoint_in rating query_rating comment

  pub data Returns (s : State) : State → Result ℤ → Type 0 where
    refuses : (s' : State) (e : Text) → prepared s ≡ (s', fail e) → Returns s s' (fail e)
    panics : (s' : State) → prepared s ≡ (s', panic) → Returns s s' panic
    submits :
        (t : State) (specs : List FacultyFeedbackSpec) (n : ℕ) (q : Pool)
        → prepared s ≡ (t, ok specs)
        → Reach env lib rating (form_rating query_rating) comment (start t specs) n q
        → q.wait_count ≡ 0
        → any_crashed q.tasks ≡ false
        → Returns s q.client (ok (to_int32 (pos (length specs))))
    dies :
        (t : State) (specs : List FacultyFeedbackSpec) (n : ℕ) (q : Pool)
        → prepared s ≡ (t, ok specs)
        → Reach env lib rating (form_rating query_rating) comment (start t specs) n q
        → any_crashed q.tasks ≡ true
        → Returns s q.client panic
