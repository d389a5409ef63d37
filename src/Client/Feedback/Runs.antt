-- ===== src/Client/Feedback/Runs.antt =====
-- The submissions of `SubmitFacultyFeedbackHack` and its wait for them, whatever their interleaving.
use go_amizone.Base.{
  ℕ, suc, ◌+◌, ◌*◌, ◌≡◌, ◌≤◌, ◌<◌, refl, ap, subst, true, List, ◌∷◌, ◌++◌, Option, some, Map, Text,
  ok, Result-cases, arith, length, ℤ, pos, All, sym, ◌∙◌, length-append,
}
use go_amizone.Parse.Attendance.{to_int32}
use go_amizone.Parse.Library.{PageLib}
use go_amizone.Parse.Feedback.{FacultyFeedbackSpec}
use go_amizone.Client.Types.{Env, State}
use go_amizone.Client.Request.{post}
use go_amizone.Client.Login.Frame.{Frame, Within, Within-bind}
use go_amizone.Client.Retry.{do_request_with_headers}
use go_amizone.Client.Retry.Bounds.{do_request-Frame}
use go_amizone.Client.Feedback.{form_rating}
use go_amizone.Client.Feedback.Specs.{prepare-Within}
use go_amizone.Client.Feedback.Submissions.{
  Task, fetching, sending, finished, crashed, Pool, work, remaining, ajax, method_of, payload_for,
  fetch_form, send_form, read_form, advance, run_task, runs, Step, Reach, here, next, start,
  Returns, submits, prepared, signal,
}
use go_amizone.Client.Feedback.Tasks.{
  remaining-append, work-after_send, unfinished, unfinished_none, unfinished_some, Agrees,
  signalled, running_task, start_lem,
}

Frame-all :
    (k m : ℕ) {s t u : State} → m ≤ 2 * k → Frame 8 s t → Frame (m * 4) t u → Frame (8 + 8 * k) s u
Frame-all k m small f g = ground arith

remaining-used :
    (s : State) (specs : List FacultyFeedbackSpec) (m : ℕ) (q : Pool)
    → m + remaining q.tasks ≤ remaining (start s specs).tasks
    → m ≤ 2 * length specs
remaining-used s specs m q used = omega (arith, used, (start_lem s specs).0)

Frame-last : (m : ℕ) {s t u : State} → Frame (m * 4) s t → Frame 4 t u → Frame (suc m * 4) s u
Frame-last m f g = ground arith

module _ (env : Env) (lib : PageLib env.html) (rating query_rating : ℤ) (comment : Text) where
  fetch_form-Within :
      (spec : FacultyFeedbackSpec) → Within 4 (fetch_form env lib rating query_rating comment spec)
  unfolding fetch_form read_form
  fetch_form-Within spec =
      Within-bind 4 0
        (do_request_with_headers env (method_of spec) spec.feedback_endpoint (payload_for spec) ajax
          true)
        (read_form env lib rating query_rating comment spec)
        (λ s.
          do_request-Frame env (method_of spec) spec.feedback_endpoint (payload_for spec) ajax true
            s)
        (λ r s. ground arith)

  -- A step of a task that is not done brings it closer to its end, with at most four calls of
  -- http.Client.Do.
  advance_lem :
      (task : Task) (s : State)
      → 0 < work task
      → (work (advance env lib rating query_rating comment task s).1 < work task)
        × Frame 4 s (advance env lib rating query_rating comment task s).0
  unfolding advance send_form
  advance_lem (fetching spec) s running = (
    ground (arith, Result-cases (fetch_form env lib rating query_rating comment spec s).1),
    fetch_form-Within spec s,
  )
  advance_lem (sending submission) s running = (
    ground (arith, work-after_send (send_form env lib rating query_rating comment submission s).1),
    do_request-Frame env post submission.submit_endpoint (some submission.payload) ajax true s,
  )
  advance_lem finished s running = ground (arith, running)
  advance_lem crashed s running = ground (arith, running)

  -- The pool after a step of a task that is not done.
  run_task_lem :
      (s : State) (count : ℕ) (before : List Task) (task : Task) (after : List Task)
      → 0 < work task
      → unfinished (before ++ (task ∷ after)) ≡ count
      → (remaining (run_task env lib rating query_rating comment s count before task after).tasks
          < remaining (before ++ (task ∷ after)))
        × Agrees (run_task env lib rating query_rating comment s count before task after)
        × (length (run_task env lib rating query_rating comment s count before task after).tasks
            ≡ length (before ++ (task ∷ after)))
        × Frame 4 s (run_task env lib rating query_rating comment s count before task after).client
  unfolding run_task signal
  run_task_lem s count before task after running agrees =
      let (closer, frame) = advance_lem task s running in
      let now = (advance env lib rating query_rating comment task s).1 in
      (
        omega (
          arith,
          closer,
          remaining-append before (task ∷ after),
          remaining-append before (now ∷ after),
        ),
        signalled before task now after count running agrees,
        length-append before (now ∷ after) ∙ sym (length-append before (task ∷ after)),
        frame,
      )

  -- A run of `n` steps calls http.Client.Do at most 4 n times, its steps use up the tasks' work, and the counter
  -- stays that of the goroutines that have not ended.
  pub Reach-Frame :
      (p : Pool) (n : ℕ) (q : Pool)
      → Agrees p
      → Reach env lib rating query_rating comment p n q
      → (n + remaining q.tasks ≤ remaining p.tasks)
        × Agrees q
        × (length q.tasks ≡ length p.tasks)
        × Frame (n * 4) p.client q.client
  Reach-Frame p n q agrees here = (omega arith, agrees, refl, ground arith)
  Reach-Frame p n q agrees (next m t u reach (runs before task after left same busy)) =
      let (used, agreed, long, frame) = Reach-Frame p m t agrees reach in
      let (closer, now, longer, more) =
        run_task_lem t.client t.wait_count before task after (ground (arith, busy))
          (sym (ap unfinished same) ∙ agreed) in
      (
        omega (arith, used, closer, ap remaining same),
        now,
        longer ∙ sym (ap length same) ∙ long,
        Frame-last m frame more,
      )

  -- The wait for the submissions: the counter of the WaitGroup is at each moment the number of
  -- goroutines, one for each spec, that have not ended. So the wait is over only when every one has
  -- ended, and before that one of them can run; they run at most two steps for each spec, which leave
  -- the wait no way to last for ever.
  pub submissions-Waits :
      (s : State) (specs : List FacultyFeedbackSpec) (n : ℕ) (q : Pool)
      → Reach env lib rating query_rating comment (start s specs) n q
      → (n ≤ 2 * length specs)
        × (length q.tasks ≡ length specs)
        × (q.wait_count ≡ unfinished q.tasks)
        × (q.wait_count ≡ 0 → All (λ t. work t ≡ 0) q.tasks)
        × (0 < q.wait_count → (r : Pool) × Step env lib rating query_rating comment q r)
  submissions-Waits s specs n q reach =
      let (total, agrees, long, same) = start_lem s specs in
      let (used, agreed, longer, frame) = Reach-Frame (start s specs) n q agrees reach in
      (
        remaining-used s specs n q used,
        longer ∙ long,
        sym agreed,
        λ over. unfinished_none q.tasks (agreed ∙ over),
        λ more.
            let (before, task, after, left, parts, works) =
              running_task q.tasks (unfinished_some q.tasks (omega (arith, agreed, more))) in
            (_, runs before task after left parts works),
      )

module _ (env : Env) (lib : PageLib env.html) (query_of : Text → Option (Map Text))
    (endpoint_in : env.html.Node → Option Text) (rating query_rating : ℤ) (comment : Text) where
  -- Where the method returns a number, its specs are those that the pages gave: the number is how many
  -- they are, as 32 bits, and whatever the interleaving of the submissions, the client calls
  -- http.Client.Do at most eight times, and eight times more for each spec; didLogin is not reset and
  -- the credentials stay. The requests of the solver within a login and the redirects that Do follows
  -- are not counted.
  pub Returns-Frame :
      (s s' : State) (n : ℤ)
      → Returns env lib query_of endpoint_in rating query_rating comment s s' (ok n)
      → (t : State) × (specs : List FacultyFeedbackSpec) × (prepared env lib query_of endpoint_in
            rating query_rating comment s
          ≡ (t, ok specs))
        × (n ≡ to_int32 (pos (length specs)))
        × Frame (8 + 8 * length specs) s s'
  Returns-Frame s s' n (submits t specs m q prep reach done alive) =
      let (total, agrees, long, same) = start_lem t specs in
      let (used, agreed, longer, run) =
        Reach-Frame env lib rating (form_rating query_rating) comment (start t specs) m q agrees
          reach in
      let frame : Frame (m * 4) t q.client = subst (λ c. Frame (m * 4) c q.client) same run in
      let first : Frame 8 s t =
        subst (λ p. Frame 8 s p.0) prep
          (prepare-Within env lib query_of endpoint_in rating query_rating comment s) in
      (
        t,
        specs,
        prep,
        refl,
        Frame-all (length specs) m (remaining-used t specs m q used) first frame,
      )
