-- ===== src/Client/Feedback/Specs.antt =====
-- The specs that `SubmitFacultyFeedbackHack` collects.
use go_amizone.Base.{
  ℕ, ◌*◌, ◌≡◌, ◌≤◌, refl, ap, subst, Bool, true, false, List, [], ◌∷◌, ◌++◌, Option, none, some,
  Map, Text, Result, ok, fail, panic, text_eq, text_eq_iff, sym, any, Bool-cases, inl, inr, ◌||◌,
  arith, length, ℤ, pos, is_empty, Option-cases, ◌-◌,
}
use go_amizone.Base.Sort.{Pairwise}
use go_amizone.Base.Distinct.{DifferentKeys, IsKeyed, IsKeyed-add}
use go_amizone.Parse.Library.{PageLib}
use go_amizone.Parse.Feedback.{FacultyFeedbackSpec}
use go_amizone.Client.Types.{Env, State, Response, M, lift}
use go_amizone.Client.Request.{method_get}
use go_amizone.Client.Request.Answers.{bind_ok}
use go_amizone.Client.Login.Frame.{Within, Within-bind}
use go_amizone.Client.Retry.Bounds.{do_request-Frame}
use go_amizone.Client.Feedback.{
  Survey, no_survey, add_spec, add_specs, note_page, note_answer, specs_of, spec_key, visit,
  visit_all, collect_specs, prepare, feedback_page, specs_on, faculty_feedback_endpoints, in_range,
  form_rating,
}

-- The rating of the form counts down where the argument counts up.
pub form_rating_lem : (q : ℕ) → 1 ≤ q → q ≤ 3 → form_rating (pos q) ≡ pos (4 - q)
unfolding form_rating
form_rating_lem q low high = ground (arith, low, high)

-- Whether a spec has the key `k`.
abbrev pub has_key : Text → List FacultyFeedbackSpec → Bool
has_key k = any (λ s. text_eq k (spec_key s))

has_key-append :
    (k : Text) (specs : List FacultyFeedbackSpec) (spec : FacultyFeedbackSpec)
    → has_key k (specs ++ (spec ∷ [])) ≡ (has_key k specs || text_eq k (spec_key spec))
has_key-append k [] spec = ground arith
has_key-append k (s ∷ specs) spec = ground (arith, has_key-append k specs spec)

-- The specs have different keys, and those are the keys seen.
pub record IsSurvey (v : Survey) : Type 0 where
  pub keyed : IsKeyed spec_key v.seen_specs v.feedback_specs
  pub covered : (k : Text) → any (text_eq k) v.seen_specs ≡ has_key k v.feedback_specs

no_survey-IsSurvey : IsSurvey no_survey
no_survey-IsSurvey = record { keyed = record { different = _; all_seen = _ }; covered = λ k. refl }

add_spec-IsSurvey :
    (spec : FacultyFeedbackSpec) (v : Survey) → IsSurvey v → IsSurvey (add_spec spec v)
unfolding add_spec
add_spec-IsSurvey spec v i = elim (Bool-cases (any (text_eq (spec_key spec)) v.seen_specs)) [
  | inl old ↦ rw old i
  | inr fresh ↦ rw fresh record {
    keyed = IsKeyed-add spec_key v.seen_specs v.feedback_specs spec fresh i.keyed;
    covered = λ k. ground (arith, i.covered k, has_key-append k v.feedback_specs spec);
  }
]

has_key-seen :
    (k : Text) (spec : FacultyFeedbackSpec) (v : Survey)
    → IsSurvey v
    → any (text_eq (spec_key spec)) v.seen_specs ≡ true
    → has_key k v.feedback_specs ≡ (has_key k v.feedback_specs || text_eq k (spec_key spec))
has_key-seen k spec v i old = elim (Bool-cases (text_eq k (spec_key spec))) [
  | inl same ↦
      let seen : any (text_eq k) v.seen_specs ≡ true =
        subst (λ j. any (text_eq j) v.seen_specs ≡ true)
          (sym ((text_eq_iff k (spec_key spec)).0 same)) old in
      ground (arith, same, seen, i.covered k)
  | inr other ↦ ground (arith, other)
]

add_spec-keys :
    (spec : FacultyFeedbackSpec) (v : Survey) (k : Text)
    → IsSurvey v
    → has_key k (add_spec spec v).feedback_specs
      ≡ (has_key k v.feedback_specs || text_eq k (spec_key spec))
unfolding add_spec
add_spec-keys spec v k i = elim (Bool-cases (any (text_eq (spec_key spec)) v.seen_specs)) [
  | inl old ↦ rw old (has_key-seen k spec v i old)
  | inr fresh ↦ rw fresh (has_key-append k v.feedback_specs spec)
]

-- After the loop over the specs of a page the keys are still different, and they are those that were
-- there and those of the page.
pub add_specs-union :
    (specs : List FacultyFeedbackSpec) (v : Survey)
    → IsSurvey v
    → IsSurvey (add_specs specs v)
      × ((k : Text)
          → has_key k (add_specs specs v).feedback_specs
            ≡ (has_key k v.feedback_specs || has_key k specs))
unfolding add_specs
add_specs-union [] v i = (i, λ k. ground arith)
add_specs-union (spec ∷ specs) v i =
    let (j, keys) = add_specs-union specs (add_spec spec v) (add_spec-IsSurvey spec v i) in
    (j, λ k. ground (arith, keys k, add_spec-keys spec v k i))

note_page-IsSurvey :
    (v w : Survey) (r : Result (List FacultyFeedbackSpec))
    → IsSurvey v
    → note_page v r ≡ ok w
    → IsSurvey w
unfolding note_page
note_page-IsSurvey v w (ok specs) i e =
    let u : Survey = record v { fetched_any = true; parsed_any = true } in
    let same : add_specs specs u ≡ w = ground (arith, e) in
    subst IsSurvey same (add_specs-union specs u record { keyed = i.keyed; covered = i.covered }).0
note_page-IsSurvey v w (fail x) i e =
    let same : record v { fetched_any = true; last_err = some x } ≡ w = ground (arith, e) in
    subst IsSurvey same record { keyed = i.keyed; covered = i.covered }
note_page-IsSurvey v w panic i e = ground (arith, e)

module _ (env : Env) (lib : PageLib env.html) (query_of : Text → Option (Map Text))
    (endpoint_in : env.html.Node → Option Text) where
  abbrev page_specs : Response → Result (List FacultyFeedbackSpec)
  page_specs = specs_on env lib query_of endpoint_in

  abbrev round : Text → Survey → M Survey
  round = visit env lib query_of endpoint_in

  abbrev rounds : List Text → Survey → M Survey
  rounds = visit_all env lib query_of endpoint_in

  note_answer-IsSurvey :
      (v w : Survey) (r : Result Response)
      → IsSurvey v
      → note_answer env lib query_of endpoint_in v r ≡ ok w
      → IsSurvey w
  unfolding note_answer
  note_answer-IsSurvey v w (ok page) i e = note_page-IsSurvey v w (page_specs page) i e
  note_answer-IsSurvey v w (fail x) i e =
      let same : record v { last_err = some x } ≡ w = ground (arith, e) in
      subst IsSurvey same record { keyed = i.keyed; covered = i.covered }
  note_answer-IsSurvey v w panic i e = ground (arith, e)

  visit-IsSurvey :
      (endpoint : Text) (v w : Survey) (s s' : State)
      → IsSurvey v
      → round endpoint v s ≡ (s', ok w)
      → IsSurvey w
  unfolding visit
  visit-IsSurvey endpoint v w s s' i e =
      note_answer-IsSurvey v w (feedback_page env lib query_of endpoint_in endpoint s).1 i
        (ap (λ p. p.1) e)

  visit_all-IsSurvey :
      (endpoints : List Text) (v w : Survey) (s s' : State)
      → IsSurvey v
      → rounds endpoints v s ≡ (s', ok w)
      → IsSurvey w
  unfolding visit_all
  visit_all-IsSurvey [] v w s s' i e = subst IsSurvey (ground (arith, e)) i
  visit_all-IsSurvey (endpoint ∷ endpoints) v w s s' i e =
      let (t, u, first, others) = bind_ok (round endpoint v) (rounds endpoints) s s' w e in
      visit_all-IsSurvey endpoints u w t s' (visit-IsSurvey endpoint v u s t i first) others

  visit-Within : (endpoint : Text) (v : Survey) → Within 4 (round endpoint v)
  unfolding visit
  visit-Within endpoint v s = do_request-Frame env method_get endpoint none [] true s

  visit_all-Within :
      (endpoints : List Text) (v : Survey) → Within (4 * length endpoints) (rounds endpoints v)
  unfolding visit_all
  visit_all-Within [] v s = ground arith
  visit_all-Within (endpoint ∷ endpoints) v s = ground (
    arith,
    Within-bind 4 (4 * length endpoints) (round endpoint v) (rounds endpoints)
        (visit-Within endpoint v) (visit_all-Within endpoints) s,
  )

  collect_specs-Within : Within 8 (collect_specs env lib query_of endpoint_in)
  unfolding collect_specs
  collect_specs-Within =
      Within-bind 8 0 (rounds faculty_feedback_endpoints no_survey) (λ v. lift (specs_of v))
        (visit_all-Within faculty_feedback_endpoints no_survey) (λ v s. ground arith)

  -- Up to the submissions the method calls http.Client.Do at most eight times.
  pub prepare-Within :
      (rating query_rating : ℤ) (comment : Text)
      → Within 8 (prepare env lib query_of endpoint_in rating query_rating comment)
  unfolding prepare
  prepare-Within rating query_rating comment s = ground (arith, collect_specs-Within s)

  specs_of-ok :
      (v : Survey) (specs : List FacultyFeedbackSpec)
      → specs_of v ≡ ok specs
      → v.feedback_specs ≡ specs
  unfolding specs_of
  specs_of-ok v specs e = elim (Option-cases v.last_err) [
    | inl n ↦ ground (arith, n, e)
    | inr (x, n) ↦ ground (arith, n, e)
  ]

  collect_specs-Distinct :
      (s s' : State) (specs : List FacultyFeedbackSpec)
      → collect_specs env lib query_of endpoint_in s ≡ (s', ok specs)
      → Pairwise (DifferentKeys spec_key) specs
  unfolding collect_specs
  collect_specs-Distinct s s' specs e =
      let (t, v, visited, last) =
        bind_ok (rounds faculty_feedback_endpoints no_survey) (λ v. lift (specs_of v)) s s' specs
          e in
      let survey =
        visit_all-IsSurvey faculty_feedback_endpoints no_survey v s t no_survey-IsSurvey visited in
      subst (Pairwise (DifferentKeys spec_key)) (specs_of-ok v specs (ap (λ p. p.1) last))
        survey.keyed.different

  -- The submissions start only for ratings from 1 to 5, query ratings from 1 to 3 and a comment, and
  -- no two of them are for the same faculty, course type, department, serial number and endpoint.
  pub prepare_ok :
      (rating query_rating : ℤ) (comment : Text) (s s' : State) (specs : List FacultyFeedbackSpec)
      → prepare env lib query_of endpoint_in rating query_rating comment s ≡ (s', ok specs)
      → (in_range 5 rating ≡ true)
        × (in_range 3 query_rating ≡ true)
        × (is_empty comment ≡ false)
        × Pairwise (DifferentKeys spec_key) specs
  unfolding prepare
  prepare_ok rating query_rating comment s s' specs e =
      let collected : collect_specs env lib query_of endpoint_in s ≡ (s', ok specs) =
        ground (arith, e) in
      (
        ground (arith, e),
        ground (arith, e),
        ground (arith, e),
        collect_specs-Distinct s s' specs collected,
      )
