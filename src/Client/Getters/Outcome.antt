-- ===== src/Client/Getters/Outcome.antt =====
-- What the methods that fetch one page return, and how often they call http.Client.Do.
use go_amizone.Base.{
  ◌≡◌, ◌∙◌, ap, sym, subst, List, Text, codes, none, ok, arith, Result, [], true, ℤ, Option,
}
use go_amizone.Parse.Library.{PageLib}
use go_amizone.Parse.Courses.{Course, courses, semesters}
use go_amizone.Parse.Courses.Rows.{Listing, courses-Listing}
use go_amizone.Parse.Attendance.{attendance}
use go_amizone.Parse.Examinations.{examination_schedule, examination_result}
use go_amizone.Parse.Profiles.{profile}
use go_amizone.Client.Types.{Env, State, Response, ◌>>=◌, lift}
use go_amizone.Client.Request.{unread, post, method_get}
use go_amizone.Client.Request.Answers.{bind_ok, wrap_ok}
use go_amizone.Client.Login.Frame.{Within, Within-bind, Within-wrap}
use go_amizone.Client.Retry.{do_request}
use go_amizone.Client.Retry.Bounds.{do_request-Frame}
use go_amizone.Client.Retry.Results.{Usable, Last, do_request-Last}
use go_amizone.Client.Wifi.{as_fetch_failure, as_internal_failure}
use go_amizone.Client.Getters.{
  parse_page, page_request, get_attendance, get_current_examination_result, get_examination_result,
  get_exam_schedule, get_semesters, get_courses, get_current_courses, get_user_profile,
  current_courses_endpoint, courses_endpoint, semester_payload, as_visit_failure, profile_endpoint,
  exam_schedule_endpoint, current_examination_result_endpoint, examination_result_endpoint,
}

-- The portal's answer to the newest request, that the parser reads `a` from.
pub record Read {A : Type 0} (env : Env) (method endpoint : Text) (body : Option Text)
    (parse : Text → Result A) (s' : State) (a : A) : Type 0 where
  pub response : Response
  pub usable : Usable response
  pub asked : Last env method endpoint body [] s' response
  pub parsed : parse (unread response.body) ≡ ok a
  pub logged_in : s'.did_login ≡ true

module _ (env : Env) where
  page_request-Within :
      (method endpoint : Text) (body : Option Text) (g : Text → Text)
      → Within 4 (page_request env method endpoint body g)
  unfolding page_request
  page_request-Within method endpoint body g =
      Within-wrap 4 g (do_request env true method endpoint body)
        (λ s. do_request-Frame env method endpoint body [] true s)

  parse_page-Within :
      {A : Type 0} (parse : Text → Result A) (r : Response) → Within 0 (parse_page env parse r)
  unfolding parse_page
  parse_page-Within parse r s = ground arith

  received-Within :
      {A : Type 0} (method endpoint : Text) (body : Option Text) (g : Text → Text)
      (parse : Text → Result A)
      → Within 4 (page_request env method endpoint body g >>= parse_page env parse)
  received-Within method endpoint body g parse =
      Within-bind 4 0 (page_request env method endpoint body g) (parse_page env parse)
        (page_request-Within method endpoint body g) (parse_page-Within parse)

  received_ok :
      {A : Type 0} (method endpoint : Text) (body : Option Text) (g : Text → Text)
      (parse : Text → Result A) (s s' : State) (a : A)
      → (page_request env method endpoint body g >>= parse_page env parse) s ≡ (s', ok a)
      → Read env method endpoint body parse s' a
  unfolding page_request parse_page
  received_ok method endpoint body g parse s s' a e =
      let (t, r, received, read) =
        bind_ok (page_request env method endpoint body g) (parse_page env parse) s s' a e in
      let asked = wrap_ok g (do_request env true method endpoint body) s t r received in
      let (usable, logged, last) = do_request-Last env method endpoint body [] s t r asked in
      let lifted = wrap_ok as_internal_failure (lift (parse (unread r.body))) t s' a read in
      let kept : t ≡ s' = ap (λ p. p.0) lifted in
      record {
        response = r;
        usable = usable;
        asked = subst (λ x. Last env method endpoint body [] x r) kept last;
        parsed = ap (λ p. p.1) lifted;
        logged_in = ap (λ p. p.0.did_login) (sym lifted) ∙ logged;
      }

  attendance-Within : (atoi : Text → ℤ) → Within 4 (get_attendance env atoi)
  unfolding get_attendance
  attendance-Within atoi =
      received-Within method_get (codes "/Home") none as_fetch_failure (attendance env.html atoi)

module _ (env : Env) (lib : PageLib env.html) where
  open lib use {Float}

  -- In every getter the client calls http.Client.Do at most four times, and keeps didLogin and the
  -- credentials.
  pub getters-Within :
      (atoi : Text → ℤ) (semester_ref : Text)
      → Within 4 (get_attendance env atoi)
        × Within 4 (get_current_examination_result env lib)
        × Within 4 (get_examination_result env lib semester_ref)
        × Within 4 (get_exam_schedule env lib)
        × Within 4 (get_semesters env lib)
        × Within 4 (get_courses env lib semester_ref)
        × Within 4 (get_current_courses env lib)
        × Within 4 (get_user_profile env lib)
  unfolding get_current_examination_result get_examination_result get_exam_schedule get_semesters
      get_courses get_current_courses get_user_profile
  getters-Within atoi semester_ref = (
    attendance-Within env atoi,
    received-Within env method_get current_examination_result_endpoint none as_fetch_failure
        (examination_result env.html lib),
    received-Within env post examination_result_endpoint (semester_payload semester_ref)
        as_fetch_failure (examination_result env.html lib),
    received-Within env method_get exam_schedule_endpoint none as_visit_failure
        (examination_schedule env.html lib),
    received-Within env method_get current_courses_endpoint none as_visit_failure
        (semesters env.html lib),
    received-Within env post courses_endpoint (semester_payload semester_ref) as_fetch_failure
        (courses env.html lib),
    received-Within env method_get current_courses_endpoint none as_fetch_failure
        (courses env.html lib),
    received-Within env method_get profile_endpoint none as_fetch_failure (profile env.html lib),
  )

  -- The answer that courses were read from, and the request for it.
  pub record Listed (method endpoint : Text) (body : Option Text) (s' : State)
      (cs : List (Course Float)) : Type 0 where
    pub read : Read env method endpoint body (courses env.html lib) s' cs
    pub listing : Listing env.html lib (unread read.response.body) cs

  listed :
      (method endpoint : Text) (body : Option Text) (s' : State) (cs : List (Course Float))
      → Read env method endpoint body (courses env.html lib) s' cs
      → Listed method endpoint body s' cs
  listed method endpoint body s' cs r = record {
    read = r;
    listing = courses-Listing env.html lib (unread r.response.body) cs r.parsed;
  }

  -- When GetCourses or GetCurrentCourses succeeds, the newest request is a POST of the reference to
  -- the endpoint of all semesters, or a GET of that of the current one, and the portal answered it 200
  -- with a courses page of a user who is logged in, with one main table that has rows; the courses are
  -- those of the page's rows, and the client counts as logged in. The body is that of the call or, where
  -- a first request used it up, empty.
  pub get_courses-Listed :
      (s s' : State) (cs : List (Course Float))
      → ((semester_ref : Text)
          → get_courses env lib semester_ref s ≡ (s', ok cs)
          → Listed post courses_endpoint (semester_payload semester_ref) s' cs)
        × (get_current_courses env lib s ≡ (s', ok cs)
            → Listed method_get current_courses_endpoint none s' cs)
  unfolding get_courses get_current_courses
  get_courses-Listed s s' cs = (
    λ semester_ref e. listed post courses_endpoint (semester_payload semester_ref) s' cs (
        received_ok env post courses_endpoint (semester_payload semester_ref) as_fetch_failure
          (courses env.html lib) s s' cs e),
    λ e. listed method_get current_courses_endpoint none s' cs (
        received_ok env method_get current_courses_endpoint none as_fetch_failure
          (courses env.html lib) s s' cs e),
  )
