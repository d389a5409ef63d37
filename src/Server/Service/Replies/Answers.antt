-- ===== src/Server/Service/Replies/Answers.antt =====
-- What the service's messages hold: the courses of a page, the classes of a day.
use go_amizone.Base.{
  ◌+◌, ◌%◌, ◌<◌, ◌≡◌, refl, ap, false, List, [], ◌∷◌, some, Text, codes, Result, ok, fail, panic,
  is_empty, hours, All, arith,
}
use go_amizone.Parse.Schedule.{ScheduledClass, AmizoneDiaryEvent}
use go_amizone.Parse.Schedule.Day.{IsDay}
use go_amizone.Parse.Courses.{Course}
use go_amizone.Client.Types.{Env, State, Response, M}
use go_amizone.Client.Request.{unread, post}
use go_amizone.Client.Schedule.{get_class_schedule}
use go_amizone.Client.Schedule.Outcome.{get_class_schedule_ok}
use go_amizone.Client.Getters.{get_courses, courses_endpoint, semester_payload}
use go_amizone.Client.Getters.Outcome.{Listed, get_courses-Listed}
use go_amizone.Server.Service.{
  message, internal, unauthenticated, ServiceLib, with_client, bad_request, answer, status_error,
  serve_courses, serve_class_schedule, day_of,
}
use go_amizone.Server.ToProto.{courses, scheduled_classes}
use go_amizone.Server.Messages.{Date, V1Course, V1ScheduledClass}

-- A message is the transformed result of the client's method.
answered :
    {A B : Type 0} (prefix : Text) (transform : A → B) (r : Result A) (v : B)
    → answer (status_error internal prefix) transform r ≡ message v
    → (a : A) × (r ≡ ok a) × (v ≡ transform a)
unfolding answer
answered prefix transform (ok a) v e = (a, refl, ground (arith, e))
answered prefix transform (fail x) v e = ground (arith, e)
answered prefix transform panic v e = ground (arith, e)

served :
    {A B : Type 0} (call : M A) (prefix : Text) (transform : A → B) (s s' : State) (v : B)
    → with_client unauthenticated call (status_error internal prefix) transform (some s)
      ≡ (some s', message v)
    → (a : A) × (call s ≡ (s', ok a)) × (v ≡ transform a)
unfolding with_client
served call prefix transform s s' v e =
    let (a, result, same) = answered prefix transform (call s).1 v (ap (λ p. p.1) e) in
    let state : (call s).0 ≡ s' = ground (arith, e) in (a, λ i. (state i, result i), same)

module _ (env : Env) (lib : ServiceLib env) where
  open lib use {pages, schedules, format_date, proto}
  open pages use {Float}
  open proto use {Timestamp}

  -- A message with courses means that the request had a semester reference, that the client's newest
  -- request is the POST of that reference to the courses' endpoint (with an empty body where a first
  -- request used it up), and that the portal's answer to it has the status 200 and is a courses page of
  -- a user who is logged in; the message holds the courses of its rows, each transformed.
  pub serve_courses-Listed :
      (semester_ref : Text) (s s' : State) (v : List (V1Course Float))
      → serve_courses env lib semester_ref (some s) ≡ (some s', message v)
      → (cs : List (Course Float)) × (is_empty semester_ref ≡ false)
        × (v ≡ courses cs)
        × Listed env pages post courses_endpoint (semester_payload semester_ref) s' cs
  unfolding serve_courses bad_request
  serve_courses-Listed [] s s' v e = ground (arith, e)
  serve_courses-Listed (c ∷ semester_ref) s s' v e =
      let (cs, got, same) =
        served (get_courses env pages (c ∷ semester_ref)) (codes "failed to retrieve courses: ")
          courses s s' v e in
      (cs, refl, same, (get_courses-Listed env pages s s' cs).0 (c ∷ semester_ref) got)

  -- A message with classes holds those of the day that the request names: each starts strictly
  -- between its midnight and the next, and they are the classes of that day among the events that the
  -- portal answered with.
  pub serve_class_schedule_ok :
      (date : Date) (s s' : State) (v : List (V1ScheduledClass Timestamp))
      → day_of env lib date % hours 24 ≡ 0
      → serve_class_schedule env lib (some date) (some s) ≡ (some s', message v)
      → (classes : List ScheduledClass) × (response : Response) × (events : List AmizoneDiaryEvent)
        × (v ≡ scheduled_classes proto classes)
        × (schedules.decode_events (unread response.body) ≡ ok events)
        × IsDay schedules events (day_of env lib date) classes
        × All
            (λ c.
              (day_of env lib date < c.start_time)
              × (c.start_time < day_of env lib date + hours 24))
            classes
  unfolding serve_class_schedule
  serve_class_schedule_ok date s s' v midnight e =
      let (classes, got, same) =
        served (get_class_schedule env schedules format_date (day_of env lib date))
          (codes "failed to retrieve class schedule: ") (scheduled_classes proto) s s' v e in
      let (response, events, asked, decoded, day, within) =
        get_class_schedule_ok env schedules format_date (day_of env lib date) s s' classes midnight
          got in
      (classes, response, events, same, decoded, day, within)
