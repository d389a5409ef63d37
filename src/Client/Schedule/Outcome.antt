-- ===== src/Client/Schedule/Outcome.antt =====
-- What `GetClassSchedule` returns.
use go_amizone.Base.{
  ℕ, ◌≡◌, ◌∙◌, ap, subst, List, Text, ok, arith, hours, ◌+◌, ◌<◌, ◌%◌, ◌-◌, ltb, ◌&&◌, true, All,
}
use go_amizone.Base.Sort.{select_passed}
use go_amizone.Parse.Schedule.{
  ScheduledClass, AmizoneDiaryEvent, ScheduleLib, class_schedule, filter_by_date, truncate_day,
  is_within,
}
use go_amizone.Parse.Schedule.Day.{IsDay, class_schedule-IsDay}
use go_amizone.Client.Types.{Env, State, Response, ◌>>=◌, return, lift}
use go_amizone.Client.Request.{unread}
use go_amizone.Client.Request.Answers.{bind_ok, wrap_ok}
use go_amizone.Client.Schedule.{
  get_class_schedule, schedule_request, parse_schedule, as_page_failure,
}

on_day :
    (time_from start : ℕ)
    → time_from % hours 24 ≡ 0
    → (ltb (truncate_day time_from) start && ltb (start - truncate_day time_from) (hours 24)) ≡ true
    → (time_from < start) × (start < time_from + hours 24)
on_day time_from start midnight h = (ground arith, ground arith)

module _ (env : Env) (lib : ScheduleLib) (format_date : ℕ → Text) where
  -- When `GetClassSchedule` succeeds for a midnight, the portal's answer holds events of which it
  -- returns the classes of that day, sorted by start and none lost or repeated, and each of them
  -- starts strictly between that midnight and the next.
  pub get_class_schedule_ok :
      (time_from : ℕ) (s s' : State) (classes : List ScheduledClass)
      → time_from % hours 24 ≡ 0
      → get_class_schedule env lib format_date time_from s ≡ (s', ok classes)
      → (response : Response) × (events : List AmizoneDiaryEvent) × (schedule_request env lib
            format_date time_from s
          ≡ (s', ok response))
        × (lib.decode_events (unread response.body) ≡ ok events)
        × IsDay lib events time_from classes
        × All (λ c. (time_from < c.start_time) × (c.start_time < time_from + hours 24)) classes
  unfolding get_class_schedule parse_schedule filter_by_date
  get_class_schedule_ok time_from s s' classes midnight e =
      let (t, all, parsed, filtered) =
        bind_ok
          (schedule_request env lib format_date time_from >>= parse_schedule env lib format_date)
          (λ x. return (filter_by_date x time_from)) s s' classes e in
      let (u, response, received, read) =
        bind_ok (schedule_request env lib format_date time_from)
          (parse_schedule env lib format_date) s t all parsed in
      let lifted =
        wrap_ok as_page_failure (lift (class_schedule lib (unread response.body))) u t all read in
      let (events, (decoded, day)) =
        class_schedule-IsDay lib (unread response.body) time_from all (ap (λ p. p.1) lifted) in
      let last : u ≡ s' = ap (λ p. p.0) lifted ∙ ap (λ p. p.0) filtered in
      let result : filter_by_date all time_from ≡ classes = ground (arith, filtered) in
      (
        response,
        events,
        subst (λ z. schedule_request env lib format_date time_from s ≡ (z, ok response)) last
            received,
        decoded,
        subst (IsDay lib events time_from) result day,
        subst (All (λ c. (time_from < c.start_time) × (c.start_time < time_from + hours 24))) result
            (select_passed (is_within (truncate_day time_from))
              (λ c. (time_from < c.start_time) × (c.start_time < time_from + hours 24))
              (λ c h. on_day time_from c.start_time midnight h) all),
      )
