-- ===== src/Client/Schedule.antt =====
-- amizone/amizone.go: `GetClassSchedule`.
pub mod Outcome
use go_amizone.Base.{ℕ, ◌+◌, List, ◌++◌, Text, codes, true, none, hours}
use go_amizone.Parse.Schedule.{ScheduledClass, ScheduleLib, class_schedule, filter_by_date}
use go_amizone.Client.Types.{Env, Response, M, ◌>>=◌, return, wrap, lift}
use go_amizone.Client.Request.{unread, method_get}
use go_amizone.Client.Retry.{do_request}
use go_amizone.Client.Wifi.{as_fetch_failure, as_internal_failure}

-- `Sprintf("%s: %w", ErrFailedToParsePage, err)`
abbrev pub as_page_failure : Text → Text
as_page_failure e = as_internal_failure (codes "failed to parse page: " ++ e)

module _ (env : Env) (lib : ScheduleLib) (format_date : ℕ → Text) where
  -- `format_date` is `Format("2006-01-02")`.
  unfoldable pub schedule_endpoint : ℕ → Text
  schedule_endpoint time_from =
      codes "/Calendar/home/GetDiaryEvents?start="
      ++ (format_date time_from ++ (codes "&end=" ++ format_date (time_from + hours 24)))

  unfoldable pub schedule_request : ℕ → M Response
  unfolding schedule_endpoint
  schedule_request time_from =
      wrap as_fetch_failure (do_request env true method_get (schedule_endpoint time_from) none)

  unfoldable pub parse_schedule : Response → M (List ScheduledClass)
  unfolding class_schedule
  parse_schedule response = wrap as_page_failure (lift (class_schedule lib (unread response.body)))

  -- `time_from` is the midnight that `time.Date` gives.
  unfoldable pub get_class_schedule : ℕ → M (List ScheduledClass)
  unfolding schedule_request parse_schedule filter_by_date
  get_class_schedule time_from =
      schedule_request time_from >>= parse_schedule >>= λ s. return (filter_by_date s time_from)
