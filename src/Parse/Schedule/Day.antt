-- ===== src/Parse/Schedule/Day.antt =====
-- The schedule of one day: what `FilterByDate` keeps of a parsed schedule.
use mathlib.Core.List.{Permᴰ}
use go_amizone.Base.{
  ℕ, ◌≤◌, ◌%◌, ◌≡◌, ◌≢◌, true, false, List, Text, ok, Result-cases, arith, inl, inr, hours, All,
  ltb, select, ◌&&◌, ◌-◌, map, codes, text_eq, refl, subst,
}
use go_amizone.Base.Sort.{Pairwise, select-Permᴰ, select-Pairwise, select_passed, Pairwise-map}
use go_amizone.Parse.Schedule.{
  ScheduledClass, AmizoneDiaryEvent, ScheduleLib, class_schedule, classes_of, class_of,
  filter_by_date, is_within, truncate_day, sort, starts_before,
}

abbrev pub StartsNoLater : ScheduledClass → ScheduledClass → Type 0
StartsNoLater a b = a.start_time ≤ b.start_time

off_midnight :
    (t start : ℕ)
    → (ltb (truncate_day t) start && ltb (start - truncate_day t) (hours 24)) ≡ true
    → start % hours 24 ≢ 0
off_midnight t start h = ground arith

-- A class that starts at a full day is on no day's schedule.
pub filter_by_date_midnight :
    (s : List ScheduledClass) (t : ℕ)
    → All (λ class. class.start_time % hours 24 ≢ 0) (filter_by_date s t)
unfolding filter_by_date
filter_by_date_midnight s t =
    select_passed (is_within (truncate_day t)) (λ class. class.start_time % hours 24 ≢ 0)
      (λ class h. off_midnight t class.start_time h) s

module _ (lib : ScheduleLib) where
  before_false : (a b : ScheduledClass) → starts_before b a ≡ false → StartsNoLater a b
  before_false a b h = ground arith

  sort-Pairwise : (s : List ScheduledClass) → Pairwise StartsNoLater (sort lib.sort_lib s)
  unfolding sort
  sort-Pairwise s =
      Pairwise-map (λ a b. starts_before b a ≡ false) StartsNoLater before_false
        (lib.sort_lib.sort_slice starts_before s)
        (lib.sort_lib.orders starts_before (λ a b h. ground arith) (λ a b c h k. ground arith) s)

  classes_of_lem :
      (events : List AmizoneDiaryEvent)
      → classes_of lib events ≡ map (class_of lib) (select (λ e. text_eq e.type (codes "C")) events)
  unfolding classes_of
  classes_of_lem List.[] = refl
  classes_of_lem (List.◌∷◌ e events) = ground (arith, classes_of_lem events)

  -- The conclusion of the next theorem, for a list of the classes.
  abbrev pub IsDay : List AmizoneDiaryEvent → ℕ → List ScheduledClass → Type 0
  IsDay events t day =
      Permᴰ day (
        select (is_within (truncate_day t))
          (map (class_of lib) (select (λ e. text_eq e.type (codes "C")) events)))
      × Pairwise StartsNoLater day

  sorted-IsDay :
      (events : List AmizoneDiaryEvent) (t : ℕ)
      → IsDay events t (filter_by_date (sort lib.sort_lib (classes_of lib events)) t)
  unfolding filter_by_date sort
  sorted-IsDay events t =
      let p = is_within (truncate_day t) in
      (
        subst (λ cs. Permᴰ (select p (sort lib.sort_lib (classes_of lib events))) (select p cs))
            (classes_of_lem events)
            (select-Permᴰ p (lib.sort_lib.permutes starts_before (classes_of lib events))),
        select-Pairwise p StartsNoLater (sort lib.sort_lib (classes_of lib events))
            (sort-Pairwise (classes_of lib events)),
      )

  sorted_eq :
      (body : Text) (s : List ScheduledClass) (events : List AmizoneDiaryEvent)
      → class_schedule lib body ≡ ok s
      → lib.decode_events body ≡ ok events
      → sort lib.sort_lib (classes_of lib events) ≡ s
  unfolding class_schedule
  sorted_eq body s events h e = ground (arith, h, e)

  -- A parsed schedule, filtered by the date of `t`, holds exactly the "C" events that start strictly
  -- between the two midnights around it, converted, as often as the portal sent them, and in the
  -- order of their starts.
  pub class_schedule-IsDay :
      (body : Text) (t : ℕ) (s : List ScheduledClass)
      → class_schedule lib body ≡ ok s
      → (events : List AmizoneDiaryEvent) × ((lib.decode_events body ≡ ok events)
          × IsDay events t (filter_by_date s t))
  unfolding class_schedule
  class_schedule-IsDay body t s h = elim (Result-cases (lib.decode_events body)) [
    | inl (events, e) ↦ (
      events,
      (
        e,
        subst (λ z. IsDay events t (filter_by_date z t)) (sorted_eq body s events h e)
            (sorted-IsDay events t),
      ),
    )
    | inr (inl (err, e)) ↦ ground (arith, h, e)
    | inr (inr e) ↦ ground (arith, h, e)
  ]
