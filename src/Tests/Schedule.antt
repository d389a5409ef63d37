-- ===== src/Tests/Schedule.antt =====
-- The schedule of a day on three diary events, with insertion sort for `sort.Slice`.
use mathlib.Core.List.{Permᴰ}
use mathlib.Core.List.Permᴰ
use go_amizone.Base.{
  ◌+◌, ◌%◌, ◌≡◌, ◌≢◌, refl, Bool, true, false, List, [], ◌∷◌, Text, codes, none, some, ok, fail,
  All, hours, if◌then◌else◌, text_eq, map, Result, ◌<◌,
}
use go_amizone.Base.Sort.{SortSlice, Pairwise}
use go_amizone.Parse.Schedule.{
  ScheduledClass, AmizoneDiaryEvent, ScheduleLib, class_schedule, attendance_state, is_cancelled,
  absent, filter_by_date,
}
use go_amizone.Client.Types.{Env, State, Response}
use go_amizone.Client.Request.{unread}
use go_amizone.Client.Retry.{do_request_with_headers}
use go_amizone.Client.Schedule.{get_class_schedule, schedule_request}
use go_amizone.Client.Schedule.Outcome.{get_class_schedule_ok}
use go_amizone.Parse.Schedule.Day.{IsDay, filter_by_date_midnight}

module _ {A : Type 0} (less : A → A → Bool) where
  abbrev put : A → List A → List A
  put x [] = x ∷ []
  put x (y ∷ ys) = let rest : List A = put x ys in if less y x then y ∷ rest else x ∷ y ∷ ys

  abbrev insertion_sort : List A → List A
  insertion_sort [] = []
  insertion_sort (x ∷ xs) = put x (insertion_sort xs)

  pick-Permᴰ :
      (u : Bool) (x y : A) (ys rest : List A)
      → Permᴰ rest (x ∷ ys)
      → Permᴰ (if u then y ∷ rest else x ∷ y ∷ ys) (x ∷ y ∷ ys)
  pick-Permᴰ true x y ys rest d = Permᴰ.trans (Permᴰ.cons refl d) (Permᴰ.swap refl refl)
  pick-Permᴰ false x y ys rest d = Permᴰ.refl (x ∷ y ∷ ys)

  put-Permᴰ : (x : A) (ys : List A) → Permᴰ (put x ys) (x ∷ ys)
  put-Permᴰ x [] = Permᴰ.refl (x ∷ [])
  put-Permᴰ x (y ∷ ys) = pick-Permᴰ (less y x) x y ys (put x ys) (put-Permᴰ x ys)

  pub insertion_sort-Permᴰ : (xs : List A) → Permᴰ (insertion_sort xs) xs
  insertion_sort-Permᴰ [] = Permᴰ.nil
  insertion_sort-Permᴰ (x ∷ xs) =
      Permᴰ.trans (put-Permᴰ x (insertion_sort xs)) (Permᴰ.cons refl (insertion_sort-Permᴰ xs))

  module _ (asym : (a b : A) → less a b ≡ true → less b a ≡ false)
      (comp : (a b c : A) → less b a ≡ false → less c b ≡ false → less c a ≡ false) where
    abbrev Stays : A → A → Type 0
    Stays a b = less b a ≡ false

    pick-All :
        (P : A → Type 0) (u : Bool) (x y : A) (ys rest : List A)
        → P x
        → P y
        → All P ys
        → All P rest
        → All P (if u then y ∷ rest else x ∷ y ∷ ys)
    pick-All P true x y ys rest hx hy hs hr = (hy, hr)
    pick-All P false x y ys rest hx hy hs hr = (hx, (hy, hs))

    put-All : (P : A → Type 0) (x : A) (ys : List A) → P x → All P ys → All P (put x ys)
    put-All P x [] hx h = (hx, _)
    put-All P x (y ∷ ys) hx (hy, hs) =
        pick-All P (less y x) x y ys (put x ys) hx hy hs (put-All P x ys hx hs)

    below-All : (x y : A) (ys : List A) → Stays x y → All (Stays y) ys → All (Stays x) ys
    below-All x y [] h hs = _
    below-All x y (z ∷ ys) h (hz, hs) = (comp x y z h hz, below-All x y ys h hs)

    pick-Pairwise :
        (u : Bool) (x y : A) (ys rest : List A)
        → less y x ≡ u
        → All (Stays y) ys
        → Pairwise Stays ys
        → (Stays y x → All (Stays y) rest)
        → Pairwise Stays rest
        → Pairwise Stays (if u then y ∷ rest else x ∷ y ∷ ys)
    pick-Pairwise true x y ys rest e hy hs hr hp = (hr (asym y x e), hp)
    pick-Pairwise false x y ys rest e hy hs hr hp = ((e, below-All x y ys e hy), (hy, hs))

    put-Pairwise : (x : A) (ys : List A) → Pairwise Stays ys → Pairwise Stays (put x ys)
    put-Pairwise x [] h = (_, _)
    put-Pairwise x (y ∷ ys) (hy, hs) =
        pick-Pairwise (less y x) x y ys (put x ys) refl hy hs (λ h. put-All (Stays y) x ys h hy)
          (put-Pairwise x ys hs)

    pub insertion_sort-Pairwise : (xs : List A) → Pairwise Stays (insertion_sort xs)
    insertion_sort-Pairwise [] = _
    insertion_sort-Pairwise (x ∷ xs) =
        put-Pairwise x (insertion_sort xs) (insertion_sort-Pairwise xs)

abbrev sorting : SortSlice
sorting = record {
  sort_slice = λ {A}. insertion_sort;
  permutes = λ {A}. insertion_sort-Permᴰ;
  orders = λ {A} less asym comp xs. insertion_sort-Pairwise less asym comp xs;
}

abbrev event : Text → Text → AmizoneDiaryEvent
event type start = record {
  type = type;
  course_name = codes "Compilers ";
  course_code = codes "CSE3";
  class_name = codes "StrikeOutClass";
  faculty = [];
  room = codes "E2";
  start = start;
  end = [];
  attendance_color = codes "#f00";
}

-- Two classes on day 2 out of order, a holiday, and a class at midnight.
abbrev events : List AmizoneDiaryEvent
events =
    event (codes "C") (codes "late")
    ∷ event (codes "H") (codes "early")
    ∷ event (codes "C") (codes "early")
    ∷ event (codes "C") (codes "midnight")
    ∷ []

abbrev pub library : ScheduleLib
library = record {
  decode_events = λ body. ok events;
  time_parse = λ text.
      if text_eq text (codes "late")
      then some (hours 62)
      else (if text_eq text (codes "early")
          then some (hours 57)
          else if text_eq text (codes "midnight")
          then some (hours 48)
          else none);
  markup = record { quote = λ t. t; unquote = λ t. ok t; unescape = λ t. t; sanitize = λ t. t };
  sort_lib = sorting;
}

abbrev parsed : List ScheduledClass
parsed = elim (class_schedule library []) [ ok s ↦ s | _ ↦ [] ]

starts_test : map ScheduledClass.start_time parsed ≡ hours 48 ∷ hours 57 ∷ hours 62 ∷ []
unfolding class_schedule text_eq
starts_test = refl

state_test : attendance_state (event [] []) ≡ absent
unfolding attendance_state
state_test = refl

cancelled_test : is_cancelled (event [] []) ≡ true
unfolding is_cancelled
cancelled_test = refl

filter_by_date_midnight_example :
    All (λ class. class.start_time % hours 24 ≢ 0) (filter_by_date parsed (hours 48))
filter_by_date_midnight_example = filter_by_date_midnight parsed (hours 48)

-- A portal that shows no login form, and a client that has logged in.
abbrev open_portal : Env
open_portal = record {
  html = record {
    Node = Text;
    parse_document = λ body. some body;
    parse_error = λ body. [];
    find = λ sel name. [];
    filter_by = λ sel name. sel;
    children = λ sel. [];
    parent = λ sel. [];
    node_attr = λ n name. none;
    node_text = λ n. n;
    node_name = λ n. [];
  };
  clock = λ n. hours 10;
  transport = λ reqs. ok record { status_code = 200; path = codes "/"; body = some (codes "[]") };
  cookies = λ reqs. none;
  composes = λ m u. true;
  solve_turnstile = λ reqs u key. fail [];
}

abbrev logged_in : State
logged_in = record {
  credentials = record { username = codes "ann"; password = codes "p" };
  has_capsolver = false;
  last_attempt = 0;
  last_login_success = 0;
  did_login = true;
  sent = [];
  reads = 0;
  login_records = [];
}

abbrev served : State × Result (List ScheduledClass)
served = get_class_schedule open_portal library (λ t. []) (hours 48) logged_in

abbrev day_classes : List ScheduledClass
day_classes = elim served.1 [ ok cs ↦ cs | _ ↦ [] ]

get_class_schedule_ok_example :
    (response : Response) × (es : List AmizoneDiaryEvent) × (schedule_request open_portal library
        (λ t. [])
        (hours 48)
        logged_in
      ≡ (served.0, ok response))
    × (library.decode_events (unread response.body) ≡ ok es)
    × IsDay library es (hours 48) day_classes
    × All (λ c. (hours 48 < c.start_time) × (c.start_time < hours 48 + hours 24)) day_classes
unfolding get_class_schedule text_eq do_request_with_headers
get_class_schedule_ok_example =
    get_class_schedule_ok open_portal library (λ t. []) (hours 48) logged_in served.0 day_classes
      refl refl
