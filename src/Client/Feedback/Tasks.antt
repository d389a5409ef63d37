-- ===== src/Client/Feedback/Tasks.antt =====
-- The tasks of a pool: their work, and those that have not ended.
use go_amizone.Base.{
  ℕ, suc, ◌+◌, ◌*◌, ◌≡◌, ◌<◌, refl, ap, List, [], ◌∷◌, ◌++◌, Result, ok, fail, panic, arith, length,
  All, ◌==◌, if◌then◌else◌,
}
use go_amizone.Parse.Feedback.{FacultyFeedbackSpec}
use go_amizone.Client.Types.{State, Response}
use go_amizone.Client.Feedback.Submissions.{
  Task, fetching, sending, finished, crashed, Pool, work, remaining, after_send, start, signal,
}

pub remaining-append : (xs ys : List Task) → remaining (xs ++ ys) ≡ remaining xs + remaining ys
remaining-append [] ys = omega arith
remaining-append (x ∷ xs) ys = omega (arith, remaining-append xs ys)

pub work-after_send : (r : Result Response) → work (after_send r) ≡ 0
work-after_send (ok response) = refl
work-after_send (fail e) = refl
work-after_send panic = refl

-- The goroutines that have not ended.
abbrev pub unfinished : List Task → ℕ
unfinished [] = 0
unfinished (t ∷ ts) = (if work t == 0 then 0 else 1) + unfinished ts

pub unfinished-append : (xs ys : List Task) → unfinished (xs ++ ys) ≡ unfinished xs + unfinished ys
unfinished-append [] ys = omega arith
unfinished-append (x ∷ xs) ys = omega (arith, unfinished-append xs ys)

pub unfinished_none : (tasks : List Task) → unfinished tasks ≡ 0 → All (λ t. work t ≡ 0) tasks
unfinished_none [] h = tt
unfinished_none (fetching spec ∷ tasks) h = ground (arith, h)
unfinished_none (sending form ∷ tasks) h = ground (arith, h)
unfinished_none (finished ∷ tasks) h = (refl, unfinished_none tasks (omega (arith, h)))
unfinished_none (crashed ∷ tasks) h = (refl, unfinished_none tasks (omega (arith, h)))

pub unfinished_some : (tasks : List Task) → 0 < unfinished tasks → 0 < remaining tasks
unfinished_some [] h = omega (arith, h)
unfinished_some (fetching spec ∷ tasks) h = omega arith
unfinished_some (sending form ∷ tasks) h = omega arith
unfinished_some (finished ∷ tasks) h = omega (arith, unfinished_some tasks (omega (arith, h)))
unfinished_some (crashed ∷ tasks) h = omega (arith, unfinished_some tasks (omega (arith, h)))

-- The counter of the WaitGroup is the number of goroutines that have not ended.
abbrev pub Agrees : Pool → Type 0
Agrees p = unfinished p.tasks ≡ p.wait_count

pub signalled :
    (before : List Task) (task now : Task) (after : List Task) (count : ℕ)
    → 0 < work task
    → unfinished (before ++ (task ∷ after)) ≡ count
    → unfinished (before ++ (now ∷ after)) ≡ signal now count
unfolding signal
signalled before task now after count running agrees = ground (
  arith,
  running,
  agrees,
  unfinished-append before (task ∷ after),
  unfinished-append before (now ∷ after),
)

-- A task that is not done, where work remains.
pub running_task :
    (tasks : List Task)
    → 0 < remaining tasks
    → (before : List Task) × (task : Task) × (after : List Task) × (left : ℕ) × (tasks
        ≡ before ++ (task ∷ after))
      × (work task ≡ suc left)
running_task [] h = ground (arith, h)
running_task (fetching spec ∷ tasks) h = ([], fetching spec, tasks, 1, refl, refl)
running_task (sending form ∷ tasks) h = ([], sending form, tasks, 0, refl, refl)
running_task (finished ∷ tasks) h =
    let (before, task, after, left, same, busy) = running_task tasks (omega (arith, h)) in
    (finished ∷ before, task, after, left, ap (λ ts. finished ∷ ts) same, busy)
running_task (crashed ∷ tasks) h =
    let (before, task, after, left, same, busy) = running_task tasks (omega (arith, h)) in
    (crashed ∷ before, task, after, left, ap (λ ts. crashed ∷ ts) same, busy)

pub start_lem :
    (s : State) (specs : List FacultyFeedbackSpec)
    → (remaining (start s specs).tasks ≡ 2 * length specs)
      × (unfinished (start s specs).tasks ≡ (start s specs).wait_count)
      × (length (start s specs).tasks ≡ length specs)
      × ((start s specs).client ≡ s)
start_lem s [] = (omega arith, refl, refl, refl)
start_lem s (spec ∷ specs) =
    let (a, b, c, d) = start_lem s specs in (omega (arith, a), omega (arith, b), ap suc c, refl)
