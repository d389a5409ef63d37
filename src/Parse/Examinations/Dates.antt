-- ===== src/Parse/Examinations/Dates.antt =====
-- Publish dates that do not parse.
use go_amizone.Base.{
  ◌≡◌, refl, Bool, true, false, not, List, [], ◌∷◌, some, inl, inr, Option-cases, Bool-cases, Text,
  codes, ok, panic, any, ◌↔◌, arith,
}
use go_amizone.Base.Html.{Html}
use go_amizone.Parse.Library.{PageLib}
use go_amizone.Parse.Courses.{cell_text}
use go_amizone.Parse.Session.{is_logged_in_dom}
use go_amizone.Parse.Examinations.{
  has_date, course_result, publish_date, result_of, course_wise_of, course_rows, results_in,
  examination_result, ExamResultRecord,
}

module _ (h : Html) (lib : PageLib h) where
  open h use {Node, parse_document, find, children}

  -- Whether some row has no date that parses.
  abbrev pub lacks_date : List Node → Bool
  lacks_date = any (λ row. not (has_date h lib row))

  result_of-date :
      (row : Node)
      → (has_date h lib row ≡ true → (r : ExamResultRecord) × (result_of h lib row ≡ ok r))
        × (has_date h lib row ≡ false → result_of h lib row ≡ panic)
  unfolding result_of has_date publish_date
  result_of-date row =
      elim (Option-cases
        (lib.time_parse (codes "02/01/2006") (cell_text h lib row (codes "PublishDate")))) [
          | inl e ↦ (λ d. ground (arith, e, d), λ d. ground (arith, e))
          | inr (t, e) ↦
              (λ d. (course_result h lib row t, ground (arith, e)), λ d. ground (arith, e, d))
        ]

  course_wise_of-date :
      (rows : List Node)
      → (lacks_date rows ≡ false
          → (rs : List ExamResultRecord) × (course_wise_of h lib rows ≡ ok rs))
        × (lacks_date rows ≡ true → course_wise_of h lib rows ≡ panic)
  unfolding course_wise_of
  course_wise_of-date [] = (λ d. ([], refl), λ d. ground (arith, d))
  course_wise_of-date (row ∷ rows) = elim (Bool-cases (has_date h lib row)) [
    | inr e ↦ (λ d. ground (arith, e, d), λ d. rw ((result_of-date row).1 e) refl)
    | inl e ↦
        let (r, same) = (result_of-date row).0 e in
        (
          λ d.
              let (rs, others) = (course_wise_of-date rows).0 (ground (arith, e, d)) in
              (r ∷ rs, rw (same, others) refl),
          λ d. rw (same, (course_wise_of-date rows).1 (ground (arith, e, d))) refl,
        )
  ]

  -- On a result page of a user, with its two tables, the parser panics exactly if some row of the
  -- course table has a publish date that does not parse.
  pub examination_result-panic :
      (body : Text) (dom course_table overall_table : Node)
      → parse_document body ≡ some dom
      → is_logged_in_dom h dom ≡ true
      → children (find (dom ∷ []) (codes "div#no-more-tables")) ≡ course_table ∷ overall_table ∷ []
      → (examination_result h lib body ≡ panic)
        ↔ (lacks_date (course_rows h lib course_table) ≡ true)
  unfolding examination_result results_in
  examination_result-panic body dom course_table overall_table parsed logged tables =
      elim (Bool-cases (lacks_date (course_rows h lib course_table))) [
        | inl d ↦
            let dead = (course_wise_of-date (course_rows h lib course_table)).1 d in
            (λ _. d, λ _. ground (arith, parsed, logged, tables, dead))
        | inr d ↦
            let (rs, alive) = (course_wise_of-date (course_rows h lib course_table)).0 d in
            (λ e. ground (arith, e, parsed, logged, tables, alive), λ e. ground (arith, d, e))
      ]
