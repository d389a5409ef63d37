-- ===== src/Parse/Courses/Rows.antt =====
-- What the parser of the courses page returns.
use go_amizone.Base.{
  ◌≡◌, ◌<◌, true, List, some, inl, inr, Option-cases, Text, ok, map, length, arith,
}
use go_amizone.Base.Html.{Html}
use go_amizone.Parse.Library.{PageLib}
use go_amizone.Parse.Session.{is_logged_in_dom}
use go_amizone.Parse.Courses.{
  Course, courses, course_of, is_courses_page, primary_table, primary_entries, course_entries,
}

module _ (h : Html) (lib : PageLib h) where
  open h use {Node, parse_document}
  open lib use {Float}

  -- The courses are the rows of a courses page of a user who is logged in; its one main table has
  -- rows.
  pub record Listing (body : Text) (cs : List (Course Float)) : Type 0 where
    pub dom : Node
    pub parsed : parse_document body ≡ some dom
    pub logged_in : is_logged_in_dom h dom ≡ true
    pub courses_page : is_courses_page h lib dom ≡ true
    pub one_table : length (primary_table h lib dom) ≡ 1
    pub has_rows : 0 < length (primary_entries h lib dom)
    pub rows : cs ≡ map (course_of h lib) (course_entries h lib dom)

  pub courses-Listing :
      (body : Text) (cs : List (Course Float)) → courses h lib body ≡ ok cs → Listing body cs
  unfolding courses
  courses-Listing body cs e = elim (Option-cases (parse_document body)) [
    | inl n ↦ ground (arith, n, e)
    | inr (d, p) ↦ record {
      dom = d;
      parsed = p;
      logged_in = ground (arith, p, e);
      courses_page = ground (arith, p, e);
      one_table = ground (arith, p, e);
      has_rows = ground (arith, p, e);
      rows = ground (arith, p, e);
    }
  ]
