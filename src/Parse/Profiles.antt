-- ===== src/Parse/Profiles.antt =====
-- amizone/internal/parse/profile.go: the user's profile, from the ID card or from the dashboard.
pub mod Card
use go_amizone.Base.{
  ℕ, Bool, not, List, [], ◌∷◌, ◌++◌, Option, none, some, Text, codes, Result, ok, fail, text_eq,
  contains, length, ◌==◌, if◌then◌else◌,
}
use go_amizone.Base.Html.{Html, text_of, attr}
use go_amizone.Parse.Attendance.{split}
use go_amizone.Parse.Clean.{clean_string}
use go_amizone.Parse.Library.{PageLib, find_string}
use go_amizone.Parse.Session.{is_logged_in_dom}

pub record Profile : Type 0 where
  pub name : Text
  pub enrollment_number : Text
  pub enrollment_validity : ℕ
  pub batch : Text
  pub program : Text
  pub date_of_birth : ℕ
  pub blood_group : Text
  pub id_card_number : Text
  pub uuid : Text

-- `models.Profile{}`; 0 is the zero time.
abbrev pub empty_profile : Profile
empty_profile = record {
  name = [];
  enrollment_number = [];
  enrollment_validity = 0;
  batch = [];
  program = [];
  date_of_birth = 0;
  blood_group = [];
  id_card_number = [];
  uuid = [];
}

abbrev newline : ℕ
newline = 10

module _ (h : Html) (lib : PageLib h) where
  open h use {Node, parse_document, parse_error, find}
  open lib use {markup, text_with_lines, text_without, time_parse}

  abbrev clean : Text → Text
  unfolding clean_string
  clean s = clean_string markup s []

  abbrev breadcrumb : Node → Text
  unfolding clean_string
  breadcrumb dom = clean (text_of h (find (dom ∷ []) (codes "ul.breadcrumb li.active")))

  unfoldable pub is_id_card_page : Node → Bool
  unfolding clean_string text_eq
  is_id_card_page dom = text_eq (breadcrumb dom) (codes "ID Card View")

  unfoldable pub is_not_applicable_page : Node → Bool
  unfolding clean_string contains
  is_not_applicable_page dom = contains (clean (text_of h (dom ∷ []))) (codes "Not Applicable")

  -- The student's UUID in the address of a photo.
  abbrev uuid_in : Option Text → Text
  uuid_in none = []
  uuid_in (some url) = find_string lib (codes "\\w{8}-\\w{4}-\\w{4}-\\w{4}-\\w{12}") url

  unfoldable pub parse_dashboard_profile : Node → Result Profile
  unfolding clean_string
  parse_dashboard_profile dom =
      let info = find (dom ∷ []) (codes "span.user-info") in
      if length info == 0
      then fail (codes "failed to find profile info on dashboard")
      else ok record empty_profile {
        enrollment_number = clean (text_of h (find info (codes "small")));
        name = clean (text_without info (codes "small"));
        uuid = uuid_in (attr h (find (dom ∷ []) (codes "#userphoto img")) (codes "src"));
      }

  -- Name, course and batch: the three lines on the front of the card.
  three_lines : Text → List Text → Text × Text × Text
  unfolding clean_string
  three_lines name (course ∷ batch ∷ []) = (clean name, clean course, clean batch)
  three_lines name _ = ([], [], [])

  front_of : Node → Text × Text × Text
  unfolding three_lines split clean_string
  front_of dom =
      let all = clean (text_with_lines (find (dom ∷ []) (codes "#lblNameIDCardFront1"))) in
      let (name, others) = split all newline in three_lines name others

  -- The cases of the switch on a label, with the value behind it.
  unfoldable pub set_field : Text → Text → Profile → Profile
  unfolding text_eq
  set_field label value p =
      if text_eq label (codes "Enrollment No")
      then record p { enrollment_number = value }
      else (if text_eq label (codes "Date Of Birth")
          then elim (time_parse (codes "02.01.2006") value) [
            | none ↦ p
            | some t ↦ record p { date_of_birth = t }
          ]
          else (if text_eq label (codes "Blood Group")
              then record p { blood_group = value }
              else (if text_eq label (codes "Validity")
                  then elim (time_parse (codes "02.01.2006") value) [
                    | none ↦ p
                    | some t ↦ record p { enrollment_validity = t }
                  ]
                  else (if text_eq label (codes "ID Card No")
                      then record p { id_card_number = value }
                      else p))))

  unfoldable pub label_of : Text → Text
  unfolding clean_string
  label_of line = clean_string markup (find_string lib (codes "[\\w .]+( )?:") line) (b':' ∷ [])

  unfoldable pub value_of : Text → Text
  unfolding clean_string
  value_of line = clean_string markup (find_string lib (codes ":( )?.*$") line) (b':' ∷ [])

  -- The loop over the lines on the back of the card.
  unfoldable pub read_lines : List Text → Profile → Profile
  unfolding set_field label_of value_of
  read_lines [] p = p
  read_lines (line ∷ lines) p = read_lines lines (set_field (label_of line) (value_of line) p)

  back_lines : Node → List Text
  unfolding split clean_string
  back_lines dom =
      let (line, lines) =
        split (clean (text_with_lines (find (dom ∷ []) (codes "#lblInfoIDCardBack1")))) newline in
      line ∷ lines

  unfoldable pub card_profile : Node → Profile
  unfolding front_of read_lines back_lines
  card_profile dom =
      let (name, course, batch) = front_of dom in
      read_lines (back_lines dom) record empty_profile {
        name = name;
        program = course;
        batch = batch;
        uuid = uuid_in (attr h (find (dom ∷ []) (codes "img#ImgPhotoIDCardFront1")) (codes "src"));
      }

  unfoldable pub profile : Text → Result Profile
  unfolding is_logged_in_dom is_not_applicable_page is_id_card_page parse_dashboard_profile
      card_profile
  profile body = elim (parse_document body) [
    | none ↦ fail (codes "failed to parse DOM: " ++ parse_error body)
    | some dom ↦
        if not (is_logged_in_dom h dom)
        then fail (codes "failed to parse: not logged in")
        else (if is_not_applicable_page dom
            then ok empty_profile
            else (if not (is_id_card_page dom)
                then (if not (length (find (dom ∷ []) (codes "span.user-info")) == 0)
                    then parse_dashboard_profile dom
                    else ok empty_profile)
                else ok (card_profile dom)))
  ]
