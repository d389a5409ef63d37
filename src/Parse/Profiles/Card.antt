-- ===== src/Parse/Profiles/Card.antt =====
-- What the loop over the lines of an ID card leaves in the profile.
use go_amizone.Base.{
  ◌≡◌, refl, ◌∙◌, sym, subst, true, false, List, [], ◌∷◌, ◌++◌, Text, codes, text_eq, text_eq_iff,
  ◌⊎◌, All, none, some, ℕ, arith,
}
use go_amizone.Base.Html.{Html}
use go_amizone.Parse.Library.{PageLib}
use go_amizone.Parse.Profiles.{Profile, set_field, read_lines, label_of, value_of}

-- The fields that the card gives as texts, and those that it gives as dates.
pub data TextField : Type 0 where
  enrollment blood id_card : TextField

pub data DateField : Type 0 where
  birth validity : DateField

abbrev pub label : TextField → Text
label enrollment = codes "Enrollment No"
label blood = codes "Blood Group"
label id_card = codes "ID Card No"

abbrev pub text_in : TextField → Profile → Text
text_in enrollment p = p.enrollment_number
text_in blood p = p.blood_group
text_in id_card p = p.id_card_number

abbrev pub date_label : DateField → Text
date_label birth = codes "Date Of Birth"
date_label validity = codes "Validity"

abbrev pub date_in : DateField → Profile → ℕ
date_in birth p = p.date_of_birth
date_in validity p = p.enrollment_validity

module _ (h : Html) (lib : PageLib h) where
  open lib use {time_parse}

  -- A line with another label leaves the field.
  set_field_other :
      (t : TextField) (name value : Text) (p : Profile)
      → text_eq name (label t) ≡ false
      → text_in t (set_field h lib name value p) ≡ text_in t p
  unfolding set_field
  set_field_other enrollment name value p e = ground (arith, e)
  set_field_other blood name value p e = ground (arith, e)
  set_field_other id_card name value p e = ground (arith, e)

  set_field-label :
      (t : TextField) (value : Text) (p : Profile)
      → text_in t (set_field h lib (label t) value p) ≡ value
  unfolding set_field text_eq
  set_field-label enrollment value p = refl
  set_field-label blood value p = refl
  set_field-label id_card value p = refl

  set_field_hit :
      (t : TextField) (name value : Text) (p : Profile)
      → text_eq name (label t) ≡ true
      → text_in t (set_field h lib name value p) ≡ value
  set_field_hit t name value p e =
      subst (λ n. text_in t (set_field h lib n value p) ≡ value)
        (sym ((text_eq_iff name (label t)).0 e)) (set_field-label t value p)

  set_field_date_other :
      (d : DateField) (name value : Text) (p : Profile)
      → (text_eq name (date_label d) ≡ false) ⊎ (time_parse (codes "02.01.2006") value ≡ none)
      → date_in d (set_field h lib name value p) ≡ date_in d p
  unfolding set_field
  set_field_date_other birth name value p e = ground (arith, e)
  set_field_date_other validity name value p e = ground (arith, e)

  set_field-date_label :
      (d : DateField) (value : Text) (t : ℕ) (p : Profile)
      → time_parse (codes "02.01.2006") value ≡ some t
      → date_in d (set_field h lib (date_label d) value p) ≡ t
  unfolding set_field text_eq
  set_field-date_label birth value t p parsed = rw parsed
  set_field-date_label validity value t p parsed = rw parsed

  set_field_date_hit :
      (d : DateField) (name value : Text) (t : ℕ) (p : Profile)
      → text_eq name (date_label d) ≡ true
      → time_parse (codes "02.01.2006") value ≡ some t
      → date_in d (set_field h lib name value p) ≡ t
  set_field_date_hit d name value t p e parsed =
      subst (λ n. date_in d (set_field h lib n value p) ≡ t)
        (sym ((text_eq_iff name (date_label d)).0 e)) (set_field-date_label d value t p parsed)

  -- The step of the loop on a line.
  abbrev step : Text → Profile → Profile
  step line = set_field h lib (label_of h lib line) (value_of h lib line)

  read_lines_keeps :
      {X : Type 0} (get : Profile → X) (lines : List Text)
      → All (λ l. (p : Profile) → get (step l p) ≡ get p) lines
      → (p : Profile) → get (read_lines h lib lines p) ≡ get p
  unfolding read_lines
  read_lines_keeps get [] keeps p = refl
  read_lines_keeps get (line ∷ lines) (keep, keeps) p =
      read_lines_keeps get lines keeps (step line p) ∙ keep p

  -- A field has what the last line that sets it says.
  read_lines_last :
      {X : Type 0} (get : Profile → X) (v : X) (before : List Text) (line : Text)
      (after : List Text)
      → ((p : Profile) → get (step line p) ≡ v)
      → All (λ l. (p : Profile) → get (step l p) ≡ get p) after
      → (p : Profile) → get (read_lines h lib (before ++ (line ∷ after)) p) ≡ v
  unfolding read_lines
  read_lines_last get v [] line after hit keeps p =
      read_lines_keeps get after keeps (step line p) ∙ hit p
  read_lines_last get v (other ∷ before) line after hit keeps p =
      read_lines_last get v before line after hit keeps (step other p)

  others_keep :
      (t : TextField) (lines : List Text)
      → All (λ l. text_eq (label_of h lib l) (label t) ≡ false) lines
      → All (λ l. (p : Profile) → text_in t (step l p) ≡ text_in t p) lines
  others_keep t [] other = tt
  others_keep t (line ∷ lines) (other, others) = (
    λ p. set_field_other t (label_of h lib line) (value_of h lib line) p other,
    others_keep t lines others,
  )

  -- The enrollment number, the blood group and the number of the card are the values of the last
  -- lines with their labels.
  read_lines_text :
      (t : TextField) (before : List Text) (line : Text) (after : List Text) (p : Profile)
      → text_eq (label_of h lib line) (label t) ≡ true
      → All (λ l. text_eq (label_of h lib l) (label t) ≡ false) after
      → text_in t (read_lines h lib (before ++ (line ∷ after)) p) ≡ value_of h lib line
  read_lines_text t before line after p named others =
      read_lines_last (text_in t) (value_of h lib line) before line after
        (λ q. set_field_hit t (label_of h lib line) (value_of h lib line) q named)
        (others_keep t after others) p

  -- A line that does not set a date: it has another label, or no date.
  abbrev pub SetsNoDate : DateField → Text → Type 0
  SetsNoDate d l =
      (text_eq (label_of h lib l) (date_label d) ≡ false)
      ⊎ (time_parse (codes "02.01.2006") (value_of h lib l) ≡ none)

  other_dates_keep :
      (d : DateField) (lines : List Text)
      → All (SetsNoDate d) lines
      → All (λ l. (p : Profile) → date_in d (step l p) ≡ date_in d p) lines
  other_dates_keep d [] other = tt
  other_dates_keep d (line ∷ lines) (other, others) = (
    λ p. set_field_date_other d (label_of h lib line) (value_of h lib line) p other,
    other_dates_keep d lines others,
  )

  -- The dates are those of the last lines with their labels that hold a date; a line whose date does
  -- not parse leaves an earlier one.
  pub read_lines_date :
      (d : DateField) (before : List Text) (line : Text) (after : List Text) (time : ℕ)
      (p : Profile)
      → text_eq (label_of h lib line) (date_label d) ≡ true
      → time_parse (codes "02.01.2006") (value_of h lib line) ≡ some time
      → All (SetsNoDate d) after
      → date_in d (read_lines h lib (before ++ (line ∷ after)) p) ≡ time
  read_lines_date d before line after time p named parsed others =
      read_lines_last (date_in d) time before line after
        (λ q. set_field_date_hit d (label_of h lib line) (value_of h lib line) time q named parsed)
        (other_dates_keep d after others) p
