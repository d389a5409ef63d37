-- ===== src/Parse/Attendance/Panics.antt =====
-- When the parser of attendance records panics.
use go_amizone.Base.{
  ℕ, ◌≡◌, ◌↔◌, refl, sym, Bool, true, false, not, ◌||◌, List, [], ◌∷◌, none, some, Text, Result, ok,
  fail, panic, any, index_byte, length, ◌==◌, ℤ, arith, Result-cases, inl, inr,
}
use go_amizone.Base.Html.{Html}
use go_amizone.Parse.Session.{is_logged_in_dom}
use go_amizone.Parse.Attendance.{
  split, count_text, name_text, counts_of, name_of, record_of, records_of, widget_header,
  attendance_list, attendance,
}

-- Whether a text holds a character.
abbrev pub holds : Text → ℕ → Bool
holds s c = elim (index_byte s c) [ none ↦ false | some i ↦ true ]

abbrev is_nil : List Text → Bool
is_nil [] = true
is_nil (w ∷ ws) = false

split-holds : (s : Text) (c : ℕ) → is_nil (split s c).1 ≡ not (holds s c)
unfolding split index_byte
split-holds [] c = refl
split-holds (a ∷ s) c = ground (arith, split-holds s c)

module _ (h : Html) (atoi : Text → ℤ) where
  open h use {Node, parse_document}

  -- A record without a slash in its count or without a space in its name.
  abbrev pub is_malformed : Node → Bool
  is_malformed n = not (holds (count_text h atoi n) b'/') || not (holds (name_text h atoi n) b' ')

  abbrev is_panic : {A : Type 0} → Result A → Bool
  is_panic (ok a) = false
  is_panic (fail e) = false
  is_panic panic = true

  abbrev is_fail : {A : Type 0} → Result A → Bool
  is_fail (ok a) = false
  is_fail (fail e) = true
  is_fail panic = false

  record_of_lem :
      (n : Node)
      → (is_panic (record_of h atoi n) ≡ is_malformed n) × (is_fail (record_of h atoi n) ≡ false)
  unfolding record_of counts_of name_of
  record_of_lem n = ground (arith, split-holds (count_text h atoi n) b'/')

  records_of_lem :
      (ns : List Node)
      → (is_panic (records_of h atoi ns) ≡ any is_malformed ns)
        × (is_fail (records_of h atoi ns) ≡ false)
  unfolding records_of
  records_of_lem [] = (refl, refl)
  records_of_lem (n ∷ ns) = elim (Result-cases (record_of h atoi n)) [
    | inl (r, e) ↦ elim (Result-cases (records_of h atoi ns)) [
      | inl (rs, f) ↦ ground (arith, e, f, record_of_lem n, records_of_lem ns)
      | inr (inl (x, f)) ↦ ground (arith, e, f, record_of_lem n, records_of_lem ns)
      | inr (inr f) ↦ ground (arith, e, f, record_of_lem n, records_of_lem ns)
    ]
    | inr (inl (x, e)) ↦ ground (arith, e, record_of_lem n)
    | inr (inr e) ↦ ground (arith, e, record_of_lem n)
  ]

  is_panic_iff : {A : Type 0} (r : Result A) → (r ≡ panic) ↔ (is_panic r ≡ true)
  is_panic_iff (ok a) = ground arith
  is_panic_iff (fail e) = ground arith
  is_panic_iff panic = ground arith

  -- On the home page of a user, with an attendance widget that lists records, the parser panics
  -- exactly if some record has no slash in its count or no space in its name.
  pub attendance-panic :
      (body : Text) (dom : Node)
      → parse_document body ≡ some dom
      → is_logged_in_dom h dom ≡ true
      → (length (widget_header h atoi dom) == 0) ≡ false
      → (length (attendance_list h atoi dom) == 0) ≡ false
      → (attendance h atoi body ≡ panic) ↔ (any is_malformed (attendance_list h atoi dom) ≡ true)
  unfolding attendance
  attendance-panic body dom parsed logged header listed =
      let reached : attendance h atoi body ≡ records_of h atoi (attendance_list h atoi dom) =
        ground (arith, parsed, logged, header, listed) in
      let (same, clean) = records_of_lem (attendance_list h atoi dom) in
      rw (reached, sym same) (is_panic_iff (records_of h atoi (attendance_list h atoi dom)))
