-- ===== src/Parse/Feedback.antt =====
-- amizone/internal/parse/faculty_feedback.go: the courses that ask for feedback, from the links of the
-- faculty page and from the calls of `FnFeedBackAgian` in it.
pub mod Scan
pub mod Page
use go_amizone.Base.{
  ℕ, suc, ◌+◌, Bool, true, false, ◌||◌, not, List, [], ◌∷◌, ◌++◌, Option, none, some, Text, codes,
  Map, is_empty, trim_space, trim, in_set, replace_all, insert, encode, index, length, take, drop,
  query_escape, ltb, ◌==◌, if◌then◌else◌,
}

pub record FacultyFeedbackSpec : Type 0 where
  pub verification_token : Text
  pub feedback_endpoint : Text
  pub feedback_method : Text
  pub feedback_payload : Text
  pub submit_endpoint : Text
  pub course_type : Text
  pub department_id : Text
  pub faculty_id : Text
  pub serial_number : Text
  pub set_rating : Text
  pub set_qrating : Text
  pub set_comment : Text

abbrev is_quote : ℕ → Bool
is_quote r = (r == b'\'') || (r == b'"')

-- One character of `findCallEnd`, with the quote that is open, 0 for none, and whether the character
-- is escaped; `none` is the end of the call.
unfoldable pub end_step : ℕ → Bool → ℕ → Option (ℕ × Bool)
end_step quote true r = some (quote, false)
end_step quote false r =
    if r == b'\\'
    then some (quote, true)
    else (if not (quote == 0)
        then some (if r == quote then 0 else quote, false)
        else (if is_quote r
            then some (r, false)
            else if r == b')'
            then none
            else some (quote, false)))

find_end_from : ℕ → ℕ → Bool → Text → Option ℕ
unfolding end_step
find_end_from i quote escaped [] = none
find_end_from i quote escaped (r ∷ raw) = elim (end_step quote escaped r) [
  | none ↦ some i
  | some (quote', escaped') ↦ find_end_from (suc i) quote' escaped' raw
]

-- The position of the parenthesis that ends the call, `none` for -1.
unfoldable pub find_call_end : Text → Option ℕ
unfolding find_end_from
find_call_end raw = find_end_from 0 0 false raw

-- The state of `parseJSCallArgs` between two characters, less the arguments so far.
pub record Scanner : Type 0 where
  pub current : Text
  pub quote : ℕ
  pub escaped : Bool

-- `flush`: the arguments that it appends.
unfoldable pub flush : Text → List Text
unfolding trim_space trim replace_all
flush current =
    let part = trim (in_set (b'"' ∷ b'\'' ∷ [])) (trim_space current) in
    if not (is_empty part) || ltb 0 (length current)
    then replace_all part (b'\\' ∷ b'\'' ∷ []) (b'\'' ∷ []) ∷ []
    else []

-- One character, with the arguments that it completes.
unfoldable pub arg_step : Scanner → ℕ → List Text × Scanner
arg_step s r =
    let longer = s.current ++ (r ∷ []) in
    if s.escaped
    then ([], record s { current = longer; escaped = false })
    else (if r == b'\\'
        then ([], record s { current = longer; escaped = true })
        else (if not (s.quote == 0)
            then ([], record s { current = longer; quote = if r == s.quote then 0 else s.quote })
            else (if is_quote r
                then ([], record s { current = longer; quote = r })
                else (if r == b','
                    then (flush s.current, record s { current = [] })
                    else ([], record s { current = longer })))))

args_from : Scanner → Text → List Text
unfolding arg_step flush
args_from s [] = flush s.current
args_from s (r ∷ raw) = let (args, s') = arg_step s r in args ++ args_from s' raw

abbrev pub scanner_start : Scanner
scanner_start = record { current = []; quote = 0; escaped = false }

unfoldable pub parse_js_call_args : Text → List Text
unfolding args_from
parse_js_call_args raw = args_from scanner_start raw

set_values : List Text → List Text → Map Text → Map Text
unfolding trim_space
set_values [] args values = values
set_values (key ∷ keys) [] values = values
set_values (key ∷ keys) (arg ∷ args) values =
    set_values keys args (insert key (trim_space arg) values)

unfoldable pub build_feedback_call_payload : List Text → Text
unfolding set_values encode
build_feedback_call_payload args = encode (
    set_values
      (codes "CourseName"
        ∷ codes "FacultyName"
        ∷ codes "StaffCode"
        ∷ codes "FacultyId"
        ∷ codes "iSRNO"
        ∷ codes "sType"
        ∷ codes "iDetId"
        ∷ [])
      args [])

unfoldable pub escape_feedback_value : Text → Text
unfolding trim_space query_escape
escape_feedback_value value = if is_empty value then [] else query_escape (trim_space value)

unfoldable pub first_non_empty : List Text → Text
first_non_empty [] = []
first_non_empty (value ∷ values) = if not (is_empty value) then value else first_non_empty values

-- The test of the two constructors of specs and of `appendSpec`.
unfoldable pub is_complete : FacultyFeedbackSpec → Bool
is_complete spec = not (
    is_empty spec.faculty_id
    || (is_empty spec.course_type || (is_empty spec.department_id || is_empty spec.serial_number)))

abbrev pub call_mark : Text
call_mark = codes "FnFeedBackAgian("

-- The arguments of a call: at least seven.
spec_from_args : Text → Text → Text → List Text → Option FacultyFeedbackSpec
unfolding build_feedback_call_payload escape_feedback_value is_complete
spec_from_args token feedback submit (a0 ∷ a1 ∷ a2 ∷ a3 ∷ a4 ∷ a5 ∷ a6 ∷ more) =
    let spec : FacultyFeedbackSpec = record {
      verification_token = token;
      feedback_endpoint = feedback;
      feedback_method = codes "POST";
      feedback_payload = build_feedback_call_payload (a0 ∷ a1 ∷ a2 ∷ a3 ∷ a4 ∷ a5 ∷ a6 ∷ more);
      submit_endpoint = submit;
      faculty_id = escape_feedback_value a3;
      serial_number = escape_feedback_value a4;
      course_type = escape_feedback_value a5;
      department_id = escape_feedback_value a6;
      set_rating = [];
      set_qrating = [];
      set_comment = [];
    } in
    if is_complete spec then some spec else none
spec_from_args token feedback submit _ = none

unfoldable pub spec_from_feedback_call : Text → Text → Text → Text → Option FacultyFeedbackSpec
unfolding index find_call_end parse_js_call_args spec_from_args
spec_from_feedback_call token feedback submit raw_call = elim (index raw_call call_mark) [
  | none ↦ none
  | some start ↦
      let args_block = drop (start + length call_mark) raw_call in
      elim (find_call_end args_block) [
        | none ↦ none
        | some end ↦ spec_from_args token feedback submit (parse_js_call_args (take end args_block))
      ]
]
