-- ===== src/Parse/Library.antt =====
-- What the parsers of the larger pages use of libraries, beside goquery's selections in Base.Html:
-- selections that are changed, regular expressions, numbers, dates, and the case of letters.
use go_amizone.Base.{ℕ, Bool, Option, List, [], ◌∷◌, Text, ℤ}
use go_amizone.Base.Html.{Html}
use go_amizone.Parse.Clean.{Markup}

pub record PageLib (h : Html) : Type 1 where
  pub markup : Markup
  -- `AddSelection`.
  pub add_selection : List h.Node → List h.Node → List h.Node
  -- The text of a selection after `Find("br").ReplaceWithHtml("\n")`.
  pub text_with_lines : List h.Node → Text
  -- The text of a clone after `Find(selector).Remove()`.
  pub text_without : List h.Node → Text → Text
  -- `FindStringSubmatch` of a pattern in a text: the match and its groups, empty for nil.
  pub find_submatch : Text → Text → List Text
  -- `strconv.Atoi`: the value, which it gives on an error as well, and whether there is none.
  pub atoi : Text → ℤ
  pub atoi_ok : Text → Bool
  -- `float32` of `strconv.ParseFloat(_, 32)`, likewise.
  pub Float : Type 0
  pub float_zero : Float
  pub parse_float : Text → Float
  pub parse_float_ok : Text → Bool
  -- `time.Parse` with a layout.
  pub time_parse : Text → Text → Option ℕ
  -- `strings.ToUpper`, and `cases.Title(language.English)`.
  pub upper : Text → Text
  pub title : Text → Text

-- `FindString`: the match, or the empty text.
abbrev pub find_string : {h : Html} → PageLib h → Text → Text → Text
find_string lib pattern s = elim (lib.find_submatch pattern s) [ [] ↦ [] | m ∷ groups ↦ m ]
