-- ===== src/Parse/LoginForm.antt =====
-- amizone/internal/parse/login_form.go: the fields of the login page.
pub mod Search
use go_amizone.Base.{
  ℕ, suc, ◌+◌, Bool, ◌&&◌, ◌||◌, not, Option, none, some, List, [], ◌∷◌, Text, codes, length, take,
  drop, text_eq, is_empty, ltb, if◌then◌else◌,
}
use go_amizone.Base.Html.{Html, attr_or}

pub record LoginFormFields : Type 0 where
  pub verification_token : Text
  pub salt : Text
  pub secret_number : Text
  pub signature : Text
  pub challenge : Text
  pub turnstile_site_key : Text
  pub recaptcha_site_key : Text
  pub turnstile_response : Text
  pub recaptcha_token : Text
  pub honeypot : Text

-- The loop of `findSubstring` at position `i`, with the text from there on.
find_from : ℕ → Text → Text → Option ℕ
find_from i [] substr = if is_empty substr then some i else none
find_from i (c ∷ s) substr =
    let rest : Option ℕ = find_from (suc i) s substr in
    if ltb (length (c ∷ s)) (length substr)
    then none
    else (if text_eq (take (length substr) (c ∷ s)) substr then some i else rest)

unfoldable pub find_substring : Text → Text → Option ℕ
unfolding find_from
find_substring s substr = find_from 0 s substr

abbrev pub sitekey_mark : Text
sitekey_mark = codes "sitekey: \""

-- The site key in a script, empty if there is none.
unfoldable pub site_key_in : Text → Text
unfolding find_substring
site_key_in text = elim (find_substring text sitekey_mark) [
  | none ↦ []
  | some idx ↦
      let start = idx + length sitekey_mark in
      elim (find_substring (drop start text) (codes "\"")) [
        | none ↦ []
        | some end ↦ if ltb 0 end then take end (drop start text) else []
      ]
]

module _ (h : Html) where
  open h use {Node, parse_document, find, node_text}

  -- The loop over the scripts: the first script that holds a key gives it.
  site_key : List Node → Text → Text
  site_key [] key = key
  site_key (script ∷ scripts) key = site_key scripts (
      if is_empty key && not (is_empty (node_text script))
      then site_key_in (node_text script)
      else key)

  abbrev field_value : List Node → Text → Text
  field_value form selector = attr_or h (find form selector) (codes "value") []

  unfoldable pub parse_login_form_from_dom : Node → LoginFormFields
  unfolding site_key site_key_in
  parse_login_form_from_dom doc =
      let form = find (doc ∷ []) (codes "form#loginform") in
      record {
        verification_token = field_value form (codes "input[name='__RequestVerificationToken']");
        salt = field_value form (codes "input[name='Salt']");
        secret_number = field_value form (codes "input[name='SecretNumber']");
        signature = field_value form (codes "input[name='Signature']");
        challenge = field_value form (codes "input[name='Challenge']");
        turnstile_site_key = site_key (find (doc ∷ []) (codes "script")) [];
        recaptcha_site_key = [];
        turnstile_response = field_value form (codes "input[name='cf-turnstile-response']");
        recaptcha_token = field_value form (codes "input[name='RecaptchaToken']");
        honeypot = field_value form (codes "input[name='honeypot']");
      }

  unfoldable pub parse_login_form : Text → Option LoginFormFields
  unfolding parse_login_form_from_dom
  parse_login_form body = elim (parse_document body) [
    | none ↦ none
    | some doc ↦ some (parse_login_form_from_dom doc)
  ]

-- `IsValid`.
unfoldable pub has_essentials : LoginFormFields → Bool
has_essentials f =
    not (is_empty f.verification_token)
    && not (is_empty f.salt)
    && not (is_empty f.secret_number)
    && not (is_empty f.signature)
    && not (is_empty f.challenge)

unfoldable pub has_turnstile_token : LoginFormFields → Bool
has_turnstile_token f = not (is_empty f.turnstile_response) || not (is_empty f.recaptcha_token)
