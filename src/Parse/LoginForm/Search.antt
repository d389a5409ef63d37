-- ===== src/Parse/LoginForm/Search.antt =====
-- The search in login_form.go: `findSubstring` is `strings.Index`, and what the site key can be.
use go_amizone.Base.{
  ℕ, suc, ◌+◌, ◌<◌, ◌≡◌, refl, sym, ◌∙◌, ◌≢◌, ap, inl, inr, false, Option, none, some, [], ◌∷◌,
  ◌++◌, Text, codes, length, take, drop, text_eq, has_prefix, index, index_parts, index-index_byte,
  index_byte_found, drop_add, ltb, All, if◌then◌else◌, arith, Option-cases, Bool-cases,
}
use go_amizone.Parse.LoginForm.{find_from, find_substring, site_key_in, sitekey_mark}

-- The comparison of the loop is the test for a prefix, also where the text is too short.
take-has_prefix :
    (s t : Text)
    → has_prefix s t ≡ (if ltb (length s) (length t) then false else text_eq (take (length t) s) t)
unfolding has_prefix text_eq
take-has_prefix [] [] = refl
take-has_prefix [] (b ∷ t) = ground arith
take-has_prefix (a ∷ s) [] = ground arith
take-has_prefix (a ∷ s) (b ∷ t) = ground (arith, take-has_prefix s t)

abbrev shift : ℕ → Option ℕ → Option ℕ
shift i none = none
shift i (some j) = some (i + j)

has_prefix-short : (s t : Text) → length s < length t → has_prefix s t ≡ false
unfolding has_prefix
has_prefix-short s t h = ground (arith, take-has_prefix s t)

index-short : (s t : Text) → length s < length t → index s t ≡ none
unfolding index
index-short [] [] h = absurd (omega arith)
index-short [] (b ∷ t) h = refl
index-short (a ∷ s) t h = ground (arith, has_prefix-short (a ∷ s) t h, index-short s t)

find_from-index : (i : ℕ) (s t : Text) → find_from i s t ≡ shift i (index s t)
unfolding find_from index
find_from-index i [] t = ground arith
find_from-index i (c ∷ s) t =
    ground (arith, take-has_prefix (c ∷ s) t, index-short s t, find_from-index (suc i) s t)

-- `findSubstring` is `strings.Index`.
pub find_substring-index : (s t : Text) → find_substring s t ≡ index s t
unfolding find_substring
find_substring-index s t = ground (arith, find_from-index 0 s t)

module _ (text : Text) (i e : ℕ) where
  abbrev after_mark : Text
  after_mark = drop (i + length sitekey_mark) text

  key_parts :
      find_substring text sitekey_mark ≡ some i
      → find_substring after_mark (codes "\"") ≡ some e
      → site_key_in text ≡ take e after_mark
      → (before after : Text) × (text
          ≡ before ++ (sitekey_mark ++ (site_key_in text ++ b'"' ∷ after)))
        × All (λ c. c ≢ b'"') (site_key_in text)
  key_parts found closed key =
      let (parts, clean, small, size) = index_byte_found after_mark b'"' e (
        sym (index-index_byte after_mark b'"')
        ∙ sym (find_substring-index after_mark (codes "\""))
        ∙ closed) in
      let whole =
        index_parts text sitekey_mark i (sym (find_substring-index text sitekey_mark) ∙ found) in
      let joined : Text → Text = λ r. take i text ++ (sitekey_mark ++ r) in
      rw key (
        take i text,
        drop (suc e) after_mark,
        sym (ap joined parts ∙ ap joined (drop_add i (length sitekey_mark) text) ∙ whole),
        clean,
      )

-- A site key that is found stands in the script between the mark and the next quotation mark, and has
-- no quotation mark in it.
pub site_key_in-occurs :
    (text : Text)
    → site_key_in text ≢ []
    → (before after : Text) × (text
        ≡ before ++ (sitekey_mark ++ (site_key_in text ++ b'"' ∷ after)))
      × All (λ c. c ≢ b'"') (site_key_in text)
unfolding site_key_in
site_key_in-occurs text h = elim (Option-cases (find_substring text sitekey_mark)) [
  | inl missing ↦ absurd (ground arith)
  | inr (i, found) ↦
      let start : ℕ = i + length sitekey_mark in
      let rest : Text = drop start text in
      elim (Option-cases (find_substring rest (codes "\""))) [
        | inl missing ↦ absurd (ground arith)
        | inr (e, closed) ↦ elim (Bool-cases (ltb 0 e)) [
          | inl some_text ↦ key_parts text i e found closed (ground arith)
          | inr empty ↦ absurd (ground arith)
        ]
      ]
]
