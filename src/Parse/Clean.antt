-- ===== src/Parse/Clean.antt =====
-- amizone/internal/parse/parse.go: texts of the portal, cleaned of escapes, markup and space.
use go_amizone.Base.{Text, ◌∷◌, [], Result, ok, fail, panic, replace_all, trim_space, trim, in_set}

-- `strconv.Quote` and `strconv.Unquote`, `html.UnescapeString`, and `Policy.Sanitize` of bluemonday's
-- empty policy.
pub record Markup : Type 0 where
  pub quote : Text → Text
  pub unquote : Text → Result Text
  pub unescape : Text → Text
  pub sanitize : Text → Text

module _ (m : Markup) where
  open m use {quote, unquote, unescape, sanitize}

  -- Two backslashes and a `u` become one and a `u`; the text of an error is the result.
  unfoldable pub unescape_unicode : Text → Text
  unfolding replace_all
  unescape_unicode s =
      elim (unquote (replace_all (quote s) (92 ∷ 92 ∷ b'u' ∷ []) (92 ∷ b'u' ∷ []))) [
        | ok t ↦ t
        | fail e ↦ e
        | panic ↦ []
      ]

  unfoldable pub clean_string : Text → Text → Text
  unfolding unescape_unicode trim_space trim
  clean_string s set =
      trim_space
        (trim (in_set set) (trim_space (unescape (sanitize (unescape (unescape_unicode s))))))
