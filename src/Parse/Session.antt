-- ===== src/Parse/Session.antt =====
-- amizone/internal/parse/logged_in.go and verification_token.go: whether a page belongs to a session,
-- and the token of its form.
use go_amizone.Base.{Bool, true, none, some, List, [], ◌∷◌, Text, codes}
use go_amizone.Base.Html.{Html, first, attr_or}

module _ (h : Html) where
  open h use {Node, parse_document, find}

  abbrev is_nil : List Node → Bool
  is_nil [] = true
  is_nil (n ∷ ns) = Bool.false

  unfoldable pub is_logged_in_dom : Node → Bool
  is_logged_in_dom doc = is_nil (first h (find (doc ∷ []) (codes "#loginform")))

  -- A body that is no HTML document counts as logged in.
  unfoldable pub is_logged_in : Text → Bool
  unfolding is_logged_in_dom
  is_logged_in body = elim (parse_document body) [ none ↦ true | some doc ↦ is_logged_in_dom doc ]

  unfoldable pub verification_token_from_dom : Node → Text
  verification_token_from_dom doc =
      attr_or h (find (doc ∷ []) (codes "input[name='__RequestVerificationToken']")) (codes "value")
        []
