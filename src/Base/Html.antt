-- ===== src/Base/Html.antt =====
-- What the program uses of goquery. A selection is the list of its nodes; a document is its root.
use mathlib.Core.Option.{Option, none, some}
use mathlib.Core.List.{List, [], ◌∷◌, ◌++◌}
use go_amizone.Base.Texts.{Text}

pub record Html : Type 1 where
  pub Node : Type 0
  -- `goquery.NewDocumentFromReader`; `none` is its error.
  pub parse_document : Text → Option Node
  -- The message of that error.
  pub parse_error : Text → Text
  -- `Find`, `Filter`, `Children`, `Parent` of a selection.
  pub find : List Node → Text → List Node
  pub filter_by : List Node → Text → List Node
  pub children : List Node → List Node
  pub parent : List Node → List Node
  -- An attribute, the text and the element's name of one node.
  pub node_attr : Node → Text → Option Text
  pub node_text : Node → Text
  pub node_name : Node → Text

module _ (h : Html) where
  open h use {Node, node_attr, node_text}

  -- `Selection.Attr`: of the first node.
  abbrev pub attr : List Node → Text → Option Text
  attr [] name = none
  attr (n ∷ ns) name = node_attr n name

  abbrev pub attr_or : List Node → Text → Text → Text
  attr_or sel name default = elim (attr sel name) [ none ↦ default | some v ↦ v ]

  -- `Selection.Text`: of all nodes.
  abbrev pub text_of : List Node → Text
  text_of [] = []
  text_of (n ∷ ns) = node_text n ++ text_of ns

  -- `Selection.First`.
  abbrev pub first : List Node → List Node
  first [] = []
  first (n ∷ ns) = n ∷ []
