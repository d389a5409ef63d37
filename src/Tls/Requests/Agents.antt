-- ===== src/Tls/Requests/Agents.antt =====
-- The header and the user agent of a request that was converted.
use go_amizone.Base.{
  ◌≡◌, refl, ap, subst, Bool, true, ◌||◌, List, [], ◌∷◌, Option, none, some, Map, lookup, insert,
  lookup-insert, HasUniqueKeys, IsAbsent, lookup_of_IsAbsent, Text, codes, is_empty, text_eq,
  text_eq_iff, contains, any, All, Values, arith, Bool-cases, Option-cases, inl, inr,
}
use go_amizone.Tls.Requests.{copy_header, agent_for, user_agent}

copy_header-lookup :
    (from to : Values) (k : Text)
    → HasUniqueKeys from
    → lookup k (copy_header from to) ≡ elim (lookup k from) [ none ↦ lookup k to | some v ↦ some v ]
unfolding copy_header lookup
copy_header-lookup [] to k unique = refl
copy_header-lookup ((j, v) ∷ from) to k (absent, unique) = elim (Bool-cases (text_eq j k)) [
  | inl same ↦
      let gone : lookup k from ≡ none =
        lookup_of_IsAbsent k from
          (subst (λ n. IsAbsent n from) ((text_eq_iff j k).0 same) absent) in
      ground (
        arith,
        same,
        gone,
        copy_header-lookup from (insert j v to) k unique,
        lookup-insert j k v to,
      )
  | inr other ↦ elim (Option-cases (lookup k from)) [
    | inl e ↦
        ground (
          arith,
          other,
          e,
          copy_header-lookup from (insert j v to) k unique,
          lookup-insert j k v to,
        )
    | inr (w, e) ↦
        ground (
          arith,
          other,
          e,
          copy_header-lookup from (insert j v to) k unique,
          lookup-insert j k v to,
        )
  ]
]

-- A copied header has the values of the original.
pub copy_header_same :
    (from : Values) (k : Text) → HasUniqueKeys from → lookup k (copy_header from []) ≡ lookup k from
unfolding lookup
copy_header_same from k unique = elim (Option-cases (lookup k from)) [
  | inl e ↦ ground (arith, e, copy_header-lookup from [] k unique)
  | inr (v, e) ↦ ground (arith, e, copy_header-lookup from [] k unique)
]

abbrev first_value : Option (List Text) → Text
first_value none = []
first_value (some []) = []
first_value (some (v ∷ vs)) = v

abbrev no_agent : Option (List Text) → Bool
no_agent found =
    is_empty (first_value found) || text_eq (first_value found) (codes "Go-http-client/1.1")

-- A header has no user agent of its own: it is empty or Go's.
abbrev pub lacks_agent : Values → Bool
lacks_agent header = no_agent (lookup user_agent header)

-- The order of the map does not matter: where all entries whose key stands in the profile's name have
-- one user agent and there is such an entry, that user agent is taken.
pub agent_for_lem :
    (order : Map Text) (name agent : Text)
    → All (λ e. contains name e.0 ≡ true → e.1 ≡ agent) order
    → any (λ e. contains name e.0) order ≡ true
    → agent_for order name ≡ some agent
unfolding agent_for
agent_for_lem [] name agent own member = ground (arith, member)
agent_for_lem ((key, a) ∷ order) name agent (own, owns) member =
    elim (Bool-cases (contains name key)) [
      | inl e ↦ rw e (ap (λ t. some t) (own e))
      | inr e ↦ rw e (agent_for_lem order name agent owns (ground (arith, e, member)))
    ]
