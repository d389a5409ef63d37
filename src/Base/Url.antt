-- ===== src/Base/Url.antt =====
-- Go's net/url for form payloads: `url.Values` of one value for each key, and `Values.Encode`.
use Prim.Native.Nat.{ℕ, ◌+◌, ◌/◌, ◌%◌}
use mathlib.Core.Bool.{Bool, true, false, ◌&&◌, ◌||◌}
use mathlib.Core.Option.{none, some}
use mathlib.Core.List.{List, [], ◌∷◌, ◌++◌, map, flat_map}
use go_amizone.Base.Tests.{ltb, leb, ◌==◌, if◌then◌else◌}
use go_amizone.Base.Texts.{Text, codes}
use go_amizone.Base.Maps.{Map, insert, lookup}

-- The bytes of a character in UTF-8.
abbrev utf8 : ℕ → List ℕ
utf8 c =
    if ltb c 0x80
    then c ∷ []
    else (if ltb c 0x800
        then (0xC0 + c / 64) ∷ (0x80 + c % 64) ∷ []
        else (if ltb c 0x10000
            then (0xE0 + c / 4096) ∷ (0x80 + c / 64 % 64) ∷ (0x80 + c % 64) ∷ []
            else (0xF0 + c / 262144)
              ∷ (0x80 + c / 4096 % 64)
              ∷ (0x80 + c / 64 % 64)
              ∷ (0x80 + c % 64)
              ∷ []))

abbrev hex_digit : ℕ → ℕ
hex_digit d = if ltb d 10 then d + 48 else d + 55

-- One byte in `url.QueryEscape`.
abbrev escape_byte : ℕ → Text
escape_byte b =
    if (leb b'a' b && leb b b'z')
      || (leb b'A' b && leb b b'Z')
      || (leb b'0' b && leb b b'9')
      || (b == b'-')
      || (b == b'_')
      || (b == b'.')
      || (b == b'~')
    then b ∷ []
    else (if b == 32 then codes "+" else b'%' ∷ hex_digit (b / 16) ∷ hex_digit (b % 16) ∷ [])

-- `url.QueryEscape`.
unfoldable pub query_escape : Text → Text
query_escape [] = []
query_escape (c ∷ s) = flat_map escape_byte (utf8 c) ++ query_escape s

-- `s < t` on strings.
unfoldable pub text_lt : Text → Text → Bool
text_lt s [] = false
text_lt [] (b ∷ t) = true
text_lt (a ∷ s) (b ∷ t) = ltb a b || ((a == b) && text_lt s t)

module _ {ℓ} {V : Type ℓ} where
  insert_sorted : Text × V → Map V → Map V
  unfolding text_lt
  insert_sorted (k, v) [] = (k, v) ∷ []
  insert_sorted (k, v) ((j, w) ∷ m) =
      if text_lt k j then (k, v) ∷ (j, w) ∷ m else (j, w) ∷ insert_sorted (k, v) m

  sort_keys : Map V → Map V
  unfolding insert_sorted
  sort_keys [] = []
  sort_keys (e ∷ m) = insert_sorted e (sort_keys m)

join_pairs : Map Text → Text
unfolding query_escape
join_pairs [] = []
join_pairs ((k, v) ∷ []) = query_escape k ++ (codes "=" ++ query_escape v)
join_pairs ((k, v) ∷ m) =
    query_escape k ++ (codes "=" ++ (query_escape v ++ (codes "&" ++ join_pairs m)))

-- `Values.Encode`, which sorts by key, of values with one text for each key.
unfoldable pub encode : Map Text → Text
unfolding join_pairs sort_keys
encode m = join_pairs (sort_keys m)

-- `url.Values`: the texts of each key.
abbrev pub Values : Type 0
Values = Map (List Text)

-- `Set` and `Add`.
unfoldable pub set_value : Text → Text → Values → Values
unfolding insert
set_value k v m = insert k (v ∷ []) m

unfoldable pub add_value : Text → Text → Values → Values
unfolding insert lookup
add_value k v m = elim (lookup k m) [
  | none ↦ insert k (v ∷ []) m
  | some vs ↦ insert k (vs ++ (v ∷ [])) m
]

pairs_of : Values → Map Text
pairs_of [] = []
pairs_of ((k, vs) ∷ m) = map (λ v. (k, v)) vs ++ pairs_of m

-- `Values.Encode`.
unfoldable pub encode_values : Values → Text
unfolding join_pairs sort_keys pairs_of
encode_values m = join_pairs (pairs_of (sort_keys m))
