-- ===== src/Base/Texts.antt =====
-- A Go string as the list of its characters' codes. The program slices a string only at positions that
-- it found in the same string, so positions count characters here, where they count bytes in Go.
use Prim.Native.Char.{code}
use Prim.Native.Nat.{zero, ◌/◌, ◌%◌, ℕ, suc, ◌+◌, ◌-◌}
use Prim.Native.String.{String}
use mathlib.Core.Path.{◌≡◌, refl}
use mathlib.Core.Logic.{◌↔◌, ◌≢◌}
use mathlib.Core.Bool.{Bool, true, false, ◌&&◌, ◌||◌}
use mathlib.Core.Option.{Option, none, some}
use mathlib.Core.List.{List, [], ◌∷◌, ◌++◌, map, reverse}
use native.Mathlib.Omega.{arith}
use go_amizone.Base.Tests.{◌==◌, ltb, leb, if◌then◌else◌}
use go_amizone.Base.Lists.{any, length}

abbrev pub Text : Type 0
Text = List ℕ

-- The text of a literal.
abbrev pub codes : String → Text
codes String.[] = []
codes (String.◌∷◌ c s) = code c ∷ codes s

unfoldable pub text_eq : Text → Text → Bool
text_eq [] [] = true
text_eq [] (_ ∷ _) = false
text_eq (_ ∷ _) [] = false
text_eq (a ∷ s) (b ∷ t) = (a == b) && text_eq s t

pub text_eq_iff : (s t : Text) → (text_eq s t ≡ true) ↔ (s ≡ t)
unfolding text_eq
text_eq_iff [] [] = ground arith
text_eq_iff [] (_ ∷ _) = ground arith
text_eq_iff (_ ∷ _) [] = ground arith
text_eq_iff (a ∷ s) (b ∷ t) = ground (arith, text_eq_iff s t)

pub text_eq_refl : (s : Text) → text_eq s s ≡ true
text_eq_refl s = (text_eq_iff s s).1 refl

pub text_eq-false : (s t : Text) → s ≢ t → text_eq s t ≡ false
text_eq-false s t h = ground (arith, text_eq_iff s t)

abbrev pub is_empty : Text → Bool
is_empty [] = true
is_empty (_ ∷ _) = false

-- `strings.IndexByte`: the position of the first `c`, `none` for -1.
unfoldable pub index_byte : Text → ℕ → Option ℕ
index_byte [] c = none
index_byte (a ∷ s) c =
    if a == c then some 0 else elim (index_byte s c) [ none ↦ none | some i ↦ some (suc i) ]

-- `strings.HasPrefix`.
unfoldable pub has_prefix : Text → Text → Bool
has_prefix s [] = true
has_prefix [] (b ∷ t) = false
has_prefix (a ∷ s) (b ∷ t) = (a == b) && has_prefix s t

-- `strings.Index`: the position of the first occurrence of `t`, `none` for -1.
unfoldable pub index : Text → Text → Option ℕ
unfolding has_prefix
index [] t = if is_empty t then some 0 else none
index (a ∷ s) t =
    let later : Option ℕ = elim (index s t) [ none ↦ none | some i ↦ some (suc i) ] in
    if has_prefix (a ∷ s) t then some 0 else later

-- `strings.Contains`.
unfoldable pub contains : Text → Text → Bool
unfolding index
contains s t = elim (index s t) [ none ↦ false | some _ ↦ true ]

-- `unicode.IsSpace`.
unfoldable pub is_space : ℕ → Bool
is_space c =
    (leb 9 c && leb c 13)
    || (c == 32)
    || (c == 0x85)
    || (c == 0xA0)
    || (c == 0x1680)
    || (leb 0x2000 c && leb c 0x200A)
    || (c == 0x2028)
    || (c == 0x2029)
    || (c == 0x202F)
    || (c == 0x205F)
    || (c == 0x3000)

-- `strings.TrimLeftFunc`.
unfoldable pub trim_left : (ℕ → Bool) → Text → Text
trim_left p [] = []
trim_left p (c ∷ s) = if p c then trim_left p s else c ∷ s

-- `strings.TrimFunc`: both ends.
unfoldable pub trim : (ℕ → Bool) → Text → Text
unfolding trim_left
trim p s = reverse (trim_left p (reverse (trim_left p s)))

-- `strings.TrimSpace`.
unfoldable pub trim_space : Text → Text
unfolding trim is_space
trim_space s = trim is_space s

-- The characters of `strings.Trim`'s cutset.
abbrev pub in_set : Text → ℕ → Bool
in_set set c = any (λ d. d == c) set

-- `unicode.ToUpper` where the result is an ASCII character: dotless i and long s are the two others
-- that have one. Other characters stay: the results are compared with ASCII texts alone.
unfoldable pub rune_upper : ℕ → ℕ
rune_upper c =
    if leb b'a' c && leb c b'z'
    then c - 32
    else (if c == 0x131 then b'I' else if c == 0x17F then b'S' else c)

-- `unicode.ToLower`, likewise: I with a dot and the Kelvin sign are the two others.
unfoldable pub rune_lower : ℕ → ℕ
rune_lower c =
    if leb b'A' c && leb c b'Z'
    then c + 32
    else (if c == 0x130 then b'i' else if c == 0x212A then b'k' else c)

unfoldable pub to_upper : Text → Text
unfolding rune_upper
to_upper s = map rune_upper s

unfoldable pub to_lower : Text → Text
unfolding rune_lower
to_lower s = map rune_lower s

unfoldable pub decimal_from : ℕ → ℕ → Text → Text
decimal_from zero n acc = acc
decimal_from (suc fuel) n acc =
    let rest = decimal_from fuel (n / 10) ((48 + n % 10) ∷ acc) in
    if ltb n 10 then (48 + n) ∷ acc else rest

-- A number of at most twenty digits, such as a 64-bit one, in decimal.
unfoldable pub decimal : ℕ → Text
unfolding decimal_from
decimal n = decimal_from 20 n []

-- `skip` characters belong to an occurrence that is replaced already.
unfoldable pub replace_from : ℕ → Text → Text → Text → Text
unfolding has_prefix
replace_from skip [] old new = []
replace_from (suc skip) (c ∷ s) old new = replace_from skip s old new
replace_from zero (c ∷ s) old new =
    let rest : Text = replace_from zero s old new in
    let after : Text = replace_from (length old - 1) s old new in
    if has_prefix (c ∷ s) old then new ++ after else c ∷ rest

-- `strings.ReplaceAll` of a text that is not empty.
unfoldable pub replace_all : Text → Text → Text → Text
unfolding replace_from
replace_all s old new = replace_from 0 s old new
