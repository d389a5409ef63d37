-- ===== src/Cmd.antt =====
-- cmd/amizone-api-server/server.go: `EnvOrDefault`, with strconv.Atoi and strconv.ParseBool on 64 bits,
-- whose errors it drops. A variable that is not set is `none`.
pub mod Decimals
use go_amizone.Base.{
  ℕ, zero, suc, ◌+◌, ◌-◌, ◌*◌, ◌^◌, ℤ, pos, negsuc, Bool, true, false, ◌&&◌, [], ◌∷◌, Option, none,
  some, Text, codes, text_eq, any, ltb, leb, ◌==◌, if◌then◌else◌,
}

-- The types that `EnvOrDefault` is generic in.
pub data Setting : Type 0 where
  string : Text → Setting
  int : ℤ → Setting
  bool : Bool → Setting

-- A run of digits: its value, or the first error; `range` is a value past 64 bits.
pub data Scan : Type 0 where
  value : ℕ → Scan
  range syntax : Scan

abbrev is_digit : ℕ → Bool
is_digit c = leb b'0' c && leb c b'9'

unfoldable pub scan : ℕ → Text → Scan
scan n [] = value n
scan n (c ∷ s) =
    let d : ℕ = c - b'0' in
    let rest : Scan = scan (n * 10 + d) s in
    if is_digit c then (if ltb (n * 10 + d) (2 ^ 64) then rest else range) else syntax

-- A value with its sign, kept within 64 bits.
abbrev signed : Bool → ℕ → ℤ
signed false n = if ltb n (2 ^ 63) then pos n else pos (2 ^ 63 - 1)
signed true zero = pos 0
signed true (suc n) = if ltb n (2 ^ 63) then negsuc n else negsuc (2 ^ 63 - 1)

abbrev signed_scan : Bool → Scan → ℤ
signed_scan negative (value n) = signed negative n
signed_scan negative range = signed negative (2 ^ 64 - 1)
signed_scan negative syntax = pos 0

abbrev digits : Bool → Text → ℤ
digits negative [] = pos 0
digits negative (c ∷ s) = signed_scan negative (scan 0 (c ∷ s))

-- `strconv.Atoi`: the number that it gives beside its error.
unfoldable pub atoi : Text → ℤ
unfolding scan
atoi [] = pos 0
atoi (c ∷ s) =
    if c == b'-'
    then digits true s
    else (if c == b'+' then digits false s else digits false (c ∷ s))

-- `strconv.ParseBool`: false beside an error.
unfoldable pub parse_bool : Text → Bool
unfolding text_eq
parse_bool s =
    any (λ t. text_eq s t)
      (codes "1" ∷ codes "t" ∷ codes "T" ∷ codes "true" ∷ codes "TRUE" ∷ codes "True" ∷ [])

unfoldable pub env_or_default : Option Text → Setting → Setting
unfolding atoi parse_bool
env_or_default none def = def
env_or_default (some env) (string def) = string env
env_or_default (some env) (int def) = int (atoi env)
env_or_default (some env) (bool def) = bool (parse_bool env)
