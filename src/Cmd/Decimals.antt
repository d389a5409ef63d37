-- ===== src/Cmd/Decimals.antt =====
-- Numbers that the environment holds in decimal.
use go_amizone.Base.{
  ℕ, zero, suc, ◌+◌, ◌*◌, ◌/◌, ◌%◌, ◌^◌, ◌<◌, ◌≤◌, ◌≡◌, refl, ◌∙◌, ap, ℤ, pos, negsuc, true, false,
  [], ◌∷◌, ◌++◌, some, Text, codes, ltb, decimal, decimal_from, arith, Bool-cases, inl, inr,
}
use go_amizone.Cmd.{int, value, scan, signed_scan, atoi, env_or_default}

-- One more than the largest number of `fuel` digits.
abbrev limit : ℕ → ℕ
limit zero = 1
limit (suc fuel) = 10 * limit fuel

-- The digits of a number are read back before what follows them.
scan-decimal_from :
    (fuel n : ℕ) (acc : Text)
    → n < limit fuel
    → 0 < fuel
    → n < 2 ^ 64
    → scan 0 (decimal_from fuel n acc) ≡ scan n acc
unfolding scan decimal_from
scan-decimal_from zero n acc small some_fuel fits = absurd (omega arith)
scan-decimal_from (suc zero) n acc small some_fuel fits = ground arith
scan-decimal_from (suc (suc fuel)) n acc small some_fuel fits =
    ground (arith, scan-decimal_from (suc fuel) (n / 10) ((48 + n % 10) ∷ acc))

-- A number in decimal begins with a digit.
head-decimal_from :
    (fuel n : ℕ) (acc : Text)
    → n < limit fuel
    → 0 < fuel
    → (c : ℕ) × (s : Text) × (decimal_from fuel n acc ≡ c ∷ s) × (48 ≤ c)
unfolding decimal_from
head-decimal_from zero n acc small some_fuel = absurd (omega arith)
head-decimal_from (suc zero) n acc small some_fuel = (48 + n, acc, ground arith, omega arith)
head-decimal_from (suc (suc fuel)) n acc small some_fuel = elim (Bool-cases (ltb n 10)) [
  | inl one ↦ (48 + n, acc, rw one refl, omega arith)
  | inr more ↦
      let (c, s, same, digit) =
        head-decimal_from (suc fuel) (n / 10) ((48 + n % 10) ∷ acc) (ground arith) (omega arith) in
      (c, s, rw more same, digit)
]

atoi_unsigned :
    (t : Text) (c : ℕ) (s : Text)
    → t ≡ c ∷ s
    → 48 ≤ c
    → (atoi t ≡ signed_scan false (scan 0 t)) × (atoi (45 ∷ t) ≡ signed_scan true (scan 0 t))
unfolding atoi
atoi_unsigned [] c s same digit = absurd (cc)
atoi_unsigned (d ∷ t) c s same digit = ground arith

scan-decimal : (n : ℕ) → n < 2 ^ 64 → scan 0 (decimal n) ≡ value n
unfolding decimal scan
scan-decimal n fits = scan-decimal_from 20 n [] (omega arith) (omega arith) fits

head-decimal : (n : ℕ) → n < 2 ^ 64 → (c : ℕ) × (s : Text) × (decimal n ≡ c ∷ s) × (48 ≤ c)
unfolding decimal
head-decimal n fits = head-decimal_from 20 n [] (omega arith) (omega arith)

-- The decimal spelling of a number, with its sign.
abbrev pub spelling : ℤ → Text
spelling (pos n) = decimal n
spelling (negsuc n) = codes "-" ++ decimal (suc n)

abbrev pub Fits64 : ℤ → Type 0
Fits64 (pos n) = n < 2 ^ 63
Fits64 (negsuc n) = n < 2 ^ 63

-- EnvOrDefault gives back every 64-bit number that the variable holds in decimal.
pub env_or_default-spelling :
    (i def : ℤ) → Fits64 i → env_or_default (some (spelling i)) (int def) ≡ int i
unfolding env_or_default
env_or_default-spelling (pos n) def fits =
    let (c, s, same, digit) = head-decimal n (omega arith) in
    ap int (
      (atoi_unsigned (decimal n) c s same digit).0
      ∙ ap (signed_scan false) (scan-decimal n (omega arith))
      ∙ ground arith)
env_or_default-spelling (negsuc n) def fits =
    let (c, s, same, digit) = head-decimal (suc n) (omega arith) in
    ap int (
      (atoi_unsigned (decimal (suc n)) c s same digit).1
      ∙ ap (signed_scan true) (scan-decimal (suc n) (omega arith))
      ∙ ground arith)
