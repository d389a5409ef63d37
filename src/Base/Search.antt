-- ===== src/Base/Search.antt =====
-- Laws of the searches and slices of strings.
use Prim.Native.Nat.{ℕ, zero, suc, ◌+◌, ◌<◌}
use Prim.Native.Nat.add
use native.Mathlib.Nat.{zero-add}
use mathlib.Core.Path.{◌≡◌, refl, ap}
use mathlib.Core.Logic.{◌≢◌, inl, inr}
use mathlib.Core.Bool.{true}
use mathlib.Core.Option.{some}
use mathlib.Core.List.{[], ◌∷◌, ◌++◌}
use native.Mathlib.Omega.{arith}
use go_amizone.Base.Tests.{◌==◌, Bool-cases, Option-cases}
use go_amizone.Base.Lists.{take, drop, length, All}
use go_amizone.Base.Texts.{Text, index_byte, index, has_prefix}

-- Where `strings.IndexByte` finds a byte: the text before it has none, and the parts make the text.
pub index_byte_found :
    (s : Text) (c i : ℕ)
    → index_byte s c ≡ some i
    → (take i s ++ c ∷ drop (suc i) s ≡ s)
      × All (λ d. d ≢ c) (take i s)
      × (i < length s)
      × (length (take i s) ≡ i)
unfolding index_byte
index_byte_found [] c i e = absurd (cc)
index_byte_found (d ∷ s) c i e = elim (Bool-cases (d == c)) [
  | inl same ↦ let first : i ≡ 0 = ground arith in rw first (ground arith, tt, omega arith, refl)
  | inr other ↦ elim (Option-cases (index_byte s c)) [
    | inl missing ↦ absurd (ground arith)
    | inr (j, found) ↦
        let next : i ≡ suc j = ground arith in
        let (parts, before, small, size) = index_byte_found s c j found in
        rw next (ap (◌∷◌ d) parts, (ground arith, before), omega arith, ap suc size)
  ]
]

pub index_byte-append :
    (s t : Text) (c : ℕ) → All (λ d. d ≢ c) s → index_byte (s ++ c ∷ t) c ≡ some (length s)
unfolding index_byte
index_byte-append [] t c h = ground arith
index_byte-append (d ∷ s) t c h = ground (arith, index_byte-append s t c h.1)

pub take-length-append : (s t : Text) → take (length s) (s ++ t) ≡ s
take-length-append [] t = refl
take-length-append (c ∷ s) t = ap (◌∷◌ c) (take-length-append s t)

pub drop_past : (s t : Text) (c : ℕ) → drop (suc (length s)) (s ++ c ∷ t) ≡ t
drop_past [] t c = refl
drop_past (d ∷ s) t c = drop_past s t c

pub drop_nil : (n : ℕ) → drop {A = ℕ} n [] ≡ []
drop_nil zero = refl
drop_nil (suc n) = refl

pub has_prefix_parts : (s t : Text) → has_prefix s t ≡ true → t ++ drop (length t) s ≡ s
unfolding has_prefix
has_prefix_parts s [] h = refl
has_prefix_parts [] (b ∷ t) h = absurd (cc)
has_prefix_parts (a ∷ s) (b ∷ t) h = ground (arith, has_prefix_parts s t)

pub index_parts :
    (s t : Text) (i : ℕ) → index s t ≡ some i → take i s ++ (t ++ drop (length t) (drop i s)) ≡ s
unfolding index
index_parts [] [] i e = ground arith
index_parts [] (b ∷ t) i e = absurd (ground arith)
index_parts (a ∷ s) t i e = elim (Bool-cases (has_prefix (a ∷ s) t)) [
  | inl starts ↦ let here : i ≡ 0 = ground arith in rw here (has_prefix_parts (a ∷ s) t starts)
  | inr not_yet ↦ elim (Option-cases (index s t)) [
    | inl missing ↦ absurd (ground arith)
    | inr (j, found) ↦
        let later : i ≡ suc j = ground arith in rw later (ap (◌∷◌ a) (index_parts s t j found))
  ]
]

pub drop_add : (i n : ℕ) (s : Text) → drop (i + n) s ≡ drop n (drop i s)
drop_add zero n s = rw zero-add
drop_add (suc i) n [] = simp (add.suc, drop_nil n)
drop_add (suc i) n (c ∷ s) = rw add.suc (drop_add i n s)

-- What `index` of one character says, through the search for that character.
pub index-index_byte : (s : Text) (c : ℕ) → index s (c ∷ []) ≡ index_byte s c
unfolding index has_prefix index_byte
index-index_byte [] c = refl
index-index_byte (d ∷ s) c = ground (arith, index-index_byte s c)
