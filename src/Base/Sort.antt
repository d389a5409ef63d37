-- ===== src/Base/Sort.antt =====
-- Go's `sort.Slice` as an interface, the order that it leaves, and lists that pass a test.
use mathlib.Core.Path.{◌≡◌, refl, subst}
use mathlib.Core.Bool.{Bool, true, false}
use mathlib.Core.List.{List, [], ◌∷◌}
use mathlib.Core.List.{Permᴰ}
use mathlib.Core.List.Permᴰ
use go_amizone.Base.Tests.{if◌then◌else◌}
use go_amizone.Base.Lists.{All, select}

module _ {ℓ κ} {A : Type ℓ} (R : A → A → Type κ) where
  -- Every element is related to all later ones.
  abbrev pub Pairwise : List A → Type (ℓ ⊔ κ)
  Pairwise [] = Unit
  Pairwise (x ∷ xs) = All (R x) xs × Pairwise xs

-- `sort.Slice`: its result has the elements of the argument, and no element is less than an earlier
-- one when the test is asymmetric and what it leaves in place composes.
pub record SortSlice : Type 1 where
  pub sort_slice : {A : Type 0} → (A → A → Bool) → List A → List A
  pub permutes : {A : Type 0} (less : A → A → Bool) (xs : List A) → Permᴰ (sort_slice less xs) xs
  pub orders :
      {A : Type 0} (less : A → A → Bool)
      → ((a b : A) → less a b ≡ true → less b a ≡ false)
      → ((a b c : A) → less b a ≡ false → less c b ≡ false → less c a ≡ false)
      → (xs : List A) → Pairwise (λ a b. less b a ≡ false) (sort_slice less xs)

module _ {ℓ} {A : Type ℓ} (p : A → Bool) where
  keep-Permᴰ :
      (u : Bool) (a : A) {xs ys : List A}
      → Permᴰ xs ys
      → Permᴰ (if u then a ∷ xs else xs) (if u then a ∷ ys else ys)
  keep-Permᴰ true a d = Permᴰ.cons refl d
  keep-Permᴰ false a d = d

  keep_two-Permᴰ :
      (u v : Bool) (a b : A) (xs : List A)
      → Permᴰ
          (if u then a ∷ (if v then b ∷ xs else xs) else if v then b ∷ xs else xs)
          (if v then b ∷ (if u then a ∷ xs else xs) else if u then a ∷ xs else xs)
  keep_two-Permᴰ true true a b xs = Permᴰ.swap refl refl
  keep_two-Permᴰ true false a b xs = Permᴰ.refl (a ∷ xs)
  keep_two-Permᴰ false true a b xs = Permᴰ.refl (b ∷ xs)
  keep_two-Permᴰ false false a b xs = Permᴰ.refl xs

  -- A test picks the same elements from rearranged lists.
  pub select-Permᴰ : {xs ys : List A} → Permᴰ xs ys → Permᴰ (select p xs) (select p ys)
  select-Permᴰ Permᴰ.nil = Permᴰ.nil
  select-Permᴰ (Permᴰ.cons {a = a} {l₁ = xs} {l₂ = ys} e d) =
      subst (λ z. Permᴰ (select p (a ∷ xs)) (select p (z ∷ ys))) e
        (keep-Permᴰ (p a) a (select-Permᴰ d))
  select-Permᴰ (Permᴰ.swap {a = a} {b = b} {b' = b'} {l = xs} e₁ e₂) =
      subst (λ z. Permᴰ (select p (a ∷ b ∷ xs)) (select p (z ∷ b' ∷ xs))) e₂
        (subst (λ z. Permᴰ (select p (a ∷ b ∷ xs)) (select p (b ∷ z ∷ xs))) e₁
          (keep_two-Permᴰ (p a) (p b) a b (select p xs)))
  select-Permᴰ (Permᴰ.trans d₁ d₂) = Permᴰ.trans (select-Permᴰ d₁) (select-Permᴰ d₂)

  module _ {κ} (P : A → Type κ) where
    keep-All : (u : Bool) (x : A) (xs : List A) → P x → All P xs → All P (if u then x ∷ xs else xs)
    keep-All true x xs h hs = (h, hs)
    keep-All false x xs h hs = hs

    pub select-All : (xs : List A) → All P xs → All P (select p xs)
    select-All [] h = h
    select-All (x ∷ xs) (h, hs) = keep-All (p x) x (select p xs) h (select-All xs hs)

    keep_passed-All :
        (u : Bool) (x : A) (xs : List A)
        → (u ≡ true → P x)
        → All P xs
        → All P (if u then x ∷ xs else xs)
    keep_passed-All true x xs h hs = (h refl, hs)
    keep_passed-All false x xs h hs = hs

    -- What every element that passes has.
    pub select_passed : ((x : A) → p x ≡ true → P x) → (xs : List A) → All P (select p xs)
    select_passed h [] = _
    select_passed h (x ∷ xs) = keep_passed-All (p x) x (select p xs) (h x) (select_passed h xs)

  module _ {κ} (R : A → A → Type κ) where
    keep-Pairwise :
        (u : Bool) (x : A) (xs : List A)
        → All (R x) xs
        → Pairwise R xs
        → Pairwise R (if u then x ∷ xs else xs)
    keep-Pairwise true x xs h hs = (h, hs)
    keep-Pairwise false x xs h hs = hs

    pub select-Pairwise : (xs : List A) → Pairwise R xs → Pairwise R (select p xs)
    select-Pairwise [] h = h
    select-Pairwise (x ∷ xs) (h, hs) =
        keep-Pairwise (p x) x (select p xs) (select-All (R x) xs h) (select-Pairwise xs hs)

module _ {ℓ κ κ'} {A : Type ℓ} (R : A → A → Type κ) (S : A → A → Type κ') where
  All-imply : (x : A) → ((y : A) → R x y → S x y) → (ys : List A) → All (R x) ys → All (S x) ys
  All-imply x f [] h = _
  All-imply x f (y ∷ ys) (h, hs) = (f y h, All-imply x f ys hs)

  pub Pairwise-map : ((x y : A) → R x y → S x y) → (xs : List A) → Pairwise R xs → Pairwise S xs
  Pairwise-map f [] h = _
  Pairwise-map f (x ∷ xs) (h, hs) = (All-imply x (f x) xs h, Pairwise-map f xs hs)
