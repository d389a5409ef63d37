-- ===== src/Base/Distinct.antt =====
-- Lists whose elements were added each under a key that was not seen before.
use mathlib.Core.Path.{◌≡◌, subst}
use mathlib.Core.Logic.{◌≢◌}
use mathlib.Core.Bool.{true, false}
use mathlib.Core.List.{List, [], ◌∷◌, ◌++◌}
use native.Mathlib.Omega.{arith}
use go_amizone.Base.Lists.{any, All, All-append}
use go_amizone.Base.Texts.{Text, text_eq, text_eq_refl}
use go_amizone.Base.Sort.{Pairwise}

module _ {A : Type 0} (key : A → Text) where
  abbrev pub DifferentKeys : A → A → Type 0
  DifferentKeys a b = key a ≢ key b

  -- Different keys, all of which were seen.
  pub record IsKeyed (seen : List Text) (xs : List A) : Type 0 where
    pub different : Pairwise DifferentKeys xs
    pub all_seen : All (λ x. any (text_eq (key x)) seen ≡ true) xs

  Pairwise-append :
      (xs : List A) (y : A)
      → Pairwise DifferentKeys xs
      → All (λ x. DifferentKeys x y) xs
      → Pairwise DifferentKeys (xs ++ (y ∷ []))
  Pairwise-append [] y h hs = (_, _)
  Pairwise-append (x ∷ xs) y (h, hs) (k, ks) =
      (All-append (DifferentKeys x) xs (y ∷ []) h (k, _), Pairwise-append xs y hs ks)

  unseen :
      (k : Text) (seen : List Text) (x : A)
      → any (text_eq k) seen ≡ false
      → any (text_eq (key x)) seen ≡ true
      → key x ≢ k
  unseen k seen x fresh old e =
      let again : any (text_eq k) seen ≡ true = subst (λ k. any (text_eq k) seen ≡ true) e old in
      ground (arith, fresh, again)

  unseen-All :
      (k : Text) (seen : List Text) (xs : List A)
      → any (text_eq k) seen ≡ false
      → All (λ x. any (text_eq (key x)) seen ≡ true) xs
      → All (λ x. key x ≢ k) xs
  unseen-All k seen [] fresh h = _
  unseen-All k seen (x ∷ xs) fresh (h, hs) =
      (unseen k seen x fresh h, unseen-All k seen xs fresh hs)

  seen-All :
      (k : Text) (seen : List Text) (xs : List A)
      → All (λ x. any (text_eq (key x)) seen ≡ true) xs
      → All (λ x. any (text_eq (key x)) (k ∷ seen) ≡ true) xs
  seen-All k seen [] h = _
  seen-All k seen (x ∷ xs) (h, hs) = (ground (arith, h), seen-All k seen xs hs)

  pub IsKeyed-add :
      (seen : List Text) (xs : List A) (x : A)
      → any (text_eq (key x)) seen ≡ false
      → IsKeyed seen xs
      → IsKeyed (key x ∷ seen) (xs ++ (x ∷ []))
  IsKeyed-add seen xs x fresh keyed = record {
    different =
        Pairwise-append xs x keyed.different (unseen-All (key x) seen xs fresh keyed.all_seen);
    all_seen =
        All-append (λ y. any (text_eq (key y)) (key x ∷ seen) ≡ true) xs (x ∷ [])
          (seen-All (key x) seen xs keyed.all_seen) (ground (arith, text_eq_refl (key x)), _);
  }
