-- ===== src/Base/Results.antt =====
-- The outcome of a Go call that returns a value and an error, or that panics.
use Prim.Native.Nat.{ℕ}
use mathlib.Core.List.{List}
use mathlib.Core.Logic.{◌⊎◌, inl, inr}
use mathlib.Core.Path.{◌≡◌, refl}

-- `fail` is a non-nil error with its message, `panic` a run-time panic.
pub data Result {ℓ} (A : Type ℓ) : Type ℓ where
  ok : A → Result A
  fail : List ℕ → Result A
  panic : Result A

infixl 5 ◌>>=◌
abbrev pub ◌>>=◌ {ℓ κ} : {A : Type ℓ} {B : Type κ} → Result A → (A → Result B) → Result B
ok a >>= f = f a
fail e >>= f = fail e
panic >>= f = panic

pub Result-cases {ℓ} :
    {A : Type ℓ} (r : Result A)
    → ((a : A) × (r ≡ ok a)) ⊎ (((e : List ℕ) × (r ≡ fail e)) ⊎ (r ≡ panic))
Result-cases (ok a) = inl (a, refl)
Result-cases (fail e) = inr (inl (e, refl))
Result-cases panic = inr (inr refl)
