-- ===== src/Base/Lists.antt =====
-- Lists with lengths in the native numbers.
use Prim.Native.Nat.{ℕ, suc, ◌+◌}
use mathlib.Core.Path.{◌≡◌, refl}
use mathlib.Core.Logic.{◌⊎◌, inl, inr}
use mathlib.Core.Bool.{Bool, true, false}
use mathlib.Core.List.{List, [], ◌∷◌, ◌++◌}
use native.Mathlib.Omega.{arith}
use kwarm.Base.Tests.{if◌then◌else◌}

-- Membership that computes on the list.
abbrev pub Elem : {A : Type 0} → A → List A → Type 0
Elem x [] = ⊥
Elem x (y ∷ ys) = (y ≡ x) ⊎ Elem x ys

-- An entry that is put in front under a test.
pub Elem-if :
    {A : Type 0} (b : Bool) (x y : A) (ys : List A)
    → Elem x (if b then y ∷ ys else ys)
    → ((b ≡ true) × (y ≡ x)) ⊎ Elem x ys
Elem-if true x y ys (inl e) = inl (refl, e)
Elem-if true x y ys (inr e) = inr e
Elem-if false x y ys e = inr e

pub Elem-if_later :
    {A : Type 0} (b : Bool) (x y : A) (ys : List A) → Elem x ys → Elem x (if b then y ∷ ys else ys)
Elem-if_later true x y ys e = inr e
Elem-if_later false x y ys e = e

module _ {ℓ} {A : Type ℓ} where
  abbrev pub length : List A → ℕ
  length [] = 0
  length (x ∷ xs) = suc (length xs)

  -- How many entries pass the test.
  unfoldable pub count_p : (A → Bool) → List A → ℕ
  count_p p [] = 0
  count_p p (x ∷ xs) = let rest = count_p p xs in if p x then suc rest else rest

  pub length-append : (xs ys : List A) → length (xs ++ ys) ≡ length xs + length ys
  length-append [] ys = omega arith
  length-append (x ∷ xs) ys = omega (arith, length-append xs ys)

  -- Every entry has the property.
  abbrev pub All {κ} : (A → Type κ) → List A → Type κ
  All P [] = Unit
  All P (x ∷ xs) = P x × All P xs
