-- ===== src/Common/Members.antt =====
-- Membership in a list, and how many different elements a list can have.
use Prim.Native.Nat.{suc, ◌≤◌}
use mathlib.Core.Path.{◌≡◌, refl, sym, ◌∙◌}
use mathlib.Core.Logic.{◌≢◌}
use mathlib.Core.List.{List, [], ◌∷◌, ◌++◌}
use native.Mathlib.Omega.{arith}
use cs525_project.Common.Lists.{length, All}

pub data IsIn {ℓ} {A : Type ℓ} (a : A) : List A → Type ℓ where
  here : {x : A} {xs : List A} → a ≡ x → IsIn a (x ∷ xs)
  there : {x : A} {xs : List A} → IsIn a xs → IsIn a (x ∷ xs)

module _ {ℓ} {A : Type ℓ} where
  -- No element stands twice.
  abbrev pub Differ : List A → Type ℓ
  Differ [] = Unit
  Differ (x ∷ xs) = All (λ y. y ≢ x) xs × Differ xs

  -- The list without one of its elements.
  without : (a : A) (xs : List A) → IsIn a xs → List A
  without a [] h = elim h [ ]
  without a (x ∷ xs) (here e) = xs
  without a (x ∷ xs) (there h) = x ∷ without a xs h

  length-without : (a : A) (xs : List A) (h : IsIn a xs) → suc (length (without a xs h)) ≡ length xs
  unfolding without
  length-without a [] h = elim h [ ]
  length-without a (x ∷ xs) (here e) = refl
  length-without a (x ∷ xs) (there h) = omega (arith, length-without a xs h)

  IsIn-without :
      {a b : A} (xs : List A) (h : IsIn a xs) → IsIn b xs → b ≢ a → IsIn b (without a xs h)
  unfolding without
  IsIn-without [] h k n = elim h [ ]
  IsIn-without (x ∷ xs) (here e) (here f) n = absurd (n (f ∙ sym e))
  IsIn-without (x ∷ xs) (here e) (there k) n = k
  IsIn-without (x ∷ xs) (there h) (here f) n = here f
  IsIn-without (x ∷ xs) (there h) (there k) n = there (IsIn-without xs h k n)

  All-without :
      (a : A) (ys xs : List A) (h : IsIn a xs)
      → All (λ y. IsIn y xs) ys
      → All (λ y. y ≢ a) ys
      → All (λ y. IsIn y (without a xs h)) ys
  All-without a [] xs h k n = tt
  All-without a (y ∷ ys) xs h k n = (IsIn-without xs h k.0 n.0, All-without a ys xs h k.1 n.1)

  -- Different members of a list are no more than the list has.
  pub length-Differ : (ys xs : List A) → Differ ys → All (λ y. IsIn y xs) ys → length ys ≤ length xs
  length-Differ [] xs d h = omega arith
  length-Differ (y ∷ ys) xs d h = omega (
    arith,
    length-without y xs h.0,
    length-Differ ys (without y xs h.0) d.1 (All-without y ys xs h.0 h.1 d.0),
  )

  pub Differ-append :
      (xs ys : List A)
      → Differ xs
      → Differ ys
      → All (λ x. All (λ y. y ≢ x) ys) xs
      → Differ (xs ++ ys)
  Differ-append [] ys d e apart = e
  Differ-append (x ∷ xs) ys d e apart = (both x xs d.0 apart.0, Differ-append xs ys d.1 e apart.1)
    where
      both :
          (z : A) (zs : List A)
          → All (λ y. y ≢ z) zs
          → All (λ y. y ≢ z) ys
          → All (λ y. y ≢ z) (zs ++ ys)
      both z [] h k = k
      both z (w ∷ zs) h k = (h.0, both z zs h.1 k)
