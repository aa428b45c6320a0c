-- ===== src/Common/Pairwise.antt =====
-- A relation between every element of a list and every later one, and predicates on all elements.
use mathlib.Core.Path.{◌≡◌, refl}
use mathlib.Core.Logic.{◌↔◌}
use mathlib.Core.Bool.{Bool, true, false}
use mathlib.Core.List.{List, [], ◌∷◌, ◌++◌}
use elfex.Common.Lists.{All, any}

module _ {ℓ} {A : Type ℓ} where
  abbrev pub Pairwise {κ} : (A → A → Type κ) → List A → Type κ
  Pairwise R [] = Unit {κ}
  Pairwise R (x ∷ xs) = All (R x) xs × Pairwise R xs

  pub All-map {κ μ} :
      {P : A → Type κ} {Q : A → Type μ} (f : (x : A) → P x → Q x) (xs : List A)
      → All P xs
      → All Q xs
  All-map f [] h = tt
  All-map f (x ∷ xs) h = (f x h.0, All-map f xs h.1)

  pub any-append :
      (p : A → Bool) (xs ys : List A)
      → (any p (xs ++ ys) ≡ false) ↔ ((any p xs ≡ false) × (any p ys ≡ false))
  unfolding any
  any-append p [] ys = (λ h. (refl, h), λ h. h.1)
  any-append p (x ∷ xs) ys =
      let ih = any-append p xs ys in
      elim (p x)
        as (λ b.
          ((elim b [ true ↦ true | false ↦ any p (xs ++ ys) ]) ≡ false)
          ↔ (((elim b [ true ↦ true | false ↦ any p xs ]) ≡ false) × (any p ys ≡ false))) [
            | true ↦ (λ h. cc, λ h. cc (h.0))
            | false ↦ ih
          ]
