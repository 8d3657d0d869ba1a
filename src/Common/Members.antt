-- ===== src/Common/Members.antt =====
-- Membership in the lists that the program builds, by the library's family.
use mathlib.Core.Path.{◌≡◌, refl, subst}
use mathlib.Core.Logic.{◌↔◌, ◌⊎◌, inl, inr}
use mathlib.Core.Bool.{Bool, true, false}
use mathlib.Core.List.{List, [], ◌∷◌, ◌++◌, flat_map}
pub use mathlib.Core.List.{Memᴰ}
use mathlib.Core.List.Memᴰ
use bloblang_lsp.Common.Basic.{if◌then◌else◌}

pub Memᴰ-append {ℓ} :
    {A : Type ℓ} (a : A) (xs ys : List A) → Memᴰ a (xs ++ ys) ↔ (Memᴰ a xs ⊎ Memᴰ a ys)
Memᴰ-append a xs ys = (Memᴰ.append_cases xs, back)
  where
    back : Memᴰ a xs ⊎ Memᴰ a ys → Memᴰ a (xs ++ ys)
    back (inl m) = Memᴰ.append_left ys m
    back (inr m) = Memᴰ.append_right xs m

module _ {ℓ κ} {A : Type ℓ} {B : Type κ} (f : A → List B) (b : B) where
  flat_map→Memᴰ : (xs : List A) → Memᴰ b (flat_map f xs) → (a : A) × Memᴰ a xs × Memᴰ b (f a)
  unfolding flat_map
  flat_map→Memᴰ [] m = absurd (Memᴰ.not-nil m)
  flat_map→Memᴰ (x ∷ xs) m = elim (Memᴰ.append_cases (f x) m) [
    | inl here ↦ (x, Memᴰ.head refl, here)
    | inr later ↦ let (a, at, inside) = flat_map→Memᴰ xs later in (a, Memᴰ.tail at, inside)
  ]

  Memᴰ→flat_map : (xs : List A) (a : A) → Memᴰ a xs → Memᴰ b (f a) → Memᴰ b (flat_map f xs)
  unfolding flat_map
  Memᴰ→flat_map [] a m inside = absurd (Memᴰ.not-nil m)
  Memᴰ→flat_map (x ∷ xs) a (Memᴰ.head e) inside =
      Memᴰ.append_left (flat_map f xs) (subst (λ y. Memᴰ b (f y)) e inside)
  Memᴰ→flat_map (x ∷ xs) a (Memᴰ.tail m) inside =
      Memᴰ.append_right (f x) (Memᴰ→flat_map xs a m inside)

  pub Memᴰ-flat_map : (xs : List A) → Memᴰ b (flat_map f xs) ↔ ((a : A) × Memᴰ a xs × Memᴰ b (f a))
  Memᴰ-flat_map xs = (flat_map→Memᴰ xs, λ (a, m, inside). Memᴰ→flat_map xs a m inside)

-- One element, and another one under a condition.
pub Memᴰ-one_or_two {ℓ} :
    {A : Type ℓ} (a first second : A) (both : Bool)
    → Memᴰ a (first ∷ (if both then second ∷ [] else []))
      ↔ ((a ≡ first) ⊎ ((both ≡ true) × (a ≡ second)))
Memᴰ-one_or_two a first second both = (λ m. there (Memᴰ.cases_cons m), back both)
  where
    last :
        (both : Bool)
        → Memᴰ a (if both then second ∷ [] else [])
        → (a ≡ first) ⊎ ((both ≡ true) × (a ≡ second))
    last true m = inr (refl, Memᴰ.eq_of_singleton m)
    last false m = absurd (Memᴰ.not-nil m)

    there :
        (a ≡ first) ⊎ Memᴰ a (if both then second ∷ [] else [])
        → (a ≡ first) ⊎ ((both ≡ true) × (a ≡ second))
    there (inl e) = inl e
    there (inr m) = last both m

    back :
        (both : Bool)
        → (a ≡ first) ⊎ ((both ≡ true) × (a ≡ second))
        → Memᴰ a (first ∷ (if both then second ∷ [] else []))
    back b (inl e) = Memᴰ.head e
    back true (inr (h, e)) = Memᴰ.tail (Memᴰ.head e)
    back false (inr (h, e)) = cc

-- A list that is there under a condition.
pub Memᴰ-if {ℓ} :
    {A : Type ℓ} (a : A) (given : Bool) (xs : List A)
    → Memᴰ a (if given then xs else []) ↔ ((given ≡ true) × Memᴰ a xs)
Memᴰ-if a true xs = (λ m. (refl, m), λ (h, m). m)
Memᴰ-if a false xs = (λ m. absurd (Memᴰ.not-nil m), λ (h, m). cc)
