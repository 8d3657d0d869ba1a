-- ===== src/Common/Dict.antt =====
-- A map of the program as an association list whose first entry for a key counts. A lookup's
-- `none` is a missing key.

use mathlib.Core.Path.{◌≡◌, refl, ap, subst}
use mathlib.Core.List.{List, [], ◌∷◌, ◌++◌, map}
use mathlib.Core.Option.{Option, none, some, some-injective}
use native.Mathlib.Omega.{arith}
use mathlib.Core.Logic.{inl, inr}
use bloblang_lsp.Common.Basic.{if◌then◌else◌, Bool-cases}
use mathlib.Core.Bool.{true, false}
use bloblang_lsp.Common.Tests.{Eq}
use bloblang_lsp.Common.Lists.{contains, Distinct, All}

abbrev pub Dict {ℓ κ} : Type ℓ → Type κ → Type (ℓ ⊔ κ)
Dict K V = List (K × V)

module _ {ℓ κ} {K : Type ℓ} {V : Type κ} ⦃e : Eq K⦄ where
  unfoldable pub lookup : K → Dict K V → Option V
  lookup k [] = none
  lookup k ((j, v) ∷ m) = if e.beq j k then some v else lookup k m

  unfoldable pub insert : K → V → Dict K V → Dict K V
  insert k v [] = (k, v) ∷ []
  insert k v ((j, w) ∷ m) = if e.beq j k then (k, v) ∷ m else (j, w) ∷ insert k v m

  -- `delete(m, k)`: every entry for the key goes.
  unfoldable pub remove : K → Dict K V → Dict K V
  remove k [] = []
  remove k ((j, v) ∷ m) = let rest = remove k m in if e.beq j k then rest else (j, v) ∷ rest

  pub lookup-insert :
      (k j : K) (v : V) (m : Dict K V)
      → lookup j (insert k v m) ≡ (if e.beq k j then some v else lookup j m)
  unfolding lookup insert
  lookup-insert k j v [] = refl
  lookup-insert k j v ((i, w) ∷ m) =
      ground (arith, e.beq_iff k j, e.beq_iff i k, e.beq_iff i j, lookup-insert k j v m)

  pub lookup-remove :
      (k j : K) (m : Dict K V) → lookup j (remove k m) ≡ (if e.beq k j then none else lookup j m)
  unfolding lookup remove
  lookup-remove k j [] = ground arith
  lookup-remove k j ((i, w) ∷ m) =
      ground (arith, e.beq_iff k j, e.beq_iff i k, e.beq_iff i j, lookup-remove k j m)

-- The dictionary that gives each listed key the value of a function.
module _ {ℓ κ} {K : Type ℓ} {V : Type κ} where
  abbrev pub table : (K → V) → List K → Dict K V
  table f [] = []
  table f (x ∷ xs) = (x, f x) ∷ table f xs

  pub table-append_one :
      (f : K → V) (xs : List K) (k : K) → table f (xs ++ k ∷ []) ≡ table f xs ++ (k, f k) ∷ []
  table-append_one f [] k = refl
  table-append_one f (x ∷ xs) k = ap (◌∷◌ (x, f x)) (table-append_one f xs k)

module _ {ℓ κ} {K : Type ℓ} {V : Type κ} ⦃e : Eq K⦄ where
  abbrev pub updated : (K → V) → K → V → K → V
  updated f k v x = if e.beq k x then v else f x

  pub table-updated_absent :
      (f : K → V) (k : K) (v : V) (xs : List K)
      → contains xs k ≡ false
      → table (updated f k v) xs ≡ table f xs
  table-updated_absent f k v [] h = refl
  table-updated_absent f k v (x ∷ xs) h =
      ground (arith, e.beq_iff k x, e.beq_iff x k, table-updated_absent f k v xs)

  pub insert-table_absent :
      (f : K → V) (k : K) (v : V) (xs : List K)
      → contains xs k ≡ false
      → insert k v (table f xs) ≡ table f xs ++ (k, v) ∷ []
  unfolding insert
  insert-table_absent f k v [] h = refl
  insert-table_absent f k v (x ∷ xs) h = ground (arith, insert-table_absent f k v xs)

  pub insert-table_present :
      (f : K → V) (k : K) (v : V) (xs : List K)
      → contains xs k ≡ true
      → Distinct xs
      → insert k v (table f xs) ≡ table (updated f k v) xs
  unfolding insert
  insert-table_present f k v [] h d = ground arith
  insert-table_present f k v (x ∷ xs) h d = ground (
    arith,
    e.beq_iff x k,
    e.beq_iff k x,
    table-updated_absent f k v xs,
    insert-table_present f k v xs,
  )

-- A predicate of the entries.
module _ {ℓ κ ι} {K : Type ℓ} {V : Type κ} ⦃e : Eq K⦄ (P : K × V → Type ι) where
  pub All-insert : (k : K) (v : V) (m : Dict K V) → P (k, v) → All P m → All P (insert k v m)
  unfolding insert
  All-insert k v [] p h = (p, tt)
  All-insert k v ((j, w) ∷ m) p h = elim (Bool-cases (e.beq j k)) [
    | inl t ↦ rw t (p, h.1)
    | inr t ↦ rw t (h.0, All-insert k v m p h.1)
  ]

  pub All-remove : (k : K) (m : Dict K V) → All P m → All P (remove k m)
  unfolding remove
  All-remove k [] h = tt
  All-remove k ((j, w) ∷ m) h = elim (Bool-cases (e.beq j k)) [
    | inl t ↦ rw t (All-remove k m h.1)
    | inr t ↦ rw t (h.0, All-remove k m h.1)
  ]

  pub lookup-All : (k : K) (m : Dict K V) {v : V} → All P m → lookup k m ≡ some v → P (k, v)
  unfolding lookup
  lookup-All k [] h found = cc
  lookup-All k ((j, w) ∷ m) {v} h found = elim (Bool-cases (e.beq j k)) [
    | inl t ↦
        let key : j ≡ k = (e.beq_iff j k).0 t in
        let value : w ≡ v = some-injective w v (rw t at found) in
        subst (λ (x : V). P (k, x)) value (subst (λ (x : K). P (x, w)) key h.0)
    | inr t ↦ lookup-All k m h.1 (rw t at found)
  ]

abbrev pub keys {ℓ κ} : {K : Type ℓ} {V : Type κ} → Dict K V → List K
keys m = map (λ x. x.0) m

module _ {ℓ κ} {K : Type ℓ} {V : Type κ} ⦃e : Eq K⦄ where
  pub lookup-absent : (k : K) (m : Dict K V) → contains (keys m) k ≡ false → lookup k m ≡ none
  unfolding lookup
  lookup-absent k [] h = refl
  lookup-absent k ((j, v) ∷ m) h = ground (arith, h, lookup-absent k m)
