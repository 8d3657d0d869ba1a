-- ===== src/Help/Distance/Words.antt =====
-- editDistance of internal/help/rank.go counts the fewest edits between two words.
use bloblang_lsp.Common.{
  ℕ, zero, suc, ◌+◌, ◌-◌, ◌≤◌, ◌<◌, Text, ◌||◌, [], ◌∷◌, ◌++◌, ◌≡◌, ◌⊎◌, inl, inr, refl, sym, ap,
  ◌∙◌, subst, arith, ltb, Bool-cases, length, append_assoc, append-nil,
}
use bloblang_lsp.Help.Distance.{at, edit_distance}
use bloblang_lsp.Help.Distance.Edits.{
  Edits, done, keep, change, delete, insert, swap, IsLeast, distance, distance-IsLeast,
}
use bloblang_lsp.Help.Distance.Rows.{rev_take, fill_rows-dist}

-- A word read backwards, in front of another.
abbrev rev_onto : Text → Text → Text
rev_onto [] t = t
rev_onto (c ∷ s) t = rev_onto s (c ∷ t)

carried : {x y : Text} (n m : ℕ) → Edits x y (n + suc m) → Edits x y (suc n + m)
carried {x} {y} n m e = subst (λ k. Edits x y k) (omega arith) e

-- Edits read backwards, behind other edits.
rev_onto-Edits :
    {x y a b : Text} {n : ℕ} (m : ℕ)
    → Edits x y n
    → Edits a b m
    → Edits (rev_onto x a) (rev_onto y b) (n + m)
rev_onto-Edits {a = a} {b = b} m done e = subst (λ k. Edits a b k) (omega arith) e
rev_onto-Edits m (keep f) e = rev_onto-Edits m f (keep e)
rev_onto-Edits m (change {n} f) e = carried n m (rev_onto-Edits (suc m) f (change e))
rev_onto-Edits m (delete {n} f) e = carried n m (rev_onto-Edits (suc m) f (delete e))
rev_onto-Edits m (insert {n} f) e = carried n m (rev_onto-Edits (suc m) f (insert e))
rev_onto-Edits m (swap {n} f) e = carried n m (rev_onto-Edits (suc m) f (swap e))

rev_onto-append : (s t : Text) → rev_onto s t ≡ rev_onto s [] ++ t
rev_onto-append [] t = refl
rev_onto-append (c ∷ s) t =
    rev_onto-append s (c ∷ t)
    ∙ sym (append_assoc (rev_onto s []) (c ∷ []) t)
    ∙ ap (λ u. u ++ t) (sym (rev_onto-append s (c ∷ [])))

rev_onto-rev_onto : (s t u : Text) → rev_onto (rev_onto s t) u ≡ rev_onto t (s ++ u)
rev_onto-rev_onto [] t u = refl
rev_onto-rev_onto (c ∷ s) t u = rev_onto-rev_onto s (c ∷ t) u

rev_take-cons : (c : ℕ) (x : Text) (i : ℕ) → rev_take (c ∷ x) (suc i) ≡ rev_take x i ++ c ∷ []
rev_take-cons c x zero = refl
rev_take-cons c x (suc i) = ap (λ s. at x i ∷ s) (rev_take-cons c x i)

rev_take-length : (x : Text) → rev_take x (length x) ≡ rev_onto x []
rev_take-length [] = refl
rev_take-length (c ∷ x) =
    rev_take-cons c x (length x)
    ∙ ap (λ s. s ++ c ∷ []) (rev_take-length x)
    ∙ sym (rev_onto-append x (c ∷ []))

abbrev reversed : Text → Text
reversed x = rev_onto x []

reversed-Edits : (x y : Text) (n : ℕ) → Edits x y n → Edits (reversed x) (reversed y) n
reversed-Edits x y n e =
    subst (λ k. Edits (reversed x) (reversed y) k) (omega arith) (rev_onto-Edits 0 e done)

reversed-reversed : (x : Text) → reversed (reversed x) ≡ x
reversed-reversed x = rev_onto-rev_onto x [] [] ∙ append-nil x

-- The fewest edits are as many backwards.
reversed-IsLeast : (x y : Text) (n : ℕ) → IsLeast (reversed x) (reversed y) n → IsLeast x y n
reversed-IsLeast x y n least = record {
  enough =
      subst (λ s. Edits s y n) (reversed-reversed x)
        (subst (λ t. Edits (reversed (reversed x)) t n) (reversed-reversed y)
          (reversed-Edits (reversed x) (reversed y) n least.enough));
  needed = λ m e. least.needed m (reversed-Edits x y m e);
}

-- Every edit changes the length by at most one.
Edits-lengths :
    {x y : Text} {n : ℕ} → Edits x y n → (length x - length y ≤ n) × (length y - length x ≤ n)
Edits-lengths done = (omega arith, omega arith)
Edits-lengths (keep e) = let (a, b) = Edits-lengths e in (omega (arith, a, b), omega (arith, a, b))
Edits-lengths (change e) =
    let (a, b) = Edits-lengths e in (omega (arith, a, b), omega (arith, a, b))
Edits-lengths (delete e) =
    let (a, b) = Edits-lengths e in (omega (arith, a, b), omega (arith, a, b))
Edits-lengths (insert e) =
    let (a, b) = Edits-lengths e in (omega (arith, a, b), omega (arith, a, b))
Edits-lengths (swap e) = let (a, b) = Edits-lengths e in (omega (arith, a, b), omega (arith, a, b))

-- The result is the fewest edits that turn one word into the other, with a swap of neighbours as
-- one edit; or it is one more than the maximum, and more edits than the maximum are needed.
pub edit_distance-IsLeast :
    (x y : Text) (maximum : ℕ)
    → IsLeast x y (edit_distance x y maximum)
      ⊎ ((edit_distance x y maximum ≡ maximum + 1) × ((m : ℕ) → Edits x y m → maximum < m))
unfolding edit_distance
edit_distance-IsLeast x y maximum =
    elim (Bool-cases (ltb maximum (length x - length y) || ltb maximum (length y - length x))) [
      | inl h ↦ rw h (inr (refl, λ m e. ground (arith, h, Edits-lengths e)))
      | inr h ↦
          rw (h, fill_rows-dist x y, rev_take-length x, rev_take-length y)
            (inl (
              reversed-IsLeast x y (distance (reversed x) (reversed y))
                (distance-IsLeast (reversed x) (reversed y))))
    ]
