-- ===== src/Help/Distance/Edits.antt =====
-- What editDistance of internal/help/rank.go is to compute: the least number of edits, each of which
-- touches its own part of the two words, with a swap of neighbours as one edit.
use bloblang_lsp.Common.{
  ℕ, suc, ◌+◌, ◌≤◌, min, Text, Bool, true, ◌&&◌, [], ◌∷◌, ◌≡◌, ◌⊎◌, inl, inr, sym, subst, arith,
  ◌==◌, ==→eq, if◌then◌else◌, Bool-cases, length,
}
use bloblang_lsp.Help.Distance.{cost}

-- The edits that turn one word into another, by their number.
pub data Edits : Text → Text → ℕ → Type 0 where
  done : Edits [] [] 0
  keep : {c : ℕ} {x y : Text} {n : ℕ} → Edits x y n → Edits (c ∷ x) (c ∷ y) n
  change : {c d : ℕ} {x y : Text} {n : ℕ} → Edits x y n → Edits (c ∷ x) (d ∷ y) (suc n)
  delete : {c : ℕ} {x y : Text} {n : ℕ} → Edits x y n → Edits (c ∷ x) y (suc n)
  insert : {d : ℕ} {x y : Text} {n : ℕ} → Edits x y n → Edits x (d ∷ y) (suc n)
  swap : {c d : ℕ} {x y : Text} {n : ℕ} → Edits x y n → Edits (c ∷ d ∷ x) (d ∷ c ∷ y) (suc n)

-- The number of edits that suffices and is not more than needed.
pub record IsLeast (x y : Text) (n : ℕ) : Type 0 where
  pub enough : Edits x y n
  pub needed : (m : ℕ) → Edits x y m → n ≤ m

-- The distance by the last characters, over words that are read backwards.
abbrev crossed : ℕ → ℕ → ℕ → ℕ → Bool
crossed c c' d d' = c == d' && c' == d

-- What the last characters allow without a swap.
abbrev best_of : ℕ → ℕ → ℕ → ℕ → ℕ → ℕ
best_of c d up left diagonal = min (min (up + 1) (left + 1)) (diagonal + cost c d)

unfoldable pub distance : Text → Text → ℕ
distance [] y = length y
distance (c ∷ x) [] = suc (length x)
distance (c ∷ []) (d ∷ y) = best_of c d (distance [] (d ∷ y)) (distance (c ∷ []) y) (distance [] y)
distance (c ∷ c' ∷ x) (d ∷ []) =
    best_of c d (distance (c' ∷ x) (d ∷ [])) (distance (c ∷ c' ∷ x) []) (distance (c' ∷ x) [])
distance (c ∷ c' ∷ x) (d ∷ d' ∷ y) =
    let best =
      best_of c d (distance (c' ∷ x) (d ∷ d' ∷ y)) (distance (c ∷ c' ∷ x) (d' ∷ y))
        (distance (c' ∷ x) (d' ∷ y)) in
    let swapped = distance x y + 1 in if crossed c c' d d' then min best swapped else best

-- Each edit is allowed for.
distance-delete : (c : ℕ) (x y : Text) → distance (c ∷ x) y ≤ suc (distance x y)
unfolding distance
distance-delete c [] [] = ground arith
distance-delete c (c' ∷ x) [] = ground arith
distance-delete c [] (d ∷ y) = ground arith
distance-delete c (c' ∷ x) (d ∷ []) = ground arith
distance-delete c (c' ∷ x) (d ∷ d' ∷ y) = ground arith

distance-insert : (d : ℕ) (x y : Text) → distance x (d ∷ y) ≤ suc (distance x y)
unfolding distance
distance-insert d [] y = ground arith
distance-insert d (c ∷ []) y = ground arith
distance-insert d (c ∷ c' ∷ x) [] = ground arith
distance-insert d (c ∷ c' ∷ x) (d' ∷ y) = ground arith

distance-change : (c d : ℕ) (x y : Text) → distance (c ∷ x) (d ∷ y) ≤ distance x y + cost c d
unfolding distance
distance-change c d [] y = ground arith
distance-change c d (c' ∷ x) [] = ground arith
distance-change c d (c' ∷ x) (d' ∷ y) = ground arith

distance-swap : (c d : ℕ) (x y : Text) → distance (c ∷ d ∷ x) (d ∷ c ∷ y) ≤ suc (distance x y)
unfolding distance
distance-swap c d x y = ground arith

cost_self : (c : ℕ) → cost c c ≡ 0
cost_self c = ground arith

distance-needed : {x y : Text} {n : ℕ} → Edits x y n → distance x y ≤ n
distance-needed done = unfold distance in omega arith
distance-needed (keep {c} {x} {y} e) =
    omega (arith, distance-change c c x y, cost_self c, distance-needed e)
distance-needed (change {c} {d} {x} {y} e) =
    ground (arith, distance-change c d x y, distance-needed e)
distance-needed (delete {c} {x} {y} e) = omega (arith, distance-delete c x y, distance-needed e)
distance-needed (insert {d} {x} {y} e) = omega (arith, distance-insert d x y, distance-needed e)
distance-needed (swap {c} {d} {x} {y} e) = omega (arith, distance-swap c d x y, distance-needed e)

-- What holds of both holds of the smaller.
min_of : (P : ℕ → Type 0) (a b : ℕ) → P a → P b → P (min a b)
min_of P a b p q = elim (smaller a b) [ inl e ↦ subst P (sym e) p | inr e ↦ subst P (sym e) q ]
  where
    smaller : (a b : ℕ) → (min a b ≡ a) ⊎ (min a b ≡ b)
    smaller a b = ground arith

more_by_one : {x y : Text} (n : ℕ) → Edits x y (suc n) → Edits x y (n + 1)
more_by_one {x} {y} n e = subst (λ m. Edits x y m) (omega arith) e

module _ (c d : ℕ) (x y : Text) where
  changed : (n : ℕ) → Edits x y n → Edits (c ∷ x) (d ∷ y) (n + cost c d)
  changed n e = elim (Bool-cases (c == d)) [
    | inl h ↦ rw h (
        subst (λ m. Edits (c ∷ x) (d ∷ y) m) (omega arith)
          (subst (λ z. Edits (c ∷ x) (z ∷ y) n) (==→eq c d h) (keep e)))
    | inr h ↦ rw h (more_by_one n (change e))
  ]

  best_of-Edits :
      (up left diagonal : ℕ)
      → Edits x (d ∷ y) up
      → Edits (c ∷ x) y left
      → Edits x y diagonal
      → Edits (c ∷ x) (d ∷ y) (best_of c d up left diagonal)
  best_of-Edits up left diagonal u l e =
      min_of (λ n. Edits (c ∷ x) (d ∷ y) n) (min (up + 1) (left + 1)) (diagonal + cost c d)
        (min_of (λ n. Edits (c ∷ x) (d ∷ y) n) (up + 1) (left + 1) (more_by_one up (delete u))
          (more_by_one left (insert l)))
        (changed diagonal e)

-- A swap, where the last two characters are crossed.
crossed_eq : (c c' d d' : ℕ) → crossed c c' d d' ≡ true → (c ≡ d') × (c' ≡ d)
crossed_eq c c' d d' h = (ground (arith, h), ground (arith, h))

swapped :
    (c c' d d' : ℕ) (x y : Text) (best n : ℕ)
    → Edits (c ∷ c' ∷ x) (d ∷ d' ∷ y) best
    → Edits x y n
    → Edits (c ∷ c' ∷ x) (d ∷ d' ∷ y) (if crossed c c' d d' then min best (n + 1) else best)
swapped c c' d d' x y best n b e = elim (Bool-cases (crossed c c' d d')) [
  | inr h ↦ rw h b
  | inl h ↦
      let (first, second) = crossed_eq c c' d d' h in
      rw h (
        min_of (λ m. Edits (c ∷ c' ∷ x) (d ∷ d' ∷ y) m) best (n + 1) b
          (more_by_one n (
            subst (λ z. Edits (c ∷ c' ∷ x) (z ∷ d' ∷ y) (suc n)) second
              (subst (λ z. Edits (c ∷ c' ∷ x) (c' ∷ z ∷ y) (suc n)) first (swap e)))))
]

all_deleted : (x : Text) → Edits x [] (length x)
all_deleted [] = done
all_deleted (c ∷ x) = delete (all_deleted x)

all_inserted : (y : Text) → Edits [] y (length y)
all_inserted [] = done
all_inserted (d ∷ y) = insert (all_inserted y)

distance-enough : (x y : Text) → Edits x y (distance x y)
unfolding distance
distance-enough [] y = all_inserted y
distance-enough (c ∷ x) [] = all_deleted (c ∷ x)
distance-enough (c ∷ []) (d ∷ y) =
    best_of-Edits c d [] y _ _ _ (distance-enough [] (d ∷ y)) (distance-enough (c ∷ []) y)
      (distance-enough [] y)
distance-enough (c ∷ c' ∷ x) (d ∷ []) =
    best_of-Edits c d (c' ∷ x) [] _ _ _ (distance-enough (c' ∷ x) (d ∷ []))
      (distance-enough (c ∷ c' ∷ x) []) (distance-enough (c' ∷ x) [])
distance-enough (c ∷ c' ∷ x) (d ∷ d' ∷ y) =
    swapped c c' d d' x y _ _
      (best_of-Edits c d (c' ∷ x) (d' ∷ y) _ _ _ (distance-enough (c' ∷ x) (d ∷ d' ∷ y))
        (distance-enough (c ∷ c' ∷ x) (d' ∷ y)) (distance-enough (c' ∷ x) (d' ∷ y)))
      (distance-enough x y)

pub distance-IsLeast : (x y : Text) → IsLeast x y (distance x y)
distance-IsLeast x y = record { enough = distance-enough x y; needed = λ m e. distance-needed e }
