-- ===== src/Help/Distance/Rows.antt =====
-- The rows that editDistance of internal/help/rank.go fills hold the distances of the prefixes.
use bloblang_lsp.Common.{
  ℕ, zero, suc, ◌+◌, ◌-◌, ◌≤◌, ◌<◌, Text, true, false, List, [], ◌∷◌, ◌++◌, ◌≡◌, ◌⊎◌, inl, inr,
  refl, sym, ap, ◌∙◌, subst, arith, ◌==◌, ltb, Bool-cases, length, length-append,
}
use bloblang_lsp.Help.Distance.{at, counting, cell, fill_row, fill_rows}
use bloblang_lsp.Help.Distance.Edits.{distance}

-- The first characters of a word, read backwards.
abbrev pub rev_take : Text → ℕ → Text
rev_take x zero = []
rev_take x (suc i) = at x i ∷ rev_take x i

minus_one : (n : ℕ) → suc n - 1 ≡ n
minus_one n = omega arith

minus_two : (n : ℕ) → suc (suc n) - 2 ≡ n
minus_two n = omega arith

one_below : (n : ℕ) → ltb 1 (suc (suc n)) ≡ true
one_below n = ground arith

length-rev_take : (x : Text) (i : ℕ) → length (rev_take x i) ≡ i
length-rev_take x zero = refl
length-rev_take x (suc i) = ap suc (length-rev_take x i)

at-append_before : (xs : List ℕ) (v k : ℕ) → k < length xs → at (xs ++ v ∷ []) k ≡ at xs k
at-append_before [] v k h = absurd (omega arith)
at-append_before (x ∷ xs) v zero h = refl
at-append_before (x ∷ xs) v (suc k) h = at-append_before xs v k (omega arith)

at-append_end : (xs : List ℕ) (v : ℕ) → at (xs ++ v ∷ []) (length xs) ≡ v
at-append_end [] v = refl
at-append_end (x ∷ xs) v = at-append_end xs v

at-counting : (n i j : ℕ) → j < n → at (counting n i) j ≡ i + j
at-counting zero i j h = absurd (omega arith)
at-counting (suc n) i zero h = omega arith
at-counting (suc n) i (suc j) h = omega (arith, at-counting n (suc i) j (omega arith))

module _ (x y : Text) where
  abbrev dist : ℕ → ℕ → ℕ
  dist i j = distance (rev_take x i) (rev_take y j)

  -- A row, and one that is older by two, if there is one.
  abbrev pub IsRow : ℕ → List ℕ → Type 0
  IsRow i row = (j : ℕ) → j ≤ length y → at row j ≡ dist i j

  abbrev pub IsOlder : ℕ → List ℕ → Type 0
  IsOlder i row = (i' : ℕ) → i ≡ suc i' → IsRow i' row

  cell_lem :
      (i j : ℕ) (older previous current : List ℕ)
      → suc j ≤ length y
      → IsOlder i older
      → IsRow i previous
      → at current j ≡ dist (suc i) j
      → cell x y (suc i) (suc j) older previous current ≡ dist (suc i) (suc j)
  unfolding cell distance
  cell_lem zero zero older previous current h o p c =
      rw (minus_one 0, p 1 h, p 0 (omega arith), c) refl
  cell_lem zero (suc j) older previous current h o p c =
      rw (minus_one (suc j), minus_one 0, p (suc (suc j)) h, p (suc j) (omega arith), c) refl
  cell_lem (suc i) zero older previous current h o p c =
      rw (minus_one (suc i), minus_one 0, one_below i, p 1 h, p 0 (omega arith), c) refl
  cell_lem (suc i) (suc j) older previous current h o p c =
      rw
        (
          minus_one (suc i),
          minus_one (suc j),
          minus_two i,
          minus_two j,
          one_below i,
          one_below j,
          p (suc (suc j)) h,
          p (suc j) (omega arith),
          o i refl j (omega arith),
          c,
        )
        refl

  -- The cells of a row so far.
  abbrev IsFilled : ℕ → ℕ → List ℕ → Type 0
  IsFilled i j current = (length current ≡ j) × ((k : ℕ) → k < j → at current k ≡ dist i k)

  append-IsFilled :
      (i j : ℕ) (current : List ℕ) (v : ℕ)
      → IsFilled i j current
      → v ≡ dist i j
      → IsFilled i (suc j) (current ++ v ∷ [])
  append-IsFilled i j current v (len, cells) e =
      (omega (arith, len, length-append current (v ∷ [])), λ k h. place k h (Bool-cases (k == j)))
    where
      place :
          (k : ℕ)
          → k < suc j
          → (k == j ≡ true) ⊎ (k == j ≡ false)
          → at (current ++ v ∷ []) k ≡ dist i k
      place k h (inl same) =
          let here : k ≡ length current = ground (arith, same, len) in
          let there : k ≡ j = ground (arith, same) in
          ap (at (current ++ v ∷ [])) here ∙ at-append_end current v ∙ e ∙ ap (dist i) (sym there)
      place k h (inr other) =
          let below : k < j = ground (arith, other, h) in
          at-append_before current v k (omega (arith, len, below)) ∙ cells k below

  fill_row-IsFilled :
      (n i j : ℕ) (older previous current : List ℕ)
      → suc j + n ≡ length y + 1
      → IsOlder i older
      → IsRow i previous
      → IsFilled (suc i) (suc j) current
      → IsFilled (suc i) (length y + 1) (fill_row x y n (suc i) (suc j) older previous current)
  unfolding fill_row
  fill_row-IsFilled zero i j older previous current e o p c =
      subst (λ k. IsFilled (suc i) k current) (omega arith) c
  fill_row-IsFilled (suc n) i j older previous current e o p c =
      fill_row-IsFilled n i (suc j) older previous
        (current ++ cell x y (suc i) (suc j) older previous current ∷ []) (omega arith) o p
        (append-IsFilled (suc i) (suc j) current (cell x y (suc i) (suc j) older previous current) c
          (cell_lem i j older previous current (omega arith) o p (c.1 j (omega arith))))

  fill_row-IsRow :
      (i : ℕ) (older previous : List ℕ)
      → IsOlder i older
      → IsRow i previous
      → IsRow (suc i) (fill_row x y (length y) (suc i) 1 older previous (suc i ∷ []))
  fill_row-IsRow i older previous o p j h =
      (fill_row-IsFilled (length y) i 0 older previous (suc i ∷ []) (omega arith) o p
          (refl, start)).1
        j (omega arith)
    where
      start : (k : ℕ) → k < 1 → at (suc i ∷ []) k ≡ dist (suc i) k
      start zero h = unfold distance in ap suc (sym (length-rev_take x i))
      start (suc k) h = absurd (omega arith)

  fill_rows-IsRow :
      (n i : ℕ) (older previous : List ℕ)
      → i + n ≡ length x
      → IsOlder i older
      → IsRow i previous
      → IsRow (length x) (fill_rows x y n (suc i) older previous)
  unfolding fill_rows
  fill_rows-IsRow zero i older previous e o p = subst (λ k. IsRow k previous) (omega arith) p
  fill_rows-IsRow (suc n) i older previous e o p =
      fill_rows-IsRow n (suc i) previous
        (fill_row x y (length y) (suc i) 1 older previous (suc i ∷ [])) (omega arith)
        (λ i' same. subst (λ k. IsRow k previous) (omega (arith, same)) p)
        (fill_row-IsRow i older previous o p)

  pub fill_rows-dist :
      at (fill_rows x y (length x) 1 [] (counting (length y + 1) 0)) (length y)
      ≡ dist (length x) (length y)
  fill_rows-dist =
      fill_rows-IsRow (length x) 0 [] (counting (length y + 1) 0) (omega arith)
        (λ i' h. absurd (omega (arith, h))) first (length y) (omega arith)
    where
      first : IsRow 0 (counting (length y + 1) 0)
      first j h = at-counting (length y + 1) 0 j (omega arith) ∙ whole j
        where
          whole : (j : ℕ) → 0 + j ≡ dist 0 j
          whole j = unfold distance in omega (arith, length-rev_take y j)
