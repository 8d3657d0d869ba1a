-- ===== src/Lsp/Context/Token.antt =====
-- The token under the cursor, internal/lsp/context.go.
use bloblang_lsp.Common.{
  ℕ, zero, suc, ◌+◌, ◌-◌, ◌≤◌, ◌<◌, Text, Bool, true, false, Option, none, some, List, [], ◌∷◌, ◌≡◌,
  refl, arith, ltb, if◌then◌else◌, length, get_elem?, min, Bool-cases, inl, inr, ap, subst,
}
use mathlib.Core.Option.{some-injective}
use bloblang_lsp.Lsp.Context.{
  ident_at, walk_back, walk_forward, FoundToken, slice, nudge, token_around, find_in_line, find_in,
  find_token_at_position,
}

get_elem?-ge {ℓ} : {A : Type ℓ} (l : List A) (i : ℕ) → length l ≤ i → get_elem? l i ≡ none
get_elem?-ge [] i h = refl
get_elem?-ge (x ∷ l) zero h = absurd (omega arith)
get_elem?-ge (x ∷ l) (suc i) h = get_elem?-ge l i (omega arith)

ident_at-ge : (line : Text) (i : ℕ) → length line ≤ i → ident_at line i ≡ false
unfolding ident_at
ident_at-ge line i h = rw (get_elem?-ge line i h)

ident_at-lt : (line : Text) (i : ℕ) → ident_at line i ≡ true → i < length line
ident_at-lt line i h = ground (arith, ident_at-ge line i)

pub walk_back-le : (line : Text) (n : ℕ) → walk_back line n ≤ n
unfolding walk_back
walk_back-le line zero = omega arith
walk_back-le line (suc n) = ground (arith, walk_back-le line n)

walk_back-ident : (line : Text) (n i : ℕ) → walk_back line n ≤ i → i < n → ident_at line i ≡ true
unfolding walk_back
walk_back-ident line zero i h k = absurd (omega arith)
walk_back-ident line (suc n) i h k = elim (Bool-cases (ident_at line n)) [
  | inl e ↦ elim (Bool-cases (ltb i n)) [
    | inl lt ↦ walk_back-ident line n i (ground arith) (ground arith)
    | inr ge ↦ subst (λ j. ident_at line j ≡ true) (omega-eq i n ge k) e
  ]
  | inr e ↦ absurd (ground arith)
]
  where
    omega-eq : (i n : ℕ) → ltb i n ≡ false → i < suc n → n ≡ i
    omega-eq i n g h = ground arith

walk_back-stops :
    (line : Text) (n : ℕ) → 0 < walk_back line n → ident_at line (walk_back line n - 1) ≡ false
unfolding walk_back
walk_back-stops line zero h = absurd (omega arith)
walk_back-stops line (suc n) h = elim (Bool-cases (ident_at line n)) [
  | inl e ↦ rw e (walk_back-stops line n (ground arith))
  | inr e ↦ rw e (ground (arith, e))
]

walk_forward-ge : (fuel : ℕ) (line : Text) (i : ℕ) → i ≤ walk_forward fuel line i
unfolding walk_forward
walk_forward-ge zero line i = omega arith
walk_forward-ge (suc fuel) line i = ground (arith, walk_forward-ge fuel line (i + 1))

walk_forward-ident :
    (fuel : ℕ) (line : Text) (i j : ℕ)
    → i ≤ j
    → j < walk_forward fuel line i
    → ident_at line j ≡ true
unfolding walk_forward
walk_forward-ident zero line i j h k = absurd (omega arith)
walk_forward-ident (suc fuel) line i j h k = elim (Bool-cases (ident_at line i)) [
  | inl e ↦ elim (Bool-cases (ltb i j)) [
    | inl lt ↦ walk_forward-ident fuel line (i + 1) j (ground arith) (ground arith)
    | inr ge ↦ subst (λ j. ident_at line j ≡ true) (omega-eq i j ge h) e
  ]
  | inr e ↦ absurd (ground arith)
]
  where
    omega-eq : (i j : ℕ) → ltb i j ≡ false → i ≤ j → i ≡ j
    omega-eq i j g h = ground arith

walk_forward-stops :
    (fuel : ℕ) (line : Text) (i : ℕ)
    → length line ≤ i + fuel
    → ident_at line (walk_forward fuel line i) ≡ false
unfolding walk_forward
walk_forward-stops zero line i h = ident_at-ge line i (omega arith)
walk_forward-stops (suc fuel) line i h = elim (Bool-cases (ident_at line i)) [
  | inl e ↦ rw e (walk_forward-stops fuel line (i + 1) (omega arith))
  | inr e ↦ rw e e
]

walk_forward-moves :
    (fuel : ℕ) (line : Text) (i : ℕ)
    → ident_at line i ≡ true
    → length line ≤ i + fuel
    → i < walk_forward fuel line i
walk_forward-moves fuel line i h b = ground (
  arith,
  h,
  walk_forward-stops fuel line i b,
  walk_forward-ge fuel line i,
  ap (ident_at line) {x = walk_forward fuel line i} {y = i},
)

-- A maximal run of identifier characters around a column of a line.
pub record IsTokenAt (line : Text) (col : ℕ) (t : FoundToken) : Type 0 where
  pub starts : t.start ≤ col
  pub ends : col < t.end
  pub inside : t.end ≤ length line
  pub all_ident : (i : ℕ) → t.start ≤ i → i < t.end → ident_at line i ≡ true
  pub starts_there : 0 < t.start → ident_at line (t.start - 1) ≡ false
  pub ends_there : ident_at line t.end ≡ false
  pub text : t.token ≡ slice line t.start t.end

module _ (lines : List Text) (index : ℕ) (line : Text) (col : ℕ)
    (on : ident_at line col ≡ true) where
  token_end : ℕ
  token_end = walk_forward (length line - col) line col

  enough : length line ≤ col + (length line - col)
  enough = omega (arith, ident_at-lt line col on)

  token_around_ident :
      (i : ℕ)
      → walk_back line col ≤ i
      → i < walk_forward (length line - col) line col
      → ident_at line i ≡ true
  token_around_ident i h k = elim (Bool-cases (ltb i col)) [
    | inl lt ↦ walk_back-ident line col i h (ground arith)
    | inr ge ↦ walk_forward-ident (length line - col) line col i (ground arith) k
  ]

  token_around-IsTokenAt : IsTokenAt line col (token_around lines index line col)
  unfolding token_around token_end
  token_around-IsTokenAt =
      let moves = walk_forward-moves (length line - col) line col on enough in
      let back = walk_back-le line col in
      let last = token_around_ident (token_end - 1) (omega arith) (omega arith) in
      record {
        starts = back;
        ends = moves;
        inside = omega (arith, ident_at-lt line (token_end - 1) last);
        all_ident = token_around_ident;
        starts_there = walk_back-stops line col;
        ends_there = walk_forward-stops (length line - col) line col enough;
        text = refl;
      }

if_some_test {ℓ} :
    {A : Type ℓ} (b : Bool) (x t : A) → (if b then some x else none) ≡ some t → b ≡ true
if_some_test true x t e = refl
if_some_test false x t e = cc

if_some_value {ℓ} :
    {A : Type ℓ} (b : Bool) (x t : A) → (if b then some x else none) ≡ some t → x ≡ t
if_some_value true x t e = some-injective x t e
if_some_value false x t e = cc

-- A token that is found is the whole maximal run of identifier characters, within its line, around
-- the column that the search was moved to.
pub find_token-IsTokenAt :
    (lines : List Text) (index col : ℕ) (t : FoundToken)
    → find_token_at_position lines index col ≡ some t
    → (line : Text) × (get_elem? lines index ≡ some line)
      × IsTokenAt line (nudge line (min col (length line))) t
find_token-IsTokenAt lines index col t h =
    unfold find_token_at_position in go (get_elem? lines index) refl h
  where
    one : (line : Text) (at : ℕ) → find_in_line lines index line at ≡ some t → IsTokenAt line at t
    one line at e =
        let on = if_some_test (ident_at line at) (token_around lines index line at) t e in
        subst (IsTokenAt line at)
          (if_some_value (ident_at line at) (token_around lines index line at) t e)
          (token_around-IsTokenAt lines index line at on)

    go :
        (o : Option Text)
        → get_elem? lines index ≡ o
        → find_in lines index o col ≡ some t
        → (line : Text) × (get_elem? lines index ≡ some line)
          × IsTokenAt line (nudge line (min col (length line))) t
    go none e k = cc
    go (some line) e k = (line, e, one line (nudge line (min col (length line))) k)

nudge_end : (line : Text) → nudge line (length line) ≡ length line
nudge_end line = unfold nudge in ground arith

-- At or behind the end of a line nothing is found, also where the cursor directly follows an
-- identifier.
pub find_token_at_end :
    (lines : List Text) (index col : ℕ) (line : Text)
    → get_elem? lines index ≡ some line
    → length line ≤ col
    → find_token_at_position lines index col ≡ none
unfolding find_token_at_position
find_token_at_end lines index col line e h = rw e (
    subst (λ n. find_in_line lines index line (nudge line n) ≡ none) (clamped (length line) col h)
      (rw (nudge_end line, ident_at-ge line (length line) (omega arith))))
  where
    clamped : (n c : ℕ) → n ≤ c → n ≡ min c n
    clamped n c k = omega arith
