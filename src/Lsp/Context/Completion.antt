-- ===== src/Lsp/Context/Completion.antt =====
-- The completion context of internal/lsp/context.go while an identifier is typed.
use bloblang_lsp.Common.{
  ℕ, zero, suc, ◌+◌, ◌≤◌, ◌<◌, ◌==◌, Text, Bool, true, false, Option, none, some, List, [], ◌∷◌,
  ◌≡◌, refl, arith, get_elem?, ap, sym, ◌∙◌, ◌↔◌, length, ltb, Bool-cases, inl, inr, if◌then◌else◌,
}
use mathlib.Core.Option.{map, some-injective}
use bloblang_lsp.Lsp.Context.{
  ident_at, walk_back, is_space, lines_above, CompletionContext, method, variable, function,
  nothing, context_of, context_before, context_above, context_or_above, context_in, dot_before,
  dot_above, dot_or_above, get_completion_context, is_method_context,
}

-- Behind identifier characters only, the walk back ends where it would end before them.
walk_back-skip :
    (line : Text) (i n : ℕ)
    → ((j : ℕ) → i ≤ j → j < i + n → ident_at line j ≡ true)
    → walk_back line (i + n) ≡ walk_back line i
walk_back-skip line i zero h = ap (walk_back line) (omega arith)
walk_back-skip line i (suc n) h =
    ap (walk_back line) {x = i + suc n} {y = suc (i + n)} (omega arith)
    ∙ walk_back_step line (i + n) (h (i + n) (omega arith) (omega arith))
    ∙ walk_back-skip line i n (λ j p q. h j p (omega arith))
  where
    walk_back_step :
        (line : Text) (m : ℕ) → ident_at line m ≡ true → walk_back line (suc m) ≡ walk_back line m
    walk_back_step line m e = unfold walk_back in rw e

context_at :
    (lines : List Text) (index : ℕ) (line : Text) (col : ℕ)
    → get_elem? lines index ≡ some line
    → col ≤ length line
    → get_completion_context lines index col
      ≡ some
          (context_or_above (context_before line (walk_back line col)) (lines_above lines index []))
context_at lines index line col e h =
    unfold get_completion_context in
    ap (λ o. context_in lines index o col) e ∙ rw (ltb_ge (length line) col h)
  where
    ltb_ge : (n m : ℕ) → m ≤ n → ltb n m ≡ false
    ltb_ge n m k = ground (arith, k)

-- Typing identifier characters does not change what is being completed: with only such characters
-- between two columns of a line, the completion context is the same at both.
context_while_typing :
    (lines : List Text) (index : ℕ) (line : Text) (i n : ℕ)
    → get_elem? lines index ≡ some line
    → i + n ≤ length line
    → ((j : ℕ) → i ≤ j → j < i + n → ident_at line j ≡ true)
    → get_completion_context lines index (i + n) ≡ get_completion_context lines index i
context_while_typing lines index line i n e within h =
    context_at lines index line (i + n) e within
    ∙ ap (λ m. some (context_or_above (context_before line m) (lines_above lines index [])))
        (walk_back-skip line i n h)
    ∙ sym (context_at lines index line i e (omega arith))

abbrev says_method : CompletionContext → Bool
says_method method = true
says_method variable = false
says_method function = false
says_method nothing = false

says_method_iff : (o : CompletionContext) → (o ≡ method) ↔ (says_method o ≡ true)
says_method_iff method = (λ h. refl, λ h. refl)
says_method_iff variable = (λ h. cc, λ h. cc)
says_method_iff function = (λ h. cc, λ h. cc)
says_method_iff nothing = (λ h. cc, λ h. cc)

context_of-says_method : (c : ℕ) → says_method (context_of c) ≡ (c == b'.')
unfolding context_of
context_of-says_method c = ground arith

-- In one line the two loops stop at the same byte, and one finds "method" where the other finds the
-- dot.
context_before-dot_before :
    (line : Text) (n : ℕ) → map says_method (context_before line n) ≡ dot_before line n
unfolding context_before dot_before
context_before-dot_before line zero = refl
context_before-dot_before line (suc n) =
    at (get_elem? line n) (context_before line n) (dot_before line n)
      (context_before-dot_before line n)
  where
    at :
        (o : Option ℕ) (further : Option CompletionContext) (further' : Option Bool)
        → map says_method further ≡ further'
        → map says_method (elim o [
          | none ↦ further
          | some c ↦ if is_space c then further else some (context_of c)
        ])
          ≡ elim o [ none ↦ further' | some c ↦ if is_space c then further' else some (c == b'.') ]
    at none further further' e = e
    at (some c) further further' e = elim (Bool-cases (is_space c)) [
      | inl t ↦ rw t e
      | inr t ↦ rw t (ap some (context_of-says_method c))
    ]

context_above-dot_above : (above : List Text) → says_method (context_above above) ≡ dot_above above
unfolding context_above dot_above
context_above-dot_above [] = refl
context_above-dot_above (line ∷ above) =
    at (context_before line (length line)) (dot_before line (length line))
      (context_before-dot_before line (length line)) (context_above-dot_above above)
  where
    at :
        (o : Option CompletionContext) (b : Option Bool)
        → map says_method o ≡ b
        → says_method (context_above above) ≡ dot_above above
        → says_method (elim o [ none ↦ context_above above | some context ↦ context ])
          ≡ elim b [ none ↦ dot_above above | some d ↦ d ]
    at none none h e = e
    at none (some d) h e = cc
    at (some context) none h e = cc
    at (some context) (some d) h e = some-injective _ _ h

both_loops :
    (line : Text) (n : ℕ) (above : List Text)
    → says_method (context_or_above (context_before line n) above)
      ≡ dot_or_above (dot_before line n) above
both_loops line n above = rw (sym (context_before-dot_before line n)) (at (context_before line n))
  where
    at :
        (o : Option CompletionContext)
        → says_method (context_or_above o above) ≡ dot_or_above (map says_method o) above
    at none = context_above-dot_above above
    at (some context) = refl

-- The loops of getCompletionContext and isMethodContext agree: at a column of a line the completion
-- context is "method" exactly when isMethodContext holds at the start of the identifier that ends
-- at the column, or at the column itself when no identifier ends there.
pub completion_method_iff :
    (lines : List Text) (index : ℕ) (line : Text) (col : ℕ)
    → get_elem? lines index ≡ some line
    → col ≤ length line
    → (get_completion_context lines index col ≡ some method)
      ↔ (is_method_context lines index line (walk_back line col) ≡ true)
completion_method_iff lines index line col e within =
    let above = lines_above lines index [] in
    let found = context_before line (walk_back line col) in
    let says = says_method_iff (context_or_above found above) in
    let agree = both_loops line (walk_back line col) above in
    let same = context_at lines index line col e within in
    (
      λ h. unfold is_method_context in sym agree ∙ says.0 (some-injective _ _ (sym same ∙ h)),
      λ h. same ∙ ap some (says.1 (agree ∙ (unfold is_method_context in h))),
    )
