-- ===== src/Lsp/Context.antt =====
-- internal/lsp/context.go: what stands at the cursor. Lines are lists of bytes. A column that the
-- program lets fall to -1 is kept here one higher: `n` stands for the column `n - 1`.
pub mod Token
pub mod Completion
use bloblang_lsp.Common.{
  ℕ, zero, suc, ◌+◌, ◌-◌, Text, Bool, true, false, not, ◌&&◌, ◌||◌, Option, none, some, List, [],
  ◌∷◌, ◌==◌, ltb, leb, if◌then◌else◌, length, get_elem?, take, drop, min, codes,
}

abbrev pub is_ident_char : ℕ → Bool
is_ident_char c =
    (leb b'a' c && leb c b'z')
    || (leb b'A' c && leb c b'Z')
    || (leb b'0' c && leb c b'9')
    || c == b'_'

abbrev pub test_at : (ℕ → Bool) → Option ℕ → Bool
test_at p none = false
test_at p (some c) = p c

-- `i < len(line) && isIdentChar(line[i])`
unfoldable pub ident_at : Text → ℕ → Bool
ident_at line i = test_at is_ident_char (get_elem? line i)

-- The loop that looks for an identifier to the right.
unfoldable pub skip_forward : ℕ → Text → ℕ → ℕ
skip_forward zero line col = col
skip_forward (suc fuel) line col =
    let later = skip_forward fuel line (col + 1) in
    if ltb col (length line) && not (ident_at line col) then later else col

-- The walks to the token's start and end.
unfoldable pub walk_back : Text → ℕ → ℕ
walk_back line zero = zero
walk_back line (suc n) =
    let further = walk_back line n in if ident_at line n then further else suc n

unfoldable pub walk_forward : ℕ → Text → ℕ → ℕ
walk_forward zero line i = i
walk_forward (suc fuel) line i =
    let further = walk_forward fuel line (i + 1) in if ident_at line i then further else i

abbrev pub is_space : ℕ → Bool
is_space c = c == b' ' || c == b'\t' || c == b'\r' || c == b'\n'

-- The lines above a line, nearest first.
abbrev pub lines_above : List Text → ℕ → List Text → List Text
lines_above lines zero seen = seen
lines_above [] (suc n) seen = seen
lines_above (l ∷ lines) (suc n) seen = lines_above lines n (l ∷ seen)

-- The inner loop of `isMethodContext` from the column `n - 1`: `none` when it leaves the line.
unfoldable pub dot_before : Text → ℕ → Option Bool
dot_before line zero = none
dot_before line (suc n) =
    let further = dot_before line n in
    elim (get_elem? line n) [
      | none ↦ further
      | some c ↦ if is_space c then further else some (c == b'.')
    ]

-- Its outer loop over the lines above, nearest first, each from its end.
unfoldable pub dot_above : List Text → Bool
unfolding dot_before
dot_above [] = false
dot_above (line ∷ above) =
    let further = dot_above above in
    elim (dot_before line (length line)) [ none ↦ further | some b ↦ b ]

abbrev pub dot_or_above : Option Bool → List Text → Bool
dot_or_above none above = dot_above above
dot_or_above (some b) above = b

-- `isMethodContext`, for a start within the line, as its only caller passes it.
unfoldable pub is_method_context : List Text → ℕ → Text → ℕ → Bool
unfolding dot_before dot_above
is_method_context lines index line start =
    dot_or_above (dot_before line start) (lines_above lines index [])

pub record FoundToken : Type 0 where
  pub token : Text
  pub start : ℕ
  pub end : ℕ
  pub is_method : Bool

-- `line[start:end]`
abbrev pub slice : Text → ℕ → ℕ → Text
slice line start end = take (end - start) (drop start line)

-- The column that the search starts from.
unfoldable pub nudge : Text → ℕ → ℕ
unfolding ident_at skip_forward
nudge line col =
    if ltb col (length line) && not (ident_at line col)
    then if ltb 0 col && ident_at line (col - 1)
      then col - 1
      else skip_forward (length line - col) line col
    else col

-- The token around a column that stands on an identifier.
unfoldable pub token_around : List Text → ℕ → Text → ℕ → FoundToken
unfolding walk_back walk_forward is_method_context
token_around lines index line col =
    let start = walk_back line col in
    let end = walk_forward (length line - col) line col in
    record {
      token = slice line start end;
      start = start;
      end = end;
      is_method = is_method_context lines index line start;
    }

-- In a line; `none` is the result "", 0, 0, false.
abbrev pub find_in_line : List Text → ℕ → Text → ℕ → Option FoundToken
find_in_line lines index line col =
    if ident_at line col then some (token_around lines index line col) else none

abbrev pub find_in : List Text → ℕ → Option Text → ℕ → Option FoundToken
find_in lines index none col = none
find_in lines index (some line) col =
    find_in_line lines index line (nudge line (min col (length line)))

unfoldable pub find_token_at_position : List Text → ℕ → ℕ → Option FoundToken
unfolding nudge token_around
find_token_at_position lines index col = find_in lines index (get_elem? lines index) col

unfoldable pub is_function_call_context : Text → ℕ → Bool
is_function_call_context [] end = false
is_function_call_context (c ∷ line) (suc end) = is_function_call_context line end
is_function_call_context (c ∷ line) zero =
    let further = is_function_call_context line zero in
    if c == b' ' || c == b'\t' || c == b'\r' then further else c == b'('

-- The strings "method", "variable", "function" and "" of `getCompletionContext`.
pub data CompletionContext : Type 0 where
  method variable function nothing : CompletionContext

abbrev pub one_of : Text → ℕ → Bool
one_of [] c = false
one_of (d ∷ s) c = c == d || one_of s c

-- The `switch` on the byte before the cursor's identifier.
unfoldable pub context_of : ℕ → CompletionContext
context_of c =
    if c == b'.'
    then method
    else if one_of (codes "$@") c
    then variable
    else if one_of (codes "=(,{[;|&+-*/%!><~") c
    then function
    else nothing

-- The inner loop of `getCompletionContext` from the column `n - 1`.
unfoldable pub context_before : Text → ℕ → Option CompletionContext
unfolding context_of
context_before line zero = none
context_before line (suc n) =
    let further = context_before line n in
    elim (get_elem? line n) [
      | none ↦ further
      | some ch ↦
          if ch == b' ' || ch == b'\t' || ch == b'\r' || ch == b'\n'
          then further
          else some (context_of ch)
    ]

-- Its outer loop over the lines above.
unfoldable pub context_above : List Text → CompletionContext
unfolding context_before
context_above [] = function
context_above (line ∷ above) =
    let further = context_above above in
    elim (context_before line (length line)) [ none ↦ further | some context ↦ context ]

abbrev pub context_or_above : Option CompletionContext → List Text → CompletionContext
context_or_above none above = context_above above
context_or_above (some context) above = context

-- `none` is the panic on a column behind the end of the line.
abbrev pub context_in : List Text → ℕ → Option Text → ℕ → Option CompletionContext
context_in lines index none col = some nothing
context_in lines index (some line) col =
    if ltb (length line) col
    then none
    else some
        (context_or_above (context_before line (walk_back line col)) (lines_above lines index []))

unfoldable pub get_completion_context : List Text → ℕ → ℕ → Option CompletionContext
unfolding walk_back context_before context_above ident_at
get_completion_context lines index col = context_in lines index (get_elem? lines index) col
