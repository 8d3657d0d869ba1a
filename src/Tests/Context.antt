-- ===== src/Tests/Context.antt =====
-- The cursor of internal/lsp/context.go in `root = this.name`.
use bloblang_lsp.Common.{
  Text, true, none, some, List, [], ◌∷◌, ◌≡◌, ◌↔◌, refl, arith, codes, get_elem?, length, min,
}
use bloblang_lsp.Lsp.Context.{
  FoundToken, find_token_at_position, walk_back, nudge, get_completion_context, is_method_context,
  method,
}
use bloblang_lsp.Lsp.Context.Token.{IsTokenAt, find_token-IsTokenAt, find_token_at_end}
use bloblang_lsp.Lsp.Context.Completion.{completion_method_iff}

abbrev line : Text
line = codes "root = this.name"

abbrev lines : List Text
lines = line ∷ []

abbrev name_token : FoundToken
name_token = record { token = codes "name"; start = 12; end = 16; is_method = true }

finds_name : find_token_at_position lines 0 13 ≡ some name_token
unfolding find_token_at_position
finds_name = refl

find_token-IsTokenAt_example :
    (l : Text) × (get_elem? lines 0 ≡ some l) × IsTokenAt l (nudge l (min 13 (length l))) name_token
find_token-IsTokenAt_example = find_token-IsTokenAt lines 0 13 name_token finds_name

find_token_at_end_example : find_token_at_position lines 0 16 ≡ none
find_token_at_end_example = find_token_at_end lines 0 16 line refl (omega arith)

completion_method_iff_example :
    (get_completion_context lines 0 14 ≡ some method)
    ↔ (is_method_context lines 0 line (walk_back line 14) ≡ true)
completion_method_iff_example = completion_method_iff lines 0 line 14 refl (omega arith)

completes_method : get_completion_context lines 0 14 ≡ some method
unfolding get_completion_context
completes_method = refl
