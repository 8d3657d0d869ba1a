-- ===== src/Tests/Formatting.antt =====
-- The formatter's check of internal/lsp/formatting.go on `[1,]` and `[1]`.
use bloblang_lsp.Common.{ℕ, Text, true, false, none, ◌≡◌, ◌↔◌, refl, codes}
use bloblang_lsp.Lsp.Formatting.{Node, node, Nodes, nil, cons, tokens, equivalent_format_tokens}
use bloblang_lsp.Lsp.Formatting.Equivalence.{DropsCommas}
use bloblang_lsp.Lsp.Formatting.Spelling.{IsNamed, tokens-equivalent_iff}

abbrev leaf : Text → Text → ℕ → ℕ → Node
leaf kind text start end =
    node (record { kind = kind; text = text; start = start; end = end; start_row = 0; end_row = 0 })
      nil

abbrev array : Text → ℕ → Nodes → Node
array text end children =
    node
      (record {
        kind = codes "array_literal";
        text = text;
        start = 0;
        end = end;
        start_row = 0;
        end_row = 0;
      })
      children

abbrev with_comma : Node
with_comma = array (codes "[1,]") 4 (
    cons (leaf (codes "[") (codes "[") 0 1) (
      cons (leaf (codes "number") (codes "1") 1 2)
        (cons (leaf (codes ",") (codes ",") 2 3) (cons (leaf (codes "]") (codes "]") 3 4) nil))))

abbrev without_comma : Node
without_comma = array (codes "[1]") 3 (
    cons (leaf (codes "[") (codes "[") 0 1)
      (cons (leaf (codes "number") (codes "1") 1 2) (cons (leaf (codes "]") (codes "]") 2 3) nil)))

with_comma-IsNamed : IsNamed with_comma
with_comma-IsNamed = (
  ((λ h. cc), (λ h. cc), (λ h. cc)),
  (
    (((λ h. h), (λ h. h), (λ h. h)), tt),
    (
      (((λ h. cc), (λ h. cc), (λ h. cc)), tt),
      ((((λ h. h), (λ h. h), (λ h. h)), tt), ((((λ h. h), (λ h. h), (λ h. h)), tt), tt)),
    ),
  ),
)

without_comma-IsNamed : IsNamed without_comma
without_comma-IsNamed = (
  ((λ h. cc), (λ h. cc), (λ h. cc)),
  (
    (((λ h. h), (λ h. h), (λ h. h)), tt),
    ((((λ h. cc), (λ h. cc), (λ h. cc)), tt), ((((λ h. h), (λ h. h), (λ h. h)), tt), tt)),
  ),
)

tokens-equivalent_iff_example :
    (equivalent_format_tokens (tokens none with_comma nil) (tokens none without_comma nil) ≡ true)
    ↔ DropsCommas (tokens none with_comma nil) (tokens none without_comma nil)
tokens-equivalent_iff_example =
    tokens-equivalent_iff with_comma without_comma with_comma-IsNamed without_comma-IsNamed

drops_the_comma :
    equivalent_format_tokens (tokens none with_comma nil) (tokens none without_comma nil) ≡ true
unfolding equivalent_format_tokens tokens
drops_the_comma = refl

-- The other way round a token would appear.
adds_no_comma :
    equivalent_format_tokens (tokens none without_comma nil) (tokens none with_comma nil) ≡ false
unfolding equivalent_format_tokens tokens
adds_no_comma = refl
