-- ===== src/Lsp/Formatting/Spelling.antt =====
-- The tokens of a syntax tree, internal/lsp/formatting.go: how commas and delimiters are spelled.
use bloblang_lsp.Common.{
  Text, Bool, true, false, Option, none, some, List, [], ◌∷◌, ◌++◌, ◌≡◌, ◌↔◌, arith, codes,
  text_eq_iff, All, All-append, All-mono, if◌then◌else◌, ltb,
}
use bloblang_lsp.Lsp.Formatting.{
  NodeInfo, Node, node, Nodes, nil, cons, FormatToken, kind_is, whole, trailing_collection_comma,
  closes_inline, plain_token, leaf_token, own_tokens, trim_cr, tokens, tokens_of,
  equivalent_format_tokens,
}
use bloblang_lsp.Lsp.Formatting.Equivalence.{
  CommaSpelled, CloseSpelled, DropsCommas, equivalent_format_tokens_iff,
}

-- Tree-sitter names an anonymous node by its text; these are the ones that matter here.
abbrev pub NamedByText : NodeInfo → Type 0
NamedByText i =
    (i.kind ≡ codes "," → i.text ≡ codes ",")
    × (i.kind ≡ codes "}" → i.text ≡ codes "}")
    × (i.kind ≡ codes "]" → i.text ≡ codes "]")

abbrev mutual
  pub IsNamed : Node → Type 0
  IsNamed (node i cs) = NamedByText i × AreNamed cs

  pub AreNamed : Nodes → Type 0
  AreNamed nil = Unit
  AreNamed (cons c cs) = IsNamed c × AreNamed cs

abbrev pub IsSpelled : FormatToken → Type 0
IsSpelled t = CommaSpelled t × CloseSpelled t

leaf-IsSpelled :
    (parent : Option NodeInfo) (i : NodeInfo) (after : Nodes)
    → NamedByText i
    → IsSpelled (leaf_token parent i after)
unfolding trailing_collection_comma closes_inline
leaf-IsSpelled parent i after (comma, brace, bracket) = (
  λ h. ground (arith, h, comma, text_eq_iff i.kind (codes ",")),
  λ h e.
      ground (
        arith,
        h,
        e,
        brace,
        bracket,
        text_eq_iff i.kind (codes "}"),
        text_eq_iff i.kind (codes "]"),
      ),
)

plain-IsSpelled : (i : NodeInfo) (s : Text) → IsSpelled (plain_token i s)
plain-IsSpelled i s = (λ h. cc, λ h. cc)

-- A comment or a string or number is one token; else what the node gives.
chosen-IsSpelled :
    (i : NodeInfo) (comment one : Bool) (inside : List FormatToken)
    → All IsSpelled inside
    → All IsSpelled (
        if comment
        then plain_token i (trim_cr i.text) ∷ []
        else if one
        then plain_token i i.text ∷ []
        else inside)
chosen-IsSpelled i true one inside h = (plain-IsSpelled i (trim_cr i.text), tt)
chosen-IsSpelled i false true inside h = (plain-IsSpelled i i.text, tt)
chosen-IsSpelled i false false inside h = h

own-IsSpelled :
    (parent : Option NodeInfo) (i : NodeInfo) (after : Nodes)
    → NamedByText i
    → All IsSpelled (own_tokens parent i after)
own-IsSpelled parent i after h = go (ltb i.start i.end)
  where
    go : (b : Bool) → All IsSpelled (if b then leaf_token parent i after ∷ [] else [])
    go true = (leaf-IsSpelled parent i after h, tt)
    go false = tt

mutual
  unfolding tokens

  pub tokens-IsSpelled :
      (parent : Option NodeInfo) (n : Node) (after : Nodes)
      → IsNamed n
      → All IsSpelled (tokens parent n after)
  tokens-IsSpelled parent (node i nil) after h =
      chosen-IsSpelled i (kind_is i (codes "comment")) (whole i) (own_tokens parent i after)
        (own-IsSpelled parent i after h.0)
  tokens-IsSpelled parent (node i (cons c cs)) after h =
      chosen-IsSpelled i (kind_is i (codes "comment")) (whole i)
        (tokens (some i) c cs ++ tokens_of (some i) cs)
        (All-append IsSpelled (tokens (some i) c cs) (tokens_of (some i) cs)
          (tokens-IsSpelled (some i) c cs h.1.0) (tokens_of-IsSpelled (some i) cs h.1.1))

  tokens_of-IsSpelled :
      (parent : Option NodeInfo) (ns : Nodes) → AreNamed ns → All IsSpelled (tokens_of parent ns)
  tokens_of-IsSpelled parent nil h = tt
  tokens_of-IsSpelled parent (cons c cs) h =
      All-append IsSpelled (tokens parent c cs) (tokens_of parent cs)
        (tokens-IsSpelled parent c cs h.0) (tokens_of-IsSpelled parent cs h.1)

-- The formatter's check of two syntax trees, where tree-sitter names commas and delimiters by
-- their text: it passes exactly when the second tree's tokens are the first tree's but for
-- trailing commas before one-line closing delimiters.
pub tokens-equivalent_iff :
    (before after : Node)
    → IsNamed before
    → IsNamed after
    → (equivalent_format_tokens (tokens none before nil) (tokens none after nil) ≡ true)
      ↔ DropsCommas (tokens none before nil) (tokens none after nil)
tokens-equivalent_iff before after h k =
    equivalent_format_tokens_iff (tokens none before nil) (tokens none after nil)
      (All-mono IsSpelled CommaSpelled (tokens none before nil) (λ t s. s.0)
        (tokens-IsSpelled none before nil h))
      (All-mono IsSpelled CloseSpelled (tokens none after nil) (λ t s. s.1)
        (tokens-IsSpelled none after nil k))
