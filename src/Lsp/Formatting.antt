-- ===== src/Lsp/Formatting.antt =====
-- The tokens of internal/lsp/formatting.go, by which the formatter checks its own result.
-- A syntax tree of tree-sitter is data here: each node with its kind, text, span and children.
pub mod Equivalence
pub mod Spelling
use bloblang_lsp.Common.{
  ℕ, Text, Bool, true, false, not, ◌&&◌, ◌||◌, Option, none, some, List, [], ◌∷◌, ◌++◌, ◌==◌, ltb,
  if◌then◌else◌, codes, text_eq,
}

pub record NodeInfo : Type 0 where
  pub kind : Text
  pub text : Text
  pub start : ℕ
  pub end : ℕ
  pub start_row : ℕ
  pub end_row : ℕ

mutual
  pub data Node : Type 0 where
    node : NodeInfo → Nodes → Node

  pub data Nodes : Type 0 where
    nil : Nodes
    cons : Node → Nodes → Nodes

pub record FormatToken : Type 0 where
  pub text : Text
  pub start : ℕ
  pub end : ℕ
  pub trailing_comma : Bool
  pub inline_close : Bool

abbrev pub kind_is : NodeInfo → Text → Bool
kind_is i k = text_eq i.kind k

-- `collection`, of a parent that may be missing
abbrev pub collection : Option NodeInfo → Bool
collection none = false
collection (some i) = kind_is i (codes "object_literal") || kind_is i (codes "array_literal")

-- The next sibling that is no comment closes the collection.
unfoldable pub closes_next : Nodes → Bool
closes_next nil = false
closes_next (cons (node i cs) ns) =
    let later = closes_next ns in
    if kind_is i (codes "comment") then later else kind_is i (codes "}") || kind_is i (codes "]")

-- `trailingCollectionComma`, of a node with its parent and the siblings behind it
unfoldable pub trailing_collection_comma : Option NodeInfo → NodeInfo → Nodes → Bool
unfolding closes_next
trailing_collection_comma parent i after =
    if not (kind_is i (codes ",")) || not (collection parent) then false else closes_next after

abbrev pub one_row : Option NodeInfo → Bool
one_row none = false
one_row (some i) = i.start_row == i.end_row

unfoldable pub closes_inline : Option NodeInfo → NodeInfo → Bool
closes_inline parent i =
    (kind_is i (codes "}") || kind_is i (codes "]")) && (collection parent && one_row parent)

-- strings.TrimSuffix(s, "\r")
abbrev pub trim_cr : Text → Text
trim_cr [] = []
trim_cr (c ∷ []) = if c == b'\r' then [] else c ∷ []
trim_cr (c ∷ d ∷ s) = c ∷ trim_cr (d ∷ s)

abbrev pub plain_token : NodeInfo → Text → FormatToken
plain_token i s = record {
  text = s;
  start = i.start;
  end = i.end;
  trailing_comma = false;
  inline_close = false;
}

abbrev pub leaf_token : Option NodeInfo → NodeInfo → Nodes → FormatToken
leaf_token parent i after = record {
  text = i.text;
  start = i.start;
  end = i.end;
  trailing_comma = trailing_collection_comma parent i after;
  inline_close = closes_inline parent i;
}

-- The node's own token, where the walk stops at it.
abbrev pub whole : NodeInfo → Bool
whole i = kind_is i (codes "string") || kind_is i (codes "number")

abbrev pub own_tokens : Option NodeInfo → NodeInfo → Nodes → List FormatToken
own_tokens parent i after = if ltb i.start i.end then leaf_token parent i after ∷ [] else []

unfoldable mutual
  unfolding trailing_collection_comma closes_inline

  pub tokens : Option NodeInfo → Node → Nodes → List FormatToken
  tokens parent (node i nil) after =
      if kind_is i (codes "comment")
      then plain_token i (trim_cr i.text) ∷ []
      else if whole i
      then plain_token i i.text ∷ []
      else own_tokens parent i after
  tokens parent (node i (cons c cs)) after =
      let inside = tokens (some i) c cs ++ tokens_of (some i) cs in
      if kind_is i (codes "comment")
      then plain_token i (trim_cr i.text) ∷ []
      else if whole i
      then plain_token i i.text ∷ []
      else inside

  pub tokens_of : Option NodeInfo → Nodes → List FormatToken
  tokens_of parent nil = []
  tokens_of parent (cons c cs) = tokens parent c cs ++ tokens_of parent cs

-- `equivalentFormatTokens`: `j` is the place in the second list, here the list from there on.
unfoldable pub equivalent_format_tokens : List FormatToken → List FormatToken → Bool
equivalent_format_tokens [] [] = true
equivalent_format_tokens [] (a ∷ after) = false
equivalent_format_tokens (t ∷ before) [] = false
equivalent_format_tokens (t ∷ before) (a ∷ after) =
    let matched = equivalent_format_tokens before after in
    let skipped = equivalent_format_tokens before (a ∷ after) in
    if text_eq t.text a.text
    then matched
    else if not t.trailing_comma || not a.inline_close
    then false
    else skipped
